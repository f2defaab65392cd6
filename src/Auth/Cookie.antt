-- ===== src/Auth/Cookie.antt =====
-- The cookies of backend/src/auth/wallet-auth.ts.
use veyronis.Prelude.{
  String, ◌≡◌, refl, true, List, ◌∷◌, map, Option, none, some, find, is_some, if◌then◌else◌,
}
use Prim.Native.String.{◌++◌}
use veyronis.Prelude.Text.{every_char}
use veyronis.Prelude.Text.Parts.{
  split, trim, after, lacks, is_plain, after-append, split-first, trim-plain, every_char-append,
  lacks-append,
}
use text.Mathlib.Text.{◌==◌}
use text.Mathlib.TextLemmas.{append_assoc, cons-append}

unfoldable pub cookie_policy : String → String
cookie_policy app_env =
    let same_site = if app_env == "production" then "None" else "Lax" in
    let secure = if app_env == "local" then "" else "; Secure" in
    "HttpOnly; Path=/; SameSite=" ++ (same_site ++ secure)

unfoldable pub session_cookie : String → String → String
unfolding cookie_policy
session_cookie token app_env =
    "veyronis_session=" ++ (token ++ ("; " ++ (cookie_policy app_env ++ "; Max-Age=28800")))

unfoldable pub expired_session_cookie : String → String
unfolding cookie_policy
expired_session_cookie app_env = "veyronis_session=; " ++ (cookie_policy app_env ++ "; Max-Age=0")

-- The value of the part that starts with `name=`.
abbrev value_of : String → Option String → Option String
value_of prefix none = none
value_of prefix (some part) = after prefix part

unfoldable pub read_cookie : Option String → String → Option String
read_cookie none name = none
read_cookie (some header) name =
    let prefix = name ++ "=" in
    value_of prefix (find (λ part. is_some (after prefix part)) (map trim (split b';' header)))

abbrev first_part : String → String
first_part token = "veyronis_session=" ++ token

abbrev other_parts : String → String
other_parts app_env = " " ++ (cookie_policy app_env ++ "; Max-Age=28800")

session_cookie-eq :
    (token app_env : String)
    → session_cookie token app_env ≡ first_part token ++ String.◌∷◌ ";" (other_parts app_env)
unfolding session_cookie
session_cookie-eq token app_env =
    rw (← append_assoc "veyronis_session=" token _)
      (rw (cons-append ";" " " (cookie_policy app_env ++ "; Max-Age=28800")) refl)

found :
    (prefix part value : String) (parts : List String)
    → after prefix part ≡ some value
    → value_of prefix (find (λ x. is_some (after prefix x)) (part ∷ parts)) ≡ some value
unfolding find
found prefix part value parts h = rw (h, h) refl

read_first :
    (token : String) (parts : List String)
    → every_char is_plain token ≡ true
    → value_of "veyronis_session="
        (find (λ x. is_some (after "veyronis_session=" x)) (map trim (first_part token ∷ parts)))
      ≡ some token
unfolding every_char
read_first token parts plain =
    rw
      (trim-plain (first_part token)
        (every_char-append is_plain "veyronis_session=" token refl plain))
      (found "veyronis_session=" (first_part token) token (map trim parts)
        (after-append "veyronis_session=" token))

-- The session that a cookie sets is read back from it, for a token without white space and
-- semicolons.
pub read_cookie-session_cookie :
    (token app_env : String)
    → every_char is_plain token ≡ true
    → lacks b';' token ≡ true
    → read_cookie (some (session_cookie token app_env)) "veyronis_session" ≡ some token
unfolding read_cookie lacks
read_cookie-session_cookie token app_env plain whole =
    rw
      (
        session_cookie-eq token app_env,
        split-first b';' (first_part token) (other_parts app_env) ";" refl
            (lacks-append b';' "veyronis_session=" token refl whole),
      )
      (read_first token (split b';' (other_parts app_env)) plain)
