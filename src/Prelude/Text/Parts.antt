-- ===== src/Prelude/Text/Parts.antt =====
-- `split`, `trim` and prefixes of texts, as JavaScript has them for one separating character. White
-- space is that of ASCII: the texts are headers and tokens.
use Prim.Native.Char.{Char, code}
use Prim.Native.String
use Prim.Native.String.{String}
use Prim.Native.Nat.{ℕ}
use mathlib.Core.Path.{◌≡◌, refl}
use mathlib.Core.Bool.{Bool, true, ◌&&◌, ◌||◌, not}
use mathlib.Core.Option.{Option, none, some}
use mathlib.Core.List.{List, [], ◌∷◌}
use native.Mathlib.Omega.{arith}
use text.Mathlib.TextLemmas.{nil-append, cons-append}
use veyronis.Prelude.Tests.{◌==◌, leb, if◌then◌else◌, and-eq-true, not-eq-true}
use veyronis.Prelude.Text.{every_char}

-- `s.split(c)`: `cut` adds a character to the first part.
abbrev cut : Char → List String → List String
cut c [] = String.◌∷◌ c String.[] ∷ []
cut c (p ∷ ps) = String.◌∷◌ c p ∷ ps

unfoldable pub split : ℕ → String → List String
split n String.[] = String.[] ∷ []
split n (String.◌∷◌ c s) =
    let rest = split n s in if code c == n then String.[] ∷ rest else cut c rest

unfoldable pub lacks : ℕ → String → Bool
lacks n String.[] = true
lacks n (String.◌∷◌ c s) = not (code c == n) && lacks n s

abbrev pub is_space : Char → Bool
is_space c = code c == 32 || leb 9 (code c) && leb (code c) 13

unfoldable pub trim_start : String → String
trim_start String.[] = String.[]
trim_start (String.◌∷◌ c s) = let rest = trim_start s in if is_space c then rest else String.◌∷◌ c s

abbrev drop_last_space : Char → String → String
drop_last_space c String.[] = if is_space c then String.[] else String.◌∷◌ c String.[]
drop_last_space c (String.◌∷◌ d s) = String.◌∷◌ c (String.◌∷◌ d s)

unfoldable pub trim_end : String → String
trim_end String.[] = String.[]
trim_end (String.◌∷◌ c s) = drop_last_space c (trim_end s)

unfoldable pub trim : String → String
unfolding trim_start trim_end
trim s = trim_end (trim_start s)

-- The text after a prefix, where it has it: `startsWith` and then `slice`.
unfoldable pub after : String → String → Option String
after String.[] s = some s
after (String.◌∷◌ c p) String.[] = none
after (String.◌∷◌ c p) (String.◌∷◌ d s) =
    let rest = after p s in if code c == code d then rest else none

-- A text without the separator is one part.
pub split-lacks : (n : ℕ) (s : String) → lacks n s ≡ true → split n s ≡ s ∷ []
unfolding split lacks
split-lacks n String.[] h = refl
split-lacks n (String.◌∷◌ c s) h =
    let (other, rest) = and-eq-true (not (code c == n)) (lacks n s) h in
    let one = split-lacks n s rest in ground arith

-- What stands before the first separator is the first part.
pub split-first :
    (n : ℕ) (s t : String) (c : Char)
    → code c ≡ n
    → lacks n s ≡ true
    → split n (String.◌++◌ s (String.◌∷◌ c t)) ≡ s ∷ split n t
unfolding split lacks
split-first n String.[] t c same h = rw (nil-append (String.◌∷◌ c t)) (ground arith)
split-first n (String.◌∷◌ d s) t c same h =
    let (other, rest) = and-eq-true (not (code d == n)) (lacks n s) h in
    let more = split-first n s t c same rest in rw (cons-append d s (String.◌∷◌ c t)) (ground arith)

-- Two texts without the separator, put around it, are its two parts.
pub split-append :
    (n : ℕ) (s t : String) (c : Char)
    → code c ≡ n
    → lacks n s ≡ true
    → lacks n t ≡ true
    → split n (String.◌++◌ s (String.◌∷◌ c t)) ≡ s ∷ t ∷ []
split-append n s t c same h k = rw (split-first n s t c same h, split-lacks n t k) refl

pub after-append : (p s : String) → after p (String.◌++◌ p s) ≡ some s
unfolding after
after-append String.[] s = rw (nil-append s) refl
after-append (String.◌∷◌ c p) s =
    let rest = after-append p s in rw (cons-append c p s) (ground arith)

-- A text without white space has nothing to trim.
abbrev pub is_plain : Char → Bool
is_plain c = not (is_space c)

trim_start-plain : (s : String) → every_char is_plain s ≡ true → trim_start s ≡ s
unfolding every_char trim_start
trim_start-plain String.[] h = refl
trim_start-plain (String.◌∷◌ c s) h =
    let (plain, rest) = and-eq-true (is_plain c) (every_char is_plain s) h in
    rw (not-eq-true (is_space c) plain) refl

trim_end-plain : (s : String) → every_char is_plain s ≡ true → trim_end s ≡ s
unfolding every_char trim_end
trim_end-plain String.[] h = refl
trim_end-plain (String.◌∷◌ c String.[]) h =
    let (plain, rest) = and-eq-true (is_plain c) true h in rw (not-eq-true (is_space c) plain) refl
trim_end-plain (String.◌∷◌ c (String.◌∷◌ d s)) h =
    let (plain, rest) = and-eq-true (is_plain c) (every_char is_plain (String.◌∷◌ d s)) h in
    rw (trim_end-plain (String.◌∷◌ d s) rest) refl

pub trim-plain : (s : String) → every_char is_plain s ≡ true → trim s ≡ s
unfolding trim
trim-plain s h = rw (trim_start-plain s h) (trim_end-plain s h)

pub every_char-append :
    (q : Char → Bool) (s t : String)
    → every_char q s ≡ true
    → every_char q t ≡ true
    → every_char q (String.◌++◌ s t) ≡ true
unfolding every_char
every_char-append q String.[] t h k = rw (nil-append t) k
every_char-append q (String.◌∷◌ c s) t h k =
    let (here, rest) = and-eq-true (q c) (every_char q s) h in
    rw (cons-append c s t, here) (every_char-append q s t rest k)

pub lacks-append :
    (n : ℕ) (s t : String) → lacks n s ≡ true → lacks n t ≡ true → lacks n (String.◌++◌ s t) ≡ true
unfolding lacks
lacks-append n String.[] t h k = rw (nil-append t) k
lacks-append n (String.◌∷◌ c s) t h k =
    let (here, rest) = and-eq-true (not (code c == n)) (lacks n s) h in
    rw (cons-append c s t, here) (lacks-append n s t rest k)
