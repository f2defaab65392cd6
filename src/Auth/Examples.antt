-- ===== src/Auth/Examples.antt =====
-- Runs of the wallet authentication on small inputs.
use veyronis.Prelude.{String, ◌≡◌, refl, true, some, [], ◌∷◌, arith, find, filter}
use veyronis.Prelude.Flow.{next, failed}
use veyronis.Prelude.Flow.Run.{◌>>=◌}
use veyronis.Prelude.Text.{to_lower_case, truthy, every_char}
use veyronis.Prelude.Text.Parts.{split, lacks, is_plain}
use veyronis.Samples.{sample_ethers, payer, payee, address_of}
use veyronis.Auth.{
  IssuedChallenge, set, make_room, prune_challenges, challenge_for, challenge_message, Challenges,
  create_challenge, Platform, verify, issue_session, delete,
}
use veyronis.Auth.Session.{
  IsLawful, lasting, read_session, read_session-issue_session, IsSealed, read_session-IsSealed,
}
use veyronis.Auth.Cookie.{session_cookie, read_cookie, read_cookie-session_cookie}
use veyronis.Auth.Challenges.{IsSound, creates, verifies, after_requests, after_requests-IsSound}
use veyronis.Auth.Login.{IsSigned, verify-IsSigned, verify-once, create_challenge-verify}

-- A platform on which a signature is the signer's address, and every session is written alike.
abbrev platform : Platform
platform = record {
  iso = λ n. "1970";
  verify_message = λ message signature. some signature;
  stringify = λ v. "session";
  parse = λ s. some (record { address = payer; expires_at = 28800010 });
  to_base64url = λ s. s;
  of_base64url = λ s. s;
  hmac = λ key s. "d1";
  of_hex = λ s. 13 ∷ [];
}

abbrev one : Challenges
one =
    record {
      key = payer;
      message = challenge_message platform payer "aa" 300000;
      expires_at = 300000;
    }
    ∷ []

created : (create_challenge sample_ethers platform payer "aa" 0 0 []).1 ≡ one
unfolding create_challenge address_of to_lower_case ◌>>=◌ filter
created = refl

signed_in :
    verify sample_ethers platform "key" payer payer 300000 10 one
    ≡ (next (issue_session sample_ethers platform "key" payer 10), [])
unfolding verify address_of to_lower_case ◌>>=◌ find filter
signed_in = refl

too_late :
    verify sample_ethers platform "key" payer payer 300001 10 one
    ≡ (failed "Challenge expired", one)
unfolding verify address_of to_lower_case ◌>>=◌ find filter
too_late = refl

someone_else :
    verify sample_ethers platform "key" payer payee 10 10 one ≡ (failed "Signature mismatch", one)
unfolding verify address_of to_lower_case ◌>>=◌ find filter
someone_else = refl

payer_checked : sample_ethers.get_address payer ≡ some payer
unfolding address_of to_lower_case
payer_checked = refl

verify-IsSigned_example :
    (address : String) × IsSigned sample_ethers platform "key" payer payer 300000 one address
    × (issue_session sample_ethers platform "key" payer 10
        ≡ issue_session sample_ethers platform "key" address 10)
    × ([] ≡ delete (to_lower_case address) one)
verify-IsSigned_example =
    verify-IsSigned sample_ethers platform "key" payer payer 300000 10 one []
      (issue_session sample_ethers platform "key" payer 10) signed_in

verify-once_example :
    verify sample_ethers platform "key" payer payer 20 30 [] ≡ (failed "Challenge expired", [])
verify-once_example =
    verify-once sample_ethers platform "key" payer payer payer payer 300000 10 20 30 one []
      (issue_session sample_ethers platform "key" payer 10) payer signed_in payer_checked
      payer_checked

abbrev challenged : IssuedChallenge
challenged = record {
  address = payer;
  message = challenge_message platform payer "bb" 300000;
  expires_at = "1970";
}

abbrev after_challenge : Challenges
after_challenge =
    set (challenge_for sample_ethers platform payer "bb" 300000)
      (make_room (prune_challenges 0 one))

challenges :
    create_challenge sample_ethers platform payer "bb" 0 0 one ≡ (next challenged, after_challenge)
unfolding create_challenge address_of to_lower_case ◌>>=◌
challenges = refl

create_challenge-verify_example :
    (payer ≡ payer)
    × (◌≡◌ {A = String} "1970" "1970")
    × ((verify sample_ethers platform "key" payer payer 200000 10 after_challenge).0
        ≡ next (issue_session sample_ethers platform "key" payer 10))
create_challenge-verify_example =
    create_challenge-verify sample_ethers platform "key" payer "bb" payer payer payer 0 0 200000 10
      one after_challenge challenged challenges payer_checked (omega arith) refl payer_checked

after_requests-IsSound_example : IsSound sample_ethers platform (
    after_requests sample_ethers platform "key"
      (creates payer "aa" 0 0 ∷ creates payee "bb" 1 1 ∷ verifies payer payer 2 3 ∷ [])
      [])
after_requests-IsSound_example =
    after_requests-IsSound sample_ethers platform "key"
      (creates payer "aa" 0 0 ∷ creates payee "bb" 1 1 ∷ verifies payer payer 2 3 ∷ [])

lawful : IsLawful platform "key" (lasting payer 10)
unfolding lacks
lawful = record {
  base64url = refl;
  json = refl;
  payload_lacks = refl;
  payload_some = refl;
  digest_lacks = refl;
  digest_some = refl;
}

read_session-issue_session_example :
    read_session sample_ethers platform "key"
      (some (issue_session sample_ethers platform "key" payer 10))
      28800009
    ≡ some (record { address = payer; expires_at = 28800010 })
read_session-issue_session_example =
    read_session-issue_session sample_ethers platform "key" payer 10 lawful 28800009 payer_checked

read_back :
    read_session sample_ethers platform "key" (some "session.d1") 5
    ≡ some (record { address = payer; expires_at = 28800010 })
unfolding read_session address_of to_lower_case split
read_back = refl

read_session-IsSealed_example :
    (text : String) × (truthy (some "session.d1") ≡ some text)
    × IsSealed sample_ethers platform "key" text 5
        (record { address = payer; expires_at = 28800010 })
read_session-IsSealed_example =
    read_session-IsSealed sample_ethers platform "key" (some "session.d1") 5
      (record { address = payer; expires_at = 28800010 }) read_back

plain : every_char is_plain "session.d1" ≡ true
unfolding every_char
plain = refl

whole : lacks b';' "session.d1" ≡ true
unfolding lacks
whole = refl

read_cookie-session_cookie_example :
    read_cookie (some (session_cookie "session.d1" "production")) "veyronis_session"
    ≡ some "session.d1"
read_cookie-session_cookie_example =
    read_cookie-session_cookie "session.d1" "production" plain whole
