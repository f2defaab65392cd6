-- ===== src/Condition/Repository/Examples.antt =====
-- One transaction, attempted twice.
use veyronis.Prelude.{
  ◌<◌, ◌-◌, ◌≤◌, String, ◌≡◌, refl, true, false, some, [], ◌∷◌, leb, find, filter,
}
use veyronis.Prelude.Text.{to_lower_case}
use veyronis.Condition.{AgreementConditionVerification}
use veyronis.Condition.Repository.{
  Store, AgreementConditionVerificationRecord, AgreementConditionVerificationStart,
  start_verification, start_found, stored_of, set, find_verification, stale_timeout,
  latest_verification,
}
use veyronis.Condition.Repository.Claims.{start_verification-exclusive}
use veyronis.Condition.Repository.Latest.{latest_verification-IsLatest}
use mathlib.Core.List.{Memᴰ}

abbrev first_attempt : AgreementConditionVerificationRecord
first_attempt = record {
  id = "v1";
  agreement_id = "a";
  submitter = "seller";
  transaction_hash = "0xab";
  submitted_at = 1000;
  updated_at = 1000;
}

abbrev second_attempt : AgreementConditionVerificationRecord
second_attempt = record {
  id = "v2";
  agreement_id = "a";
  submitter = "seller";
  transaction_hash = "0xAB";
  submitted_at = 2000;
  updated_at = 2000;
}

abbrev first_start : AgreementConditionVerificationStart
first_start = record { verification = stored_of first_attempt; claimed = true }

starts : start_verification first_attempt [] ≡ (first_start, stored_of first_attempt ∷ [])
unfolding start_verification start_found find_verification find set
starts = refl

lowers : to_lower_case "0xAB" ≡ to_lower_case "0xab"
unfolding to_lower_case
lowers = refl

start_verification-exclusive_example :
    ((start_verification second_attempt (stored_of first_attempt ∷ [])).0.claimed
      ≡ leb stale_timeout (2000 - 1000))
    × (2000 - 1000 < stale_timeout
        → start_verification second_attempt (stored_of first_attempt ∷ []) ≡ (
          record { verification = stored_of first_attempt; claimed = false },
          stored_of first_attempt ∷ [],
        ))
start_verification-exclusive_example =
    start_verification-exclusive first_attempt second_attempt [] (stored_of first_attempt ∷ [])
      first_start tt tt starts refl refl lowers

abbrev two_stored : Store
two_stored = stored_of first_attempt ∷ stored_of second_attempt ∷ []

newest : latest_verification "a" two_stored ≡ some (stored_of second_attempt)
unfolding latest_verification filter
newest = refl

latest_verification-IsLatest_example :
    (◌≡◌ {A = String} "a" "a")
    × Memᴰ (stored_of second_attempt) two_stored
    × ((w : AgreementConditionVerification)
        → Memᴰ w two_stored
        → w.agreement_id ≡ "a"
        → w.submitted_at ≤ 2000)
latest_verification-IsLatest_example =
    latest_verification-IsLatest "a" two_stored (stored_of second_attempt) newest
