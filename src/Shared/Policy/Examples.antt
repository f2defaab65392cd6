-- ===== src/Shared/Policy/Examples.antt =====
-- The policy schema on small policies.
use veyronis.Prelude.{◌≡◌, ◌↔◌, refl, true, false}
use veyronis.Samples.{native_policy, token_policy}
use veyronis.Shared.Policy.{policy_shape, policy_terms, evidence_policy_schema, policy_shape}
use veyronis.Shared.Policy.Schema.{HasShape, IsSound, evidence_policy_schema_iff}

accepts :
    (evidence_policy_schema native_policy ≡ true)
    × (evidence_policy_schema token_policy ≡ true)
    × (evidence_policy_schema (record native_policy { amount = "0" }) ≡ false)
    × (evidence_policy_schema (record native_policy { amount = "0250" }) ≡ false)
unfolding evidence_policy_schema policy_shape policy_terms
accepts = (refl, refl, refl, refl)

evidence_policy_schema_iff_example :
    (evidence_policy_schema native_policy ≡ true) ↔ (HasShape native_policy × IsSound native_policy)
evidence_policy_schema_iff_example = evidence_policy_schema_iff native_policy
