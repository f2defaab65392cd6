-- ===== src/Creation/Commitment/Examples.antt =====
-- A small test of the commitments, and a witness of their theorem.
use veyronis.Prelude.{ℕ, String, ◌≡◌, refl, true, some, [], ◌∷◌, leb}
use Prim.Native.String.{◌++◌}
use native.Mathlib.Omega.{arith}
use veyronis.Prelude.Sort.{sort, Reorder, IsTotalOrder}
use veyronis.Prelude.Text.{text_length}
use veyronis.Prelude.Text.Decimal.{decimal}
use veyronis.Samples.{sample_ethers, payer, payee, judge, vault, sample_hash, native_policy}
use veyronis.Shared.Agreement.{
  AgreementDeliverable, AgreementEvidenceRequirement, AgreementDraft, photo, hybrid,
}
use veyronis.Creation.Commitment.{
  Script, compute_work_evidence_commitment, compute_agreement_commitment, canonical_json, join,
  print_object, requirement_json,
}
use veyronis.Creation.Commitment.Order.{Rearranged, compute_agreement_commitment-Rearranged}

-- Texts compared by their length.
abbrev by_length : Script
by_length = record {
  locale_before = λ a b. leb (text_length a) (text_length b);
  stringify = λ s. "'" ++ (s ++ "'");
}

by_length-IsTotalOrder : IsTotalOrder by_length.locale_before
by_length-IsTotalOrder = record {
  total = λ a b. ground arith;
  transitive = λ a b c p q. ground arith;
}

abbrev asked : ℕ → String → AgreementEvidenceRequirement
asked position id = record {
  id = id;
  label = "Proof";
  kind = photo;
  required = true;
  configuration = ("size", "2") ∷ ("at", "1") ∷ [];
  position = position;
}

abbrev delivery : ℕ → String → AgreementDeliverable
delivery position id = record {
  id = id;
  title = "Work";
  description = "Done";
  required = true;
  active = true;
  position = position;
  evidence_requirements = asked 0 "r" ∷ asked 1 "s" ∷ [];
}

abbrev work_draft : AgreementDraft
work_draft = record {
  buyer = payer;
  seller = payee;
  arbitrator = judge;
  required_amount = "250";
  agreement_nonce = sample_hash;
  evidence_registry = vault;
  policy = native_policy;
  agreement_mode = hybrid;
  deliverables = some [];
}

-- The requirements of the first deliverable change places, and then the deliverables do.
abbrev rearranged : Rearranged by_length (delivery 0 "a" ∷ delivery 1 "b" ∷ []) (
    delivery 1 "b"
    ∷ record (delivery 0 "a") { evidence_requirements = asked 1 "s" ∷ asked 0 "r" ∷ [] }
    ∷ [])
rearranged =
    Rearranged.and_then
      (Rearranged.requirements_moved (delivery 0 "a") (delivery 1 "b" ∷ [])
        (Reorder.swap (asked 0 "r") (asked 1 "s") [] refl))
      (Rearranged.moved (Reorder.swap _ (delivery 1 "b") [] refl))

compute_agreement_commitment-Rearranged_example :
    compute_agreement_commitment sample_ethers by_length
      (record work_draft { deliverables = some (delivery 0 "a" ∷ delivery 1 "b" ∷ []) })
      "0xpolicy"
    ≡ compute_agreement_commitment sample_ethers by_length
        (record work_draft {
          deliverables = some (
              delivery 1 "b"
              ∷ record (delivery 0 "a") { evidence_requirements = asked 1 "s" ∷ asked 0 "r" ∷ [] }
              ∷ []);
        })
        "0xpolicy"
compute_agreement_commitment-Rearranged_example =
    compute_agreement_commitment-Rearranged by_length by_length-IsTotalOrder sample_ethers
      work_draft "0xpolicy" rearranged

committed_text :
    compute_work_evidence_commitment sample_ethers by_length
      (record (delivery 0 "a") { evidence_requirements = asked 0 "r" ∷ [] } ∷ [])
    ≡ "[{'id':'a','title':'Work','active':true,'required':true,'position':0,'description':'Done',"
      ++ "'evidenceRequirements':[{'id':'r','kind':'PHOTO','label':'Proof','required':true,'position':0,"
      ++ "'configuration':{'at':'1','size':'2'}}]}]"
unfolding compute_work_evidence_commitment canonical_json join sort print_object text_length decimal
    requirement_json
committed_text = refl
