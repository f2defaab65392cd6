-- ===== src/Creation/Commitment.antt =====
-- computeWorkEvidenceCommitment and computeAgreementCommitment of packages/shared/src/index.ts. Of
-- JavaScript itself, `localeCompare` is a comparison (not greater than 0), and `JSON.stringify` of a
-- text is a function.
pub mod Order
pub mod Examples
use veyronis.Prelude.{
  ℕ, String, ◌≡◌, Bool, true, false, Option, none, some, List, [], ◌∷◌, map, ltb, ◌==◌ as nat_eq,
  if◌then◌else◌, get_or, length,
}
use mathlib.Core.Option
use Prim.Native.String.{◌++◌}
use veyronis.Prelude.Text.{big_int}
use veyronis.Prelude.Text.Decimal.{decimal}
use veyronis.Prelude.Sort.{sort}
use veyronis.Ethers.{Ethers, AbiValue, uint, bytes, address}
use veyronis.Shared.Agreement.{
  AgreementDeliverable, AgreementEvidenceRequirement, AgreementDraft, WorkEvidenceKind, photo, file,
  pdf, url, github_repository, github_commit, tracking_url, receipt, text, transaction_hash,
}
use veyronis.Attestcoin.Commitment.{hash}
use package.text.Mathlib.Text as Text

pub record Script : Type 0 where
  pub locale_before : String → String → Bool
  pub stringify : String → String

-- The values that are committed to.
mutual
  pub data Json : Type 0 where
    text_value : String → Json
    number_value : ℕ → Json
    bool_value : Bool → Json
    array : Items → Json
    object : Entries → Json

  pub data Items : Type 0 where
    no_items : Items
    item : Json → Items → Items

  pub data Entries : Type 0 where
    no_entries : Entries
    entry : String → Json → Entries → Entries

-- `xs.join(",")`.
unfoldable pub join : List String → String
join [] = ""
join (x ∷ []) = x
join (x ∷ y ∷ ys) = x ++ ("," ++ join (y ∷ ys))

kind_name : WorkEvidenceKind → String
kind_name photo = "PHOTO"
kind_name file = "FILE"
kind_name pdf = "PDF"
kind_name url = "URL"
kind_name github_repository = "GITHUB_REPOSITORY"
kind_name github_commit = "GITHUB_COMMIT"
kind_name tracking_url = "TRACKING_URL"
kind_name receipt = "RECEIPT"
kind_name text = "TEXT"
kind_name transaction_hash = "TRANSACTION_HASH"

-- `left.position - right.position || left.id.localeCompare(right.id)`.
abbrev pub position_before : (String → String → Bool) → ℕ → String → ℕ → String → Bool
position_before locale p i q j = if nat_eq p q then locale i j else ltb p q

abbrev pub items_of : {A : Type 0} → (A → Json) → List A → Items
items_of f [] = no_items
items_of f (x ∷ xs) = item (f x) (items_of f xs)

abbrev texts : List (String × String) → Entries
texts [] = no_entries
texts ((key, value) ∷ rest) = entry key (text_value value) (texts rest)

module _ (js : Script) where
  abbrev pub key_before : String × String → String × String → Bool
  key_before a b = js.locale_before a.0 b.0

  abbrev printed_entry : String × String → String
  printed_entry (key, value) = js.stringify key ++ (":" ++ value)

  unfoldable pub print_object : List (String × String) → String
  print_object entries = "{" ++ (join (map printed_entry (sort key_before entries)) ++ "}")

  -- `canonicalJson`, which prints the entries in the order of their keys.
  unfoldable mutual
    pub canonical_json : Json → String
    canonical_json (text_value s) = js.stringify s
    canonical_json (number_value n) = decimal n
    canonical_json (bool_value true) = "true"
    canonical_json (bool_value false) = "false"
    canonical_json (array xs) = "[" ++ (join (canonical_items xs) ++ "]")
    canonical_json (object xs) = print_object (canonical_entries xs)

    canonical_items : Items → List String
    canonical_items no_items = []
    canonical_items (item x xs) = canonical_json x ∷ canonical_items xs

    canonical_entries : Entries → List (String × String)
    canonical_entries no_entries = []
    canonical_entries (entry key x xs) = (key, canonical_json x) ∷ canonical_entries xs

  -- The record is made of the sorted entries, and the JSON text sorts them again.
  unfoldable pub canonical_configuration : List (String × String) → Json
  canonical_configuration configuration = object (texts (sort key_before configuration))

  abbrev pub requirement_before : AgreementEvidenceRequirement → AgreementEvidenceRequirement → Bool
  requirement_before l r = position_before js.locale_before l.position l.id r.position r.id

  abbrev pub deliverable_before : AgreementDeliverable → AgreementDeliverable → Bool
  deliverable_before l r = position_before js.locale_before l.position l.id r.position r.id

  unfoldable pub requirement_json : AgreementEvidenceRequirement → Json
  unfolding canonical_configuration kind_name
  requirement_json r = object (
      entry "id" (text_value r.id) (
        entry "label" (text_value r.label) (
          entry "kind" (text_value (kind_name r.kind)) (
            entry "required" (bool_value r.required) (
              entry "configuration" (canonical_configuration r.configuration)
                (entry "position" (number_value r.position) no_entries))))))

  abbrev pub deliverable_entries : AgreementDeliverable → List AgreementEvidenceRequirement → Json
  deliverable_entries d sorted = object (
      entry "id" (text_value d.id) (
        entry "title" (text_value d.title) (
          entry "description" (text_value d.description) (
            entry "required" (bool_value d.required) (
              entry "active" (bool_value d.active) (
                entry "position" (number_value d.position) (
                  entry "evidenceRequirements" (array (items_of requirement_json sorted))
                    no_entries)))))))

  unfoldable pub deliverable_json : AgreementDeliverable → Json
  deliverable_json d = deliverable_entries d (sort requirement_before d.evidence_requirements)

  unfoldable pub work_evidence_json : List AgreementDeliverable → Json
  unfolding deliverable_json
  work_evidence_json ds = array (items_of deliverable_json (sort deliverable_before ds))

module _ (e : Ethers) (js : Script) where
  unfoldable pub compute_work_evidence_commitment : List AgreementDeliverable → String
  unfolding work_evidence_json
  compute_work_evidence_commitment ds =
      if nat_eq (length ds) 0
      then e.zero_hash
      else e.keccak256 (e.to_utf8_bytes (canonical_json js (work_evidence_json js ds)))

  abbrev pub with_work : String → Option String → Option String
  with_work work none = none
  with_work work (some terms) =
      if Text.◌==◌ work e.zero_hash
      then some terms
      else hash e (bytes 32 terms ∷ bytes 32 work ∷ [])

  unfoldable pub compute_agreement_commitment : AgreementDraft → String → Option String
  unfolding compute_work_evidence_commitment
  compute_agreement_commitment draft policy_commitment =
      with_work (compute_work_evidence_commitment (get_or draft.deliverables [])) (
        hash e (
          address draft.buyer
          ∷ address draft.seller
          ∷ address draft.arbitrator
          ∷ uint 256 (big_int draft.required_amount)
          ∷ bytes 32 policy_commitment
          ∷ bytes 32 draft.agreement_nonce
          ∷ address draft.evidence_registry
          ∷ []))
