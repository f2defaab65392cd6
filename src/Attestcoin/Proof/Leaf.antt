-- ===== src/Attestcoin/Proof/Leaf.antt =====
-- backend/src/attestcoin/attested-transaction-decoder.ts: the transaction and its receipt in the
-- Merkle leaf that the block prover has verified. The ABI coder and `Transaction.from` belong to
-- the ethers package, and are a record here; `none` is a call that throws.
pub mod Fits
use veyronis.Prelude.{
  subst, leb→le, some-injective, ℕ, zero, suc, String, Bool, true, false, List, [], ◌∷◌, Option,
  none, some, leb, get_elem?, ◌≡◌, refl, ◌≤◌,
}
use veyronis.Prelude.Text.{big_int, truthy}
use veyronis.Prelude.Text.Decimal.{decimal, big_int-decimal}
use veyronis.Ethers.{Ethers}
use veyronis.Attestcoin.{VerifiedSourceLog}

-- The fields of `COMMON`, `["uint64", "uint64", "address", "bool", "address", "uint256", "bytes"]`.
pub record CommonFields : Type 0 where
  pub nonce : ℕ
  pub gas_limit : ℕ
  pub sender : String
  pub creates : Bool
  pub recipient : String
  pub value : ℕ
  pub call_data : String

pub record Signature : Type 0 where
  pub r : String
  pub s : String
  pub parity : ℕ

-- The chunk that the type of a transaction decides on: the gas price, then `v`; the chain id, the
-- gas price and the access list; the chain id, the two fees and the access list.
pub data TypeFields : Type 0 where
  legacy : ℕ → Signature → TypeFields
  access_list : ℕ → ℕ → String → Signature → TypeFields
  dynamic_fee : ℕ → ℕ → ℕ → String → Signature → TypeFields

pub record RawLog : Type 0 where
  pub address : String
  pub topics : List String
  pub raw_data : String

-- `["uint8", "uint64", "tuple(address,bytes32[],bytes)[]", "bytes"]`.
pub record ReceiptFields : Type 0 where
  pub status : ℕ
  pub gas_used : ℕ
  pub receipt_logs : List RawLog
  pub bloom : String

-- What `Transaction.from` is given.
pub record TransactionFields : Type 0 where
  pub nonce : ℕ
  pub gas_limit : ℕ
  pub to : Option String
  pub value : ℕ
  pub call_data : String
  pub type_fields : TypeFields

-- `tx.hash` and `tx.from`, null without a signature.
pub record SignedTransaction : Type 0 where
  pub hash : Option String
  pub from : Option String

pub record Coder : Type 0 where
  pub decode_leaf : String → Option (ℕ × List String)
  pub decode_common : String → Option CommonFields
  pub decode_legacy : String → Option (ℕ × Signature)
  pub decode_access_list : String → Option (ℕ × ℕ × String × Signature)
  pub decode_dynamic_fee : String → Option (ℕ × ℕ × ℕ × String × Signature)
  pub decode_receipt : String → Option ReceiptFields
  pub transaction_from : TransactionFields → Option SignedTransaction

pub record DecodedAttestedTransaction : Type 0 where
  pub hash : String
  pub chain_id : String
  pub from : String
  pub to : Option String
  pub value : String
  pub calldata : String
  pub receipt_status : ℕ
  pub logs : List VerifiedSourceLog

module _ {A B : Type 0} where
  infixl 5 ◌>>=◌
  abbrev ◌>>=◌ : Option A → (A → Option B) → Option B
  none >>= f = none
  some a >>= f = f a

  bind-eq-some :
      (o : Option A) (f : A → Option B) {b : B}
      → (o >>= f) ≡ some b
      → (a : A) × (o ≡ some a) × (f a ≡ some b)
  bind-eq-some none f h = cc
  bind-eq-some (some a) f h = (a, refl, h)

abbrev check : Bool → Option (Unit {0})
check true = some tt
check false = none

check-true :
    (b : Bool) {A : Type 0} (f : Unit {0} → Option A) {a : A}
    → (check b >>= f) ≡ some a
    → (b ≡ true) × (f tt ≡ some a)
check-true true f h = (refl, h)
check-true false f h = cc

abbrev pub transaction_fields : CommonFields → Option String → TypeFields → TransactionFields
transaction_fields common to fields = record {
  nonce = common.nonce;
  gas_limit = common.gas_limit;
  to = to;
  value = common.value;
  call_data = common.call_data;
  type_fields = fields;
}

module _ (e : Ethers) (c : Coder) where
  unfoldable pub decode_fields : ℕ → String → Option TypeFields
  decode_fields zero chunk = do (price, s) ← c.decode_legacy chunk; some (legacy price s)
  decode_fields (suc zero) chunk = do
    (chain, price, xs, s) ← c.decode_access_list chunk
    some (access_list chain price xs s)
  decode_fields (suc (suc n)) chunk = do
    (chain, tip, fee, xs, s) ← c.decode_dynamic_fee chunk
    some (dynamic_fee chain tip fee xs s)

  unfoldable pub chain_id_of : TypeFields → String
  chain_id_of (legacy price s) = "0"
  chain_id_of (access_list chain price xs s) = decimal chain
  chain_id_of (dynamic_fee chain tip fee xs s) = decimal chain

  -- `common[3] ? null : getAddress(String(common[4]))`.
  unfoldable pub recipient_of : Bool → String → Option (Option String)
  recipient_of true to = some none
  recipient_of false to = do address ← e.get_address to; some (some address)

  unfoldable pub decode_logs : List RawLog → Option (List VerifiedSourceLog)
  decode_logs [] = some []
  decode_logs (l ∷ ls) = do
    address ← e.get_address l.address
    rest ← decode_logs ls
    some (record { address = address; topics = l.topics; log_data = l.raw_data } ∷ rest)

  unfoldable pub decode_chunks : ℕ → String → String → String → Option DecodedAttestedTransaction
  unfolding decode_fields recipient_of decode_logs chain_id_of
  decode_chunks type common_chunk type_chunk receipt_chunk = do
    common ← c.decode_common common_chunk
    to ← recipient_of common.creates common.recipient
    fields ← decode_fields type type_chunk
    receipt ← c.decode_receipt receipt_chunk
    tx ← c.transaction_from (transaction_fields common to fields)
    hash ← truthy tx.hash
    sender ← truthy tx.from
    logs ← decode_logs receipt.receipt_logs
    from ← e.get_address sender
    some (record {
      hash = hash;
      chain_id = chain_id_of fields;
      from = from;
      to = to;
      value = decimal common.value;
      calldata = common.call_data;
      receipt_status = receipt.status;
      logs = logs;
    })

  unfoldable pub three_chunks : ℕ → List String → Option DecodedAttestedTransaction
  unfolding decode_chunks
  three_chunks type (a ∷ b ∷ r ∷ more) = decode_chunks type a b r
  three_chunks type _ = none

  unfoldable pub decode_attested_transaction : String → Option DecodedAttestedTransaction
  unfolding three_chunks
  decode_attested_transaction tx_bytes = do
    leaf ← c.decode_leaf tx_bytes
    _ ← check (leb leaf.0 2)
    three_chunks leaf.0 leaf.1
