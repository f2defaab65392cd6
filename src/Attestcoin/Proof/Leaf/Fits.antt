-- ===== src/Attestcoin/Proof/Leaf/Fits.antt =====
-- What the leaf says of the transaction that attested-transaction-decoder.ts reads from it.
use veyronis.Prelude.{
  subst, sym, leb→le, some-injective, ℕ, zero, suc, String, Bool, true, false, List, [], ◌∷◌,
  Option, none, some, leb, get_elem?, ◌≡◌, ◌≢◌, refl, ◌≤◌,
}
use veyronis.Prelude.Text.{big_int, truthy}
use veyronis.Prelude.Text.Decimal.{decimal, big_int-decimal}
use veyronis.Ethers.{Ethers}
use veyronis.Attestcoin.{VerifiedSourceLog}
use veyronis.Attestcoin.Proof.Leaf.{
  CommonFields, Signature, TypeFields, legacy, access_list, dynamic_fee, RawLog, ReceiptFields,
  SignedTransaction, Coder, DecodedAttestedTransaction, bind-eq-some, check-true,
  transaction_fields, decode_fields, chain_id_of, recipient_of, decode_logs, decode_chunks,
  three_chunks, decode_attested_transaction,
}

module _ (e : Ethers) where
  -- The creation of a contract has no recipient; every other transaction has the checked address.
  abbrev pub RecipientFits : Bool → String → Option String → Type 0
  RecipientFits true recipient to = to ≡ none
  RecipientFits false recipient to = e.get_address recipient ≡ to × (to ≢ none)

  -- The logs one by one, in order, each with its checked address.
  pub data LogsFit : List RawLog → List VerifiedSourceLog → Type 0 where
    no_logs : LogsFit [] []
    one_more :
        (raw : RawLog) (log : VerifiedSourceLog) {raws : List RawLog}
        {logs : List VerifiedSourceLog}
        → e.get_address raw.address ≡ some log.address
        → log.topics ≡ raw.topics
        → log.log_data ≡ raw.raw_data
        → LogsFit raws logs
        → LogsFit (raw ∷ raws) (log ∷ logs)

  recipient_of-RecipientFits :
      (creates : Bool) (recipient : String) (to : Option String) (c : Coder)
      → recipient_of e c creates recipient ≡ some to
      → RecipientFits creates recipient to
  unfolding recipient_of
  recipient_of-RecipientFits true recipient to c h = sym (some-injective h)
  recipient_of-RecipientFits false recipient to c h =
      let (address, checked, h1) = bind-eq-some (e.get_address recipient) _ h in
      let same = some-injective h1 in
      subst (λ x. RecipientFits false recipient x) same (checked, λ k. cc)

  decode_logs-LogsFit :
      (raws : List RawLog) (logs : List VerifiedSourceLog) (c : Coder)
      → decode_logs e c raws ≡ some logs
      → LogsFit raws logs
  unfolding decode_logs
  decode_logs-LogsFit [] logs c h = subst (LogsFit []) (some-injective h) no_logs
  decode_logs-LogsFit (raw ∷ raws) logs c h =
      let (address, checked, h1) = bind-eq-some (e.get_address raw.address) _ h in
      let (rest, decoded, h2) = bind-eq-some (decode_logs e c raws) _ h1 in
      subst (LogsFit (raw ∷ raws)) (some-injective h2)
        (one_more raw _ checked refl refl (decode_logs-LogsFit raws rest c decoded))

-- The fields that the second chunk has by the type of the transaction, and the chain id in them.
module _ (c : Coder) where
  pub data FieldsFit (chunk : String) : ℕ → TypeFields → String → Type 0 where
    is_legacy :
        (price : ℕ) (s : Signature)
        → c.decode_legacy chunk ≡ some (price, s)
        → FieldsFit chunk 0 (legacy price s) "0"
    has_access_list :
        (chain price : ℕ) (xs : String) (s : Signature)
        → c.decode_access_list chunk ≡ some (chain, price, xs, s)
        → FieldsFit chunk 1 (access_list chain price xs s) (decimal chain)
    has_dynamic_fee :
        (n chain tip fee : ℕ) (xs : String) (s : Signature)
        → c.decode_dynamic_fee chunk ≡ some (chain, tip, fee, xs, s)
        → FieldsFit chunk (suc (suc n)) (dynamic_fee chain tip fee xs s) (decimal chain)

  decode_fields-FieldsFit :
      (e : Ethers) (type : ℕ) (chunk : String) (fields : TypeFields)
      → decode_fields e c type chunk ≡ some fields
      → FieldsFit chunk type fields (chain_id_of e c fields)
  unfolding decode_fields chain_id_of
  decode_fields-FieldsFit e zero chunk fields h =
      let ((price, s), read, h1) = bind-eq-some (c.decode_legacy chunk) _ h in
      subst (λ f. FieldsFit chunk 0 f (chain_id_of e c f)) (some-injective h1)
        (is_legacy price s read)
  decode_fields-FieldsFit e (suc zero) chunk fields h =
      let ((chain, price, xs, s), read, h1) = bind-eq-some (c.decode_access_list chunk) _ h in
      subst (λ f. FieldsFit chunk 1 f (chain_id_of e c f)) (some-injective h1)
        (has_access_list chain price xs s read)
  decode_fields-FieldsFit e (suc (suc n)) chunk fields h =
      let ((chain, tip, fee, xs, s), read, h1) = bind-eq-some (c.decode_dynamic_fee chunk) _ h in
      subst (λ f. FieldsFit chunk (suc (suc n)) f (chain_id_of e c f)) (some-injective h1)
        (has_dynamic_fee n chain tip fee xs s read)

module _ (e : Ethers) (c : Coder) where
  -- What the leaf says of the transaction that is read from it.
  pub record LeafFits (tx_bytes : String) (d : DecodedAttestedTransaction) : Type 0 where
    pub type : ℕ
    pub chunks : List String
    pub leaf : c.decode_leaf tx_bytes ≡ some (type, chunks)
    pub supported : type ≤ 2
    pub common : CommonFields
    pub common_chunk : String
    pub first : get_elem? chunks 0 ≡ some common_chunk
    pub common_read : c.decode_common common_chunk ≡ some common
    pub receipt : ReceiptFields
    pub receipt_chunk : String
    pub third : get_elem? chunks 2 ≡ some receipt_chunk
    pub receipt_read : c.decode_receipt receipt_chunk ≡ some receipt
    pub status : d.receipt_status ≡ receipt.status
    pub value : big_int d.value ≡ common.value
    pub calldata : d.calldata ≡ common.call_data
    pub to : RecipientFits e common.creates common.recipient d.to
    pub logs : LogsFit e receipt.receipt_logs d.logs
    pub fields : TypeFields
    pub type_chunk : String
    pub second : get_elem? chunks 1 ≡ some type_chunk
    pub fields_fit : FieldsFit c type_chunk type fields d.chain_id
    -- The transaction that is hashed and whose signer is recovered.
    pub signed : SignedTransaction
    pub built :
        c.transaction_from (record {
          nonce = common.nonce;
          gas_limit = common.gas_limit;
          to = d.to;
          value = common.value;
          call_data = common.call_data;
          type_fields = fields;
        })
        ≡ some signed
    pub hash : signed.hash ≡ some d.hash
    pub hashed : d.hash ≢ ""
    pub signer : String
    pub recovered : signed.from ≡ some signer
    pub from : e.get_address signer ≡ some d.from

  truthy-eqs : (o : Option String) {x : String} → truthy o ≡ some x → (o ≡ some x) × (x ≢ "")
  truthy-eqs none h = cc
  truthy-eqs (some String.[]) h = cc
  truthy-eqs (some (String.◌∷◌ a s)) h = (h, λ k. let m = h in cc)

  decode_chunks-LeafFits :
      (tx_bytes : String) (type : ℕ) (a b r : String) (more : List String)
      (d : DecodedAttestedTransaction)
      → c.decode_leaf tx_bytes ≡ some (type, a ∷ b ∷ r ∷ more)
      → type ≤ 2
      → decode_chunks e c type a b r ≡ some d
      → LeafFits tx_bytes d
  unfolding decode_chunks
  decode_chunks-LeafFits tx_bytes type a b r more d leaf supported h =
      let (common, common_read, h1) = bind-eq-some (c.decode_common a) _ h in
      let (to, to_read, h2) =
        bind-eq-some (recipient_of e c common.creates common.recipient) _ h1 in
      let (fields, fields_read, h3) = bind-eq-some (decode_fields e c type b) _ h2 in
      let (receipt, receipt_read, h4) = bind-eq-some (c.decode_receipt r) _ h3 in
      let (tx, tx_read, h5) =
        bind-eq-some (c.transaction_from (transaction_fields common to fields)) _ h4 in
      let (hash, hash_read, h6) = bind-eq-some (truthy tx.hash) _ h5 in
      let (sender, sender_read, h7) = bind-eq-some (truthy tx.from) _ h6 in
      let (logs, logs_read, h8) = bind-eq-some (decode_logs e c receipt.receipt_logs) _ h7 in
      let (from, from_read, h9) = bind-eq-some (e.get_address sender) _ h8 in
      let same = some-injective h9 in
      subst (LeafFits tx_bytes) same (record {
        type = type;
        chunks = a ∷ b ∷ r ∷ more;
        leaf = leaf;
        supported = supported;
        common = common;
        common_chunk = a;
        first = refl;
        common_read = common_read;
        receipt = receipt;
        receipt_chunk = r;
        third = refl;
        receipt_read = receipt_read;
        status = refl;
        value = big_int-decimal common.value;
        calldata = refl;
        to = recipient_of-RecipientFits e common.creates common.recipient to c to_read;
        logs = decode_logs-LogsFit e receipt.receipt_logs logs c logs_read;
        fields = fields;
        type_chunk = b;
        second = refl;
        fields_fit = decode_fields-FieldsFit c e type b fields fields_read;
        signed = tx;
        built = tx_read;
        hash = (truthy-eqs tx.hash hash_read).0;
        hashed = (truthy-eqs tx.hash hash_read).1;
        signer = sender;
        recovered = (truthy-eqs tx.from sender_read).0;
        from = from_read;
      })

  three_chunks-LeafFits :
      (tx_bytes : String) (type : ℕ) (chunks : List String) (d : DecodedAttestedTransaction)
      → c.decode_leaf tx_bytes ≡ some (type, chunks)
      → type ≤ 2
      → three_chunks e c type chunks ≡ some d
      → LeafFits tx_bytes d
  unfolding three_chunks
  three_chunks-LeafFits tx_bytes type [] d leaf supported h = cc
  three_chunks-LeafFits tx_bytes type (a ∷ []) d leaf supported h = cc
  three_chunks-LeafFits tx_bytes type (a ∷ b ∷ []) d leaf supported h = cc
  three_chunks-LeafFits tx_bytes type (a ∷ b ∷ r ∷ more) d leaf supported h =
      decode_chunks-LeafFits tx_bytes type a b r more d leaf supported h

  -- A transaction that is read from the bytes of a Merkle leaf has a type of at most 2 and at least
  -- three chunks: the recipient, the calldata and the value of the first, in a text that reads back
  -- as that value, the chain id of the second, and the status and all logs of the third, one by
  -- one and in order. The hash, which is not empty, and the signer are those of the transaction
  -- that these fields, the nonce, the gas limit and the fields of its type make up.
  pub decode_attested_transaction-LeafFits :
      (tx_bytes : String) (d : DecodedAttestedTransaction)
      → decode_attested_transaction e c tx_bytes ≡ some d
      → LeafFits tx_bytes d
  unfolding decode_attested_transaction
  decode_attested_transaction-LeafFits tx_bytes d h =
      let ((type, chunks), leaf, h1) = bind-eq-some (c.decode_leaf tx_bytes) _ h in
      let (small, h2) = check-true (leb type 2) _ h1 in
      three_chunks-LeafFits tx_bytes type chunks d leaf (leb→le type 2 small) h2
