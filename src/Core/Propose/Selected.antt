-- ===== src/Core/Propose/Selected.antt =====
-- The block that `SetBlock` (core/block.go) makes, before `ValidateBlock` (core/validate.go).
use abcfe.Base.{
  ℕ, List, [], ◌∷◌, some, false, ◌≡◌, ◌≢◌, refl, arith, length, add64, inl, inr, Option-cases,
  Bool-cases, subst, sym,
}
use abcfe.Base.Int.{ℤ}
use abcfe.Core.Types.{Hash, Address, Transaction, Block, Config, max_txs_per_block}
use abcfe.Core.Errors.{ok, err, too_many_txs, Result-cases}
use abcfe.Core.Crypto.{Crypto}
use abcfe.Core.Store.{AddrUtxoSet, LevelDb}
use abcfe.Core.Mempool.{Mempool, get_txs}
use abcfe.Core.Validate.{
  validate_transaction, calculate_tx_fee, validate_prev_hash, validate_merkle_root,
  validate_block_hash, validate_tx_count,
}
use abcfe.Core.Propose.{
  admit, any_used, mark_used, select, block_txs, assemble, create_coinbase_tx, set_block,
}

module _ (cfg : Config) (c : Crypto) (ldb : LevelDb) (db : ldb.Db) where
  -- Each transaction is accepted, uses no output used before it, and its fee is counted.
  abbrev pub Chosen : AddrUtxoSet → ℕ → ℕ → List Transaction → Type 0
  Chosen used fees total [] = total ≡ fees
  Chosen used fees total (t ∷ ts) =
      (validate_transaction cfg c ldb db t ≡ ok tt)
      × (any_used used t.inputs ≡ false)
      × ((fee : ℕ) × (calculate_tx_fee cfg c ldb db t ≡ ok fee)
          × Chosen (mark_used used t.inputs) (add64 fees fee) total ts)

  admit-eq-some :
      (used : AddrUtxoSet) (t : Transaction) (fee : ℕ)
      → admit cfg c ldb db used t ≡ some fee
      → (validate_transaction cfg c ldb db t ≡ ok tt)
        × (any_used used t.inputs ≡ false)
        × (calculate_tx_fee cfg c ldb db t ≡ ok fee)
  unfolding admit
  admit-eq-some used t fee h = elim (Result-cases (validate_transaction cfg c ldb db t)) [
    | inr (x, e) ↦ ground (arith, h, e)
    | inl (u, e) ↦ elim (Bool-cases (any_used used t.inputs)) [
      | inl b ↦ ground (arith, h, e, b)
      | inr b ↦ elim (Result-cases (calculate_tx_fee cfg c ldb db t)) [
        | inl (n, f) ↦ ground (arith, h, e, b, f)
        | inr (x, f) ↦ ground (arith, h, e, b, f)
      ]
    ]
  ]

  pub select-Chosen :
      (used : AddrUtxoSet) (fees : ℕ) (ts : List Transaction)
      → Chosen used fees
          (select cfg c ldb db used fees ts).fees
          (select cfg c ldb db used fees ts).valid
  unfolding select
  select-Chosen used fees [] = refl
  select-Chosen used fees (t ∷ ts) = elim (Option-cases (admit cfg c ldb db used t)) [
    | inl e ↦
        let s = select cfg c ldb db used fees ts in
        let eq : select cfg c ldb db used fees (t ∷ ts) ≡ record s { invalid = t.id ∷ s.invalid } =
          ground (arith, e) in
        subst (λ x. Chosen used fees x.fees x.valid) (sym eq) (select-Chosen used fees ts)
    | inr (fee, e) ↦
        let s = select cfg c ldb db (mark_used used t.inputs) (add64 fees fee) ts in
        let eq : select cfg c ldb db used fees (t ∷ ts) ≡ record s { valid = t ∷ s.valid } =
          ground (arith, e) in
        let (v, u, f) = admit-eq-some used t fee e in
        subst (λ x. Chosen used fees x.fees x.valid) (sym eq)
          (v, u, (fee, f, select-Chosen (mark_used used t.inputs) (add64 fees fee) ts))
  ]

  -- The block of a proposer: on top of the given hash and height, with the roots and hashes of its
  -- contents, the coinbase transaction first, and then chosen transactions whose fees it is paid.
  pub record Proposes (prev : Hash) (height : ℕ) (proposer : Address) (time : ℤ) (blk : Block)
      : Type 0 where
    pub fees : ℕ
    pub chosen : List Transaction
    pub contents :
        blk.transactions ≡ create_coinbase_tx cfg c ldb proposer height fees time ∷ chosen
    pub valid : Chosen [] 0 fees chosen
    pub linked : validate_prev_hash blk prev ≡ ok tt
    pub merkle : validate_merkle_root c blk ≡ ok tt
    pub hashed : validate_block_hash c blk ≡ ok tt
    pub placed : (blk.header.height ≡ height) × (blk.header.timestamp ≡ time)

  -- The block that `SetBlock` makes for a proposer passes the checks of the previous hash, the
  -- Merkle root and the block hash, and holds the coinbase transaction and then transactions that
  -- `ValidateTransaction` accepts, of which none uses an output that an earlier one uses, and whose
  -- fees, summed modulo 2^64, are those that the coinbase transaction is made with.
  pub set_block-Proposes :
      (m : Mempool) (prev : Hash) (height : ℕ) (proposer : Address) (time : ℤ)
      → proposer ≢ 0
      → Proposes prev height proposer time (set_block cfg c ldb db m prev height proposer time).0
  unfolding set_block block_txs assemble validate_prev_hash validate_merkle_root validate_block_hash
  set_block-Proposes m prev height proposer time ne =
      let s = select cfg c ldb db [] 0 (get_txs m) in
      record {
        fees = s.fees;
        chosen = s.valid;
        contents = ground (arith, ne);
        valid = select-Chosen [] 0 (get_txs m);
        linked = ground arith;
        merkle = ground arith;
        hashed = ground arith;
        placed = (refl, refl);
      }

  -- When as many transactions of the mempool are chosen as a block may have, the block that
  -- `SetBlock` makes for a proposer has one too many for `ValidateTxCount`.
  pub set_block-overfull :
      (m : Mempool) (prev : Hash) (height : ℕ) (proposer : Address) (time : ℤ)
      → proposer ≢ 0
      → length (select cfg c ldb db [] 0 (get_txs m)).valid ≡ max_txs_per_block
      → validate_tx_count (set_block cfg c ldb db m prev height proposer time).0.transactions
        ≡ err too_many_txs
  unfolding set_block block_txs assemble validate_tx_count
  set_block-overfull m prev height proposer time ne full = ground (arith, ne, full)
