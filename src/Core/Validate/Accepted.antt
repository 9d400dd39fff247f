-- ===== src/Core/Validate/Accepted.antt =====
-- When `ValidateBlock` (core/validate.go) accepts a block above the genesis block.
use abcfe.Base.{
  ◌-◌, ◌≤◌, List, [], ◌∷◌, Option, Bool, ◌≡◌, ◌≢◌, ◌↔◌, refl, arith, All, NoRepeat, length, add64,
  inl, inr,
}
use abcfe.Base.Int.{ℤ, ◌+ℤ◌, ◌≤ℤ◌}
use abcfe.Core.Types.{Block, Transaction, Config, max_txs_per_block}
use abcfe.Core.Errors.{ok, >>-eq-ok, Result-cases}
use abcfe.Core.Crypto.{Crypto}
use abcfe.Core.Store.{LevelDb}
use abcfe.Core.Merkle.{calculate_merkle_root}
use abcfe.Core.Utxo.Invariant.{tx_ids}
use abcfe.Core.Validate.{
  ProposerValidator, validate_prev_hash, validate_merkle_root, validate_block_hash,
  validate_height_continuity, validate_timestamp, validate_proposer, validate_proposer_signature,
  validate_commit, validate_tx_count, validate_duplicate_tx, validate_duplicate_utxo,
  validate_transaction, validate_transactions, validate_on_top, validate_block, get_block_by_height,
  max_future_block_time,
}
use abcfe.Core.Validate.Distinct.{
  Distinct, block_refs, validate_duplicate_tx-NoRepeat, validate_duplicate_utxo-Distinct,
}

module _ (cfg : Config) (c : Crypto) (ldb : LevelDb) (db : ldb.Db) where
  -- The twelve checks, each passed.
  pub record Passes (validator : Option ProposerValidator) (now : ℤ) (blk : Block) (check : Bool)
      (prev : Block) : Type 0 where
    pub stored : get_block_by_height cfg c ldb db (blk.header.height - 1) ≡ ok prev
    pub prev_hash : validate_prev_hash blk prev.header.hash ≡ ok tt
    pub merkle : validate_merkle_root c blk ≡ ok tt
    pub hash : validate_block_hash c blk ≡ ok tt
    pub height : validate_height_continuity blk.header.height prev.header.height ≡ ok tt
    pub time : validate_timestamp now blk.header.timestamp prev.header.timestamp ≡ ok tt
    pub proposer : validate_proposer blk ≡ ok tt
    pub signed : validate_proposer_signature blk validator ≡ ok tt
    pub commit : validate_commit blk check validator ≡ ok tt
    pub count : validate_tx_count blk.transactions ≡ ok tt
    pub ids : validate_duplicate_tx blk.transactions ≡ ok tt
    pub refs : validate_duplicate_utxo blk.transactions ≡ ok tt
    pub txs : validate_transactions cfg c ldb db blk.transactions ≡ ok tt

  on_top-Passes :
      (validator : Option ProposerValidator) (now : ℤ) (blk : Block) (check : Bool) (prev : Block)
      → get_block_by_height cfg c ldb db (blk.header.height - 1) ≡ ok prev
      → validate_on_top cfg c ldb db validator now blk check prev ≡ ok tt
      → Passes validator now blk check prev
  unfolding validate_on_top
  on_top-Passes validator now blk check prev e h =
      let (h_prev_hash, h1) = >>-eq-ok _ _ h in
      let (h_merkle, h2) = >>-eq-ok _ _ h1 in
      let (h_hash, h3) = >>-eq-ok _ _ h2 in
      let (h_height, h4) = >>-eq-ok _ _ h3 in
      let (h_time, h5) = >>-eq-ok _ _ h4 in
      let (h_proposer, h6) = >>-eq-ok _ _ h5 in
      let (h_signed, h7) = >>-eq-ok _ _ h6 in
      let (h_commit, h8) = >>-eq-ok _ _ h7 in
      let (h_count, h9) = >>-eq-ok _ _ h8 in
      let (h_ids, h10) = >>-eq-ok _ _ h9 in
      let (h_refs, h11) = >>-eq-ok _ _ h10 in
      record {
        stored = e;
        prev_hash = h_prev_hash;
        merkle = h_merkle;
        hash = h_hash;
        height = h_height;
        time = h_time;
        proposer = h_proposer;
        signed = h_signed;
        commit = h_commit;
        count = h_count;
        ids = h_ids;
        refs = h_refs;
        txs = h11;
      }

  pub validate_block-Passes :
      (validator : Option ProposerValidator) (now : ℤ) (blk : Block) (check : Bool)
      → blk.header.height ≢ 0
      → validate_block cfg c ldb db validator now blk check ≡ ok tt
      → (prev : Block) × Passes validator now blk check prev
  unfolding validate_block
  validate_block-Passes validator now blk check n h =
      let (prev, e, h') = loaded in (prev, on_top-Passes validator now blk check prev e h')
    where
      loaded :
          (prev : Block) × (get_block_by_height cfg c ldb db (blk.header.height - 1) ≡ ok prev)
          × (validate_on_top cfg c ldb db validator now blk check prev ≡ ok tt)
      loaded = elim (Result-cases (get_block_by_height cfg c ldb db (blk.header.height - 1))) [
        | inl (prev, e) ↦ (prev, e, ground (arith, n, e))
        | inr (x, e) ↦ ground (arith, n, e)
      ]

  on_top-eq-ok :
      (validator : Option ProposerValidator) (now : ℤ) (blk : Block) (check : Bool) (prev : Block)
      → Passes validator now blk check prev
      → validate_on_top cfg c ldb db validator now blk check prev ≡ ok tt
  unfolding validate_on_top
  on_top-eq-ok validator now blk check prev p = ground (arith, p)

  pub Passes-validate_block :
      (validator : Option ProposerValidator) (now : ℤ) (blk : Block) (check : Bool) (prev : Block)
      → blk.header.height ≢ 0
      → Passes validator now blk check prev
      → validate_block cfg c ldb db validator now blk check ≡ ok tt
  unfolding validate_block
  Passes-validate_block validator now blk check prev n p =
      ground (arith, n, p.stored, on_top-eq-ok validator now blk check prev p)

  pub transactions-All :
      (ts : List Transaction)
      → (validate_transactions cfg c ldb db ts ≡ ok tt)
        ↔ All (λ t. validate_transaction cfg c ldb db t ≡ ok tt) ts
  unfolding validate_transactions
  transactions-All [] = (λ h. tt, λ h. refl)
  transactions-All (t ∷ ts) = (
    λ h. (ground arith, (transactions-All ts).0 (ground arith)),
    λ h. ground (arith, h.0, (transactions-All ts).1 h.1),
  )

  -- What an accepted block is, in terms of its contents.
  pub record Accepted (now : ℤ) (blk : Block) (prev : Block) : Type 0 where
    pub stored : get_block_by_height cfg c ldb db (blk.header.height - 1) ≡ ok prev
    pub linked : blk.header.prev_hash ≡ prev.header.hash
    pub merkle : blk.header.merkle_root ≡ calculate_merkle_root c blk.transactions
    pub hashed : blk.header.hash ≡ c.hash_header (record (blk.header) { hash = 0 })
    pub next : blk.header.height ≡ add64 prev.header.height 1
    pub not_before : prev.header.timestamp ≤ℤ blk.header.timestamp
    pub not_after : blk.header.timestamp ≤ℤ (now +ℤ max_future_block_time)
    pub proposed : blk.proposer ≢ 0
    pub count : length blk.transactions ≤ max_txs_per_block
    pub ids : NoRepeat (tx_ids blk.transactions)
    pub refs : Distinct (block_refs blk.transactions)
    pub txs : All (λ t. validate_transaction cfg c ldb db t ≡ ok tt) blk.transactions

  -- `ValidateBlock` accepts a block above height 0 only if it follows the stored block below it by
  -- hash, height and time, is not more than two hours ahead, has the hash and the Merkle root of
  -- its contents, a proposer, at most `MaxTxsPerBlock` transactions with different IDs, uses no
  -- output twice, and holds accepted transactions only.
  pub validate_block-Accepted :
      (validator : Option ProposerValidator) (now : ℤ) (blk : Block) (check : Bool)
      → blk.header.height ≢ 0
      → validate_block cfg c ldb db validator now blk check ≡ ok tt
      → (prev : Block) × Accepted now blk prev
  unfolding validate_prev_hash validate_merkle_root validate_block_hash validate_height_continuity
      validate_timestamp validate_proposer validate_tx_count
  validate_block-Accepted validator now blk check n h =
      let (prev, p) = validate_block-Passes validator now blk check n h in
      let height = p.height in
      let time = p.time in
      (
        prev,
        record {
          stored = p.stored;
          linked = ground (arith, p.prev_hash);
          merkle = ground (arith, p.merkle);
          hashed = ground (arith, p.hash);
          next = ground (arith, height);
          not_before = ground (arith, time);
          not_after = ground (arith, time);
          proposed = λ e. ground (arith, p.proposer, e);
          count = ground (arith, p.count);
          ids = (validate_duplicate_tx-NoRepeat blk.transactions).0 p.ids;
          refs = (validate_duplicate_utxo-Distinct blk.transactions).0 p.refs;
          txs = (transactions-All blk.transactions).0 p.txs;
        },
      )
