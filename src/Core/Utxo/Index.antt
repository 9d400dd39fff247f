-- ===== src/Core/Utxo/Index.antt =====
-- What `UpdateUtxo` (core/utxo.go) does to the list of one address, both loops together.
use abcfe.Base.{
  List, [], ◌∷◌, ◌++◌, Bool, true, false, not, ◌==◌, ◌&&◌, ◌≡◌, ◌⊎◌, inl, inr, arith, Bool-cases,
  Option-cases, All,
}
use abcfe.Base.Assoc.{lookup}
use abcfe.Core.Types.{Address, TxInput, Transaction, Block}
use abcfe.Core.Errors.{ok, >>=-eq-ok}
use abcfe.Core.Store.{Ref, utxo_list_key, Read, Batch, LevelDb, put_all, put_all-append}
use abcfe.Core.Mempool.{uses_output}
use abcfe.Core.Utxo.{update_utxo, spend_block, add_txs, list_puts}
use abcfe.Core.Utxo.Update.{txs_use}
use abcfe.Core.Utxo.Lists.{lists, IsList, Kept, AllUsed, spend_txs-Kept}
use abcfe.Core.Utxo.Paid.{txs_pay, add_txs-Second, put_all-list_puts-lookup}

abbrev pub block_uses : Block → Ref → Bool
block_uses blk q = not (blk.header.height == 0) && txs_use blk.transactions q.tx q.index

-- The list of an address after a block, against the one before.
pub record Relisted (blk : Block) (a : Address) (old new : Read) : Type 0 where
  pub typed : IsList new
  pub grown :
      (q : Ref) → lists new q ≡ true → (lists old q ≡ true) ⊎ (txs_pay a blk.transactions q ≡ true)
  pub kept : (q : Ref) → lists old q ≡ true → block_uses blk q ≡ false → lists new q ≡ true
  pub paid : (q : Ref) → txs_pay a blk.transactions q ≡ true → lists new q ≡ true

inputs-AllUsed :
    (used : Ref → Bool) (is : List TxInput)
    → ((q : Ref) → uses_output is q.tx q.index ≡ true → used q ≡ true)
    → AllUsed used is
inputs-AllUsed used [] h = tt
inputs-AllUsed used (i ∷ is) h =
    (λ q e. h q (ground arith), inputs-AllUsed used is (λ q e. h q (ground arith)))

txs-AllUsed :
    (used : Ref → Bool) (ts : List Transaction)
    → ((q : Ref) → txs_use ts q.tx q.index ≡ true → used q ≡ true)
    → All (λ t. AllUsed used t.inputs) ts
txs-AllUsed used [] h = tt
txs-AllUsed used (t ∷ ts) h = (
  inputs-AllUsed used t.inputs (λ q e. h q (ground arith)),
  txs-AllUsed used ts (λ q e. h q (ground arith)),
)

module _ (ldb : LevelDb) (db : ldb.Db) (a : Address) where
  open ldb use {Db, get}

  spend_block-Kept :
      (blk : Block) {b : Batch}
      → spend_block ldb db blk ≡ ok b
      → IsList (get db (utxo_list_key a))
      → Kept
          (block_uses blk)
          (get db (utxo_list_key a))
          (put_all b (utxo_list_key a) (get db (utxo_list_key a)))
  unfolding spend_block
  spend_block-Kept blk {b} h l =
      let old = get db (utxo_list_key a) in
      let start : Kept (block_uses blk) old old = record {
        typed = λ i. i;
        grown = λ q e. e;
        kept = λ q e n. e;
      } in
      elim (Bool-cases (blk.header.height == 0)) [
        | inl genesis ↦ let e : b ≡ [] = ground (arith, genesis) in rw e start
        | inr later ↦
            spend_txs-Kept ldb db blk.header.height (block_uses blk) a blk.transactions {b = b} old
              (ground (arith, later))
              (txs-AllUsed (block_uses blk) blk.transactions (λ q e. ground (arith, later))) start
      ]

  -- The list of an address after `UpdateUtxo` holds what it held and the block does not use, and
  -- what the block pays to the address, and nothing else but what it held.
  pub update_utxo-Relisted :
      (blk : Block) {b : Batch}
      → update_utxo ldb db blk ≡ ok b
      → IsList (get db (utxo_list_key a))
      → Relisted blk a
          (get db (utxo_list_key a))
          (put_all b (utxo_list_key a) (get db (utxo_list_key a)))
  unfolding update_utxo
  update_utxo-Relisted blk {b} h l =
      let old = get db (utxo_list_key a) in
      let k = utxo_list_key a in
      let (c, e1, h1) = >>=-eq-ok (spend_block ldb db blk) _ h in
      let (p, e2, h2) = >>=-eq-ok (add_txs ldb db blk.header.height blk.transactions []) _ h1 in
      let e : b ≡ c ++ (p.0 ++ list_puts p.1) = ground (arith, h2) in
      let first = spend_block-Kept blk e1 l in
      let second = add_txs-Second ldb db blk.header.height a blk.transactions [] e2 in
      let r = put_all c k old in
      rw
        (
          e,
          put_all-append c (p.0 ++ list_puts p.1) k old,
          put_all-append p.0 (list_puts p.1) k r,
          second.no_list_put r,
          put_all-list_puts-lookup p.1 a r (second.distinct tt),
        )
        (elim (Option-cases (lookup a p.1)) [
          | inl untouched ↦ rw untouched (record {
            typed = first.typed l;
            grown = λ q n. inl (first.grown q n);
            kept = first.kept;
            paid = λ q n. ground (arith, second.unlisted q untouched);
          })
          | inr (l', e') ↦ rw e' (record {
            typed = ground (arith, e', second.typed l);
            grown = λ q n. ground (arith, e', second.members q);
            kept = λ q n u. ground (arith, e', second.members q);
            paid = λ q n. ground (arith, e', second.members q);
          })
        ])
