-- ===== src/Core/Chain/Progress.antt =====
-- Adding a block that `ValidateBlock` accepts (core/validate.go, core/block.go).
use abcfe.Base.{
  ℕ, suc, List, [], ◌∷◌, ◌++◌, Option, some, Bool, true, ◌==◌, ◌||◌, ltb, ◌≡◌, ◌≢◌, refl, arith,
  All, inl, inr, ◌⊎◌, Option-cases, Bool-cases, subst,
}
use abcfe.Base.Assoc.{Dict, lookup, insert}
use abcfe.Base.Int.{ℤ}
use abcfe.Core.Types.{Hash, Address, TxInput, TxOutput, Transaction, Block, Utxo, Config}
use abcfe.Core.Errors.{ok}
use abcfe.Core.Crypto.{Crypto}
use abcfe.Core.Store.{
  Ref, utxo_key, utxo_list_key, of_utxo, of_utxo_list, AddrUtxoSet, Read, found, not_found, Batch,
  LevelDb,
}
use abcfe.Core.Utxo.{
  update_utxo, spend_input, spend_inputs, spend_txs, spend_block, load_list, add_outputs, add_txs,
  list_puts, add_ref, fresh_utxo, mark_spent, remove_ref, ref_of,
}
use abcfe.Core.Utxo.Lists.{lists, IsList}
use abcfe.Core.Utxo.Invariant.{IsIndexed}
use abcfe.Core.Validate.{validate_transaction, validate_block, ProposerValidator}
use abcfe.Core.Validate.Sums.{Spends, validate_transaction-Transfers}
use abcfe.Core.Validate.Accepted.{validate_block-Accepted}
use abcfe.Core.Chain.{
  Chain, del_txs, save_block_data, save_tx_data, block_batch, state_puts, settle,
  update_chain_state, add_block,
}

lists-found :
    (r : Read) (q : Ref) → lists r q ≡ true → (l : AddrUtxoSet) × (r ≡ found (of_utxo_list l))
lists-found r q h = ground arith

IsList-cases :
    (r : Read) → IsList r → (r ≡ not_found) ⊎ ((l : AddrUtxoSet) × (r ≡ found (of_utxo_list l)))
IsList-cases (found (of_utxo_list l)) h = inr (l, refl)
IsList-cases not_found h = inl refl
IsList-cases r h = ground (arith, h)

module _ (cfg : Config) (c : Crypto) (ldb : LevelDb) (db : ldb.Db)
    (inv : IsIndexed (ldb.get db)) where
  open ldb use {Db, get}

  spend_inputs-total :
      (height : ℕ) (is : List TxInput) (us : List Utxo)
      → Spends cfg c ldb db is us
      → (b : Batch) × (spend_inputs ldb db height is ≡ ok b)
  unfolding spend_inputs spend_input
  spend_inputs-total height [] us s = ([], refl)
  spend_inputs-total height (i ∷ is) [] s = absurd s
  spend_inputs-total height (i ∷ is) (u ∷ us) s =
      let q : Ref = record { tx = i.tx_id; index = i.output_index } in
      let (l, e) =
        lists-found (get db (utxo_list_key u.tx_out.address)) q (inv.listed q u s.0 s.1) in
      let (b, e') = spend_inputs-total height is us s.2 in
      (
        ((utxo_key i.tx_id i.output_index, of_utxo (mark_spent height u))
              ∷ (utxo_list_key u.tx_out.address, of_utxo_list (remove_ref (ref_of i) l))
              ∷ [])
            ++ b,
        ground (arith, s.0, s.1, e, e'),
      )

  -- Every transaction uses stored and unspent outputs.
  abbrev AllSpend : List Transaction → Type 0
  AllSpend = All (λ t. (us : List Utxo) × Spends cfg c ldb db t.inputs us)

  spend_txs-total :
      (height : ℕ) (ts : List Transaction)
      → AllSpend ts
      → (b : Batch) × (spend_txs ldb db height ts ≡ ok b)
  unfolding spend_txs
  spend_txs-total height [] h = ([], refl)
  spend_txs-total height (t ∷ ts) h =
      let (b, e) = spend_inputs-total height t.inputs h.0.0 h.0.1 in
      let (d, e') = spend_txs-total height ts h.1 in (b ++ d, ground (arith, e, e'))

  load_list-total :
      (d : Dict AddrUtxoSet) (a : Address) → (l : AddrUtxoSet) × (load_list ldb db d a ≡ ok l)
  unfolding load_list
  load_list-total d a = elim (Option-cases (lookup a d)) [
    | inl e ↦ elim (IsList-cases (get db (utxo_list_key a)) (inv.typed a)) [
      | inl e' ↦ ([], ground (arith, e, e'))
      | inr (l, e') ↦ (l, ground (arith, e, e'))
    ]
    | inr (l, e) ↦ (l, ground (arith, e))
  ]

  add_outputs-total :
      (height : ℕ) (id : Hash) (n : ℕ) (os : List TxOutput) (d : Dict AddrUtxoSet)
      → (p : Batch × Dict AddrUtxoSet) × (add_outputs ldb db height id n os d ≡ ok p)
  unfolding add_outputs
  add_outputs-total height id n [] d = (([], d), refl)
  add_outputs-total height id n (o ∷ os) d =
      let (l, e) = load_list-total d o.address in
      let (p, e') =
        add_outputs-total height id (suc n) os
          (insert o.address (add_ref (record { tx = id; index = n }) l) d) in
      (((utxo_key id n, of_utxo (fresh_utxo id n o height)) ∷ p.0, p.1), ground (arith, e, e'))

  pub add_txs-total :
      (height : ℕ) (ts : List Transaction) (d : Dict AddrUtxoSet)
      → (p : Batch × Dict AddrUtxoSet) × (add_txs ldb db height ts d ≡ ok p)
  unfolding add_txs
  add_txs-total height [] d = (([], d), refl)
  add_txs-total height (t ∷ ts) d =
      let (p, e) = add_outputs-total height t.id 0 t.outputs d in
      let (q, e') = add_txs-total height ts p.1 in ((p.0 ++ q.0, q.1), ground (arith, e, e'))

  spend_block-total :
      (blk : Block) → AllSpend blk.transactions → (b : Batch) × (spend_block ldb db blk ≡ ok b)
  unfolding spend_block
  spend_block-total blk h =
      let (b, e) = spend_txs-total blk.header.height blk.transactions h in
      elim (Bool-cases (blk.header.height == 0)) [
        | inl z ↦ ([], ground (arith, z))
        | inr z ↦ (b, ground (arith, z, e))
      ]

  block_batch-total :
      (blk : Block) → AllSpend blk.transactions → (b : Batch) × (block_batch ldb db blk ≡ ok b)
  unfolding block_batch update_utxo
  block_batch-total blk h =
      let (b, e) = spend_block-total blk h in
      let (p, e') = add_txs-total blk.header.height blk.transactions [] in
      (
        save_block_data blk
            ++ (save_tx_data blk.header.hash blk.transactions ++ (b ++ (p.0 ++ list_puts p.1))),
        ground (arith, e, e'),
      )

  -- A transaction that the check accepts spends stored outputs, or has no inputs.
  accepted-Spends :
      (t : Transaction)
      → validate_transaction cfg c ldb db t ≡ ok tt
      → (us : List Utxo) × Spends cfg c ldb db t.inputs us
  accepted-Spends t h = with_inputs t.inputs refl
    where
      with_inputs :
          (is : List TxInput) → t.inputs ≡ is → (us : List Utxo) × Spends cfg c ldb db is us
      with_inputs [] e = ([], tt)
      with_inputs (i ∷ is) e =
          let (us, tr) =
            validate_transaction-Transfers cfg c ldb db t (λ n. ground (arith, e, n)) h in
          (us, subst (λ x. Spends cfg c ldb db x us) e tr.spends)

  All-Spend :
      (ts : List Transaction)
      → All (λ t. validate_transaction cfg c ldb db t ≡ ok tt) ts
      → AllSpend ts
  All-Spend [] h = tt
  All-Spend (t ∷ ts) h = (accepted-Spends t h.0, All-Spend ts h.1)

settle-total :
    (ldb : LevelDb)
    (writes : (db : ldb.Db) (b : Batch) → (db' : ldb.Db) × (ldb.write db b ≡ some db'))
    (ch : Chain ldb.Db) (blk : Block)
    → (ch' : Chain ldb.Db) × (settle ldb ch blk ≡ (ch', ok tt))
unfolding settle update_chain_state
settle-total ldb writes ch blk =
    let (db', e) = writes ch.db (state_puts blk.header.height blk.header.hash) in
    let m = del_txs ch.mempool blk.transactions in
    elim (Bool-cases (ltb ch.latest_height blk.header.height || blk.header.height == 0)) [
      | inl t ↦ (
        record {
          latest_height = blk.header.height;
          latest_block_hash = some blk.header.hash;
          db = db';
          mempool = m;
        },
        ground (arith, e, t),
      )
      | inr t ↦ (record ch { mempool = m }, ground (arith, t))
    ]

-- A chain whose index is in order and whose database takes every write adds each block above the
-- genesis block that `ValidateBlock` accepts: `AddBlock` returns no error.
pub add_block-total :
    (cfg : Config) (c : Crypto) (ldb : LevelDb)
    (writes : (db : ldb.Db) (b : Batch) → (db' : ldb.Db) × (ldb.write db b ≡ some db'))
    (ch : Chain ldb.Db) (validator : Option ProposerValidator) (now : ℤ) (blk : Block)
    (check : Bool)
    → IsIndexed (ldb.get ch.db)
    → blk.header.height ≢ 0
    → validate_block cfg c ldb ch.db validator now blk check ≡ ok tt
    → (ch' : Chain ldb.Db) × (add_block ldb ch blk ≡ (ch', ok tt))
unfolding add_block
add_block-total cfg c ldb writes ch validator now blk check inv n h =
    let (prev, a) = validate_block-Accepted cfg c ldb ch.db validator now blk check n h in
    let (b, e) =
      block_batch-total cfg c ldb ch.db inv blk
        (All-Spend cfg c ldb ch.db inv blk.transactions a.txs) in
    let (db', e') = writes ch.db b in
    let (ch', s) = settle-total ldb writes (record ch { db = db' }) blk in
    (ch', ground (arith, e, e', s))
