-- ===== src/Core/Utxo/Invariant.antt =====
-- The address lists of core/utxo.go as an index of the unspent outputs.
use abcfe.Base.{
  ℕ, List, [], ◌∷◌, none, some, true, false, ◌≡◌, refl, inl, inr, arith, Bool-cases, Option-cases,
  get_elem?, NoRepeat, contains,
}
use abcfe.Core.Types.{Hash, Address, Transaction, Block, Utxo}
use abcfe.Core.Errors.{ok}
use abcfe.Core.Store.{
  Ref, Key, utxo_key, utxo_list_key, of_utxo, Read, found, not_found, Batch, LevelDb, put_all,
}
use abcfe.Core.Utxo.{update_utxo, fresh_utxo}
use abcfe.Core.Utxo.Update.{created, update_utxo-table, output_at-zero}
use abcfe.Core.Utxo.Lists.{lists, IsList}
use abcfe.Core.Utxo.Paid.{txs_pay}
use abcfe.Core.Utxo.Index.{block_uses, Relisted, update_utxo-Relisted}

-- Every unspent output stands on the list of its owner, and a list names only outputs of its
-- owner that are stored under the reference, and none twice. A list may still name spent ones.
pub record IsIndexed (get : Key → Read) : Type 0 where
  pub typed : (a : Address) → IsList (get (utxo_list_key a))
  pub listed :
      (q : Ref) (u : Utxo)
      → get (utxo_key q.tx q.index) ≡ found (of_utxo u)
      → u.spent ≡ false
      → lists (get (utxo_list_key u.tx_out.address)) q ≡ true
  pub owned :
      (a : Address) (q : Ref)
      → lists (get (utxo_list_key a)) q ≡ true
      → (u : Utxo) × (get (utxo_key q.tx q.index) ≡ found (of_utxo u))
        × (u.tx_out.address ≡ a)
        × (u.tx_id ≡ q.tx)
        × (u.output_index ≡ q.index)

abbrev pub tx_ids : List Transaction → List Hash
tx_ids [] = []
tx_ids (t ∷ ts) = t.id ∷ tx_ids ts

-- The outputs that a block creates are new: its transactions have different IDs, and none has the
-- ID of an output that is stored.
pub record IsFresh (get : Key → Read) (ts : List Transaction) : Type 0 where
  pub distinct : NoRepeat (tx_ids ts)
  pub unseen :
      (q : Ref) → contains q.tx (tx_ids ts) ≡ true → get (utxo_key q.tx q.index) ≡ not_found

created-none :
    (height : ℕ) (ts : List Transaction) (id : Hash) (j : ℕ)
    → contains id (tx_ids ts) ≡ false
    → created height ts id j ≡ none
created-none height [] id j h = refl
created-none height (t ∷ ts) id j h = ground (arith, created-none height ts id j)

-- What a created output looks like.
created-pays :
    (height : ℕ) (ts : List Transaction) (q : Ref) {u : Utxo}
    → created height ts q.tx q.index ≡ some u
    → (txs_pay u.tx_out.address ts q ≡ true)
      × (contains q.tx (tx_ids ts) ≡ true)
      × (u.tx_id ≡ q.tx)
      × (u.output_index ≡ q.index)
      × (u.spent ≡ false)
created-pays height [] q h = cc
created-pays height (t ∷ ts) q h = elim (Option-cases (created height ts q.tx q.index)) [
  | inl e ↦ ground (arith, e, output_at-zero t.outputs q.index)
  | inr (v, e) ↦ ground (arith, e, created-pays height ts q e)
]

pays-created :
    (height : ℕ) (a : Address) (ts : List Transaction) (q : Ref)
    → NoRepeat (tx_ids ts)
    → txs_pay a ts q ≡ true
    → (u : Utxo) × (created height ts q.tx q.index ≡ some u)
      × (u.tx_out.address ≡ a)
      × (u.tx_id ≡ q.tx)
      × (u.output_index ≡ q.index)
pays-created height a [] q n h = cc
pays-created height a (t ∷ ts) q n h = elim (Bool-cases (txs_pay a ts q)) [
  | inl later ↦ let (u, e, e1, e2, e3) = pays-created height a ts q n.1 later in ground (arith, e)
  | inr here ↦ elim (Option-cases (get_elem? t.outputs q.index)) [
    | inl e ↦ absurd (ground (arith, here, e, output_at-zero t.outputs q.index))
    | inr (o, e) ↦
        let facts = output_at-zero t.outputs q.index in
        let later = created-none height ts q.tx q.index in
        (
          fresh_utxo q.tx q.index o height,
          ground (arith, here, e, facts, later),
          ground (arith, here, e, facts),
          refl,
          refl,
        )
  ]
]

module _ (ldb : LevelDb) (db : ldb.Db) (blk : Block) {b : Batch}
    (done : update_utxo ldb db blk ≡ ok b) (inv : IsIndexed (ldb.get db))
    (fresh : IsFresh (ldb.get db) blk.transactions) where
  open ldb use {Db, get}

  abbrev after : Key → Read
  after k = put_all b k (get db k)

  relisted : (a : Address) → Relisted blk a (get db (utxo_list_key a)) (after (utxo_list_key a))
  relisted a = update_utxo-Relisted ldb db a blk done (inv.typed a)

  listed_after :
      (q : Ref) (u : Utxo)
      → after (utxo_key q.tx q.index) ≡ found (of_utxo u)
      → u.spent ≡ false
      → lists (after (utxo_list_key u.tx_out.address)) q ≡ true
  listed_after q u h n =
      let t = update_utxo-table ldb db blk q.tx q.index done in
      let l = relisted u.tx_out.address in
      elim (Option-cases (created blk.header.height blk.transactions q.tx q.index)) [
        | inr (v, e) ↦
            ground (arith, e, t, l.paid q, created-pays blk.header.height blk.transactions q e)
        | inl e ↦ elim (Bool-cases (block_uses blk q)) [
          | inl used ↦ ground (arith, e, t, used)
          | inr unused ↦ l.kept q (inv.listed q u (ground (arith, e, t, unused)) n) unused
        ]
      ]

  owned_after :
      (a : Address) (q : Ref)
      → lists (after (utxo_list_key a)) q ≡ true
      → (u : Utxo) × (after (utxo_key q.tx q.index) ≡ found (of_utxo u))
        × (u.tx_out.address ≡ a)
        × (u.tx_id ≡ q.tx)
        × (u.output_index ≡ q.index)
  owned_after a q h =
      let t = update_utxo-table ldb db blk q.tx q.index done in
      elim ((relisted a).grown q h) [
        | inr paid ↦
            let (u, e, e1, e2, e3) =
              pays-created blk.header.height a blk.transactions q fresh.distinct paid in
            ground (arith, t, e)
        | inl old ↦
            let (u, e, e1, e2, e3) = inv.owned a q old in
            elim (Option-cases (created blk.header.height blk.transactions q.tx q.index)) [
              | inr (v, e') ↦
                  ground
                    (arith, e, fresh.unseen q, created-pays blk.header.height blk.transactions q e')
              | inl e' ↦ ground (arith, t, e, e')
            ]
      ]

  -- After a block whose outputs are new, the lists are an index again.
  pub update_utxo-IsIndexed : IsIndexed after
  update_utxo-IsIndexed = record {
    typed = λ a. (relisted a).typed;
    listed = listed_after;
    owned = owned_after;
  }
