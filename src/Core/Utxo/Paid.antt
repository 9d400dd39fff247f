-- ===== src/Core/Utxo/Paid.antt =====
-- What the second loop of `UpdateUtxo` (core/utxo.go) does to the address lists: it adds what the
-- block pays to the list as it was loaded.
use abcfe.Base.{
  ℕ, suc, List, [], ◌∷◌, ◌++◌, none, some, Bool, true, false, ◌==◌, ◌&&◌, ◌||◌, ◌≡◌, refl, inl, inr,
  arith, Bool-cases, NoRepeat, contains, ==_iff,
}
use abcfe.Base.Assoc.{Dict, lookup, insert, keys, lookup-insert, insert-NoRepeat}
use abcfe.Core.Types.{Hash, Address, TxOutput, Transaction}
use abcfe.Core.Errors.{ok, >>=-eq-ok}
use abcfe.Core.Store.{
  Ref, utxo_list_key, AddrUtxoSet, of_utxo_list, Read, found, Batch, LevelDb, put_all,
  put_all-append,
}
use abcfe.Core.Utxo.{add_outputs, add_txs, load_list, has_ref, add_ref, ref_eq, list_puts}
use abcfe.Core.Utxo.Update.{output_at, output_at-before}
use abcfe.Core.Utxo.Lists.{lists, IsList, add_ref-Different, has_ref-add_ref}

-- The output at the reference is one of `os`, numbered from `start`, and pays the address.
abbrev pub pays : Address → Hash → ℕ → List TxOutput → Ref → Bool
pays a id start os q =
    id == q.tx && elim (output_at start os q.index) [ none ↦ false | some o ↦ o.address == a ]

-- The list of an address as the second loop sees it: in memory, else in the database.
module _ (ldb : LevelDb) (db : ldb.Db) (height : ℕ) (a : Address) where
  open ldb use {Db, get}

  abbrev pub current : Dict AddrUtxoSet → Read
  current d = elim (lookup a d) [
    | none ↦ get db (utxo_list_key a)
    | some l ↦ found (of_utxo_list l)
  ]

  load_list-current :
      (d : Dict AddrUtxoSet) (b : Address) {l : AddrUtxoSet} (q : Ref)
      → load_list ldb db d b ≡ ok l
      → (b == a) ≡ true
      → lists (current d) q ≡ has_ref q l
  unfolding load_list
  load_list-current d b q h e = ground arith

  -- One output: its reference joins the list of its address.
  insert-current :
      (d : Dict AddrUtxoSet) (b : Address) (r : Ref) {l : AddrUtxoSet} (q : Ref)
      → load_list ldb db d b ≡ ok l
      → lists (current (insert b (add_ref r l) d)) q ≡ (b == a && ref_eq r q || lists (current d) q)
  insert-current d b r {l} q h = ground (
    arith,
    lookup-insert b a (add_ref r l) d,
    has_ref-add_ref q r l,
    load_list-current d b {l = l} q h,
  )

  add_outputs-current :
      (id : Hash) (start : ℕ) (os : List TxOutput) (d : Dict AddrUtxoSet)
      {p : Batch × Dict AddrUtxoSet} (q : Ref)
      → add_outputs ldb db height id start os d ≡ ok p
      → lists (current p.1) q ≡ (pays a id start os q || lists (current d) q)
  unfolding add_outputs output_at
  add_outputs-current id start [] d q h = ground arith
  add_outputs-current id start (o ∷ os) d q h =
      let (l, e1, e2) = >>=-eq-ok (load_list ldb db d o.address) _ h in
      let (s, e3, e4) = >>=-eq-ok (add_outputs ldb db height id (suc start) os _) _ e2 in
      let r : Ref = record { tx = id; index = start } in
      ground (
        arith,
        e4,
        insert-current d o.address r q e1,
        add_outputs-current id (suc start) os (insert o.address (add_ref r l) d) q e3,
        output_at-before (suc start) os q.index,
      )

  insert-IsList :
      (d : Dict AddrUtxoSet) (b : Address) (r : Ref) {l : AddrUtxoSet}
      → load_list ldb db d b ≡ ok l
      → IsList (current d)
      → IsList (current (insert b (add_ref r l) d))
  unfolding load_list
  insert-IsList d b r {l} h i = elim (Bool-cases (b == a)) [
    | inr other ↦
        let same : current (insert b (add_ref r l) d) ≡ current d =
          ground (arith, other, lookup-insert b a (add_ref r l) d) in
        rw same i
    | inl here ↦
        let new : current (insert b (add_ref r l) d) ≡ found (of_utxo_list (add_ref r l)) =
          ground (arith, here, lookup-insert b a (add_ref r l) d) in
        rw new (add_ref-Different r l (ground (arith, h, i, (==_iff b a).0 here)))
  ]

  add_outputs-IsList :
      (id : Hash) (start : ℕ) (os : List TxOutput) (d : Dict AddrUtxoSet)
      {p : Batch × Dict AddrUtxoSet}
      → add_outputs ldb db height id start os d ≡ ok p
      → IsList (current d)
      → IsList (current p.1)
  unfolding add_outputs
  add_outputs-IsList id start [] d {p} h i = let e : p ≡ ([], d) = ground arith in rw e i
  add_outputs-IsList id start (o ∷ os) d {p} h i =
      let (l, e1, e2) = >>=-eq-ok (load_list ldb db d o.address) _ h in
      let (s, e3, e4) = >>=-eq-ok (add_outputs ldb db height id (suc start) os _) _ e2 in
      let r : Ref = record { tx = id; index = start } in
      let e : p.1 ≡ s.1 = ground (arith, e4) in
      rw e (
        add_outputs-IsList id (suc start) os (insert o.address (add_ref r l) d) e3
          (insert-IsList d o.address r e1 i))

  -- An address that ends up with no list in memory is paid by none of the outputs.
  add_outputs-unlisted :
      (id : Hash) (start : ℕ) (os : List TxOutput) (d : Dict AddrUtxoSet)
      {p : Batch × Dict AddrUtxoSet} (q : Ref)
      → add_outputs ldb db height id start os d ≡ ok p
      → lookup a p.1 ≡ none
      → (lookup a d ≡ none) × (pays a id start os q ≡ false)
  unfolding add_outputs output_at
  add_outputs-unlisted id start [] d q h n = ground arith
  add_outputs-unlisted id start (o ∷ os) d q h n =
      let (l, e1, e2) = >>=-eq-ok (load_list ldb db d o.address) _ h in
      let (s, e3, e4) = >>=-eq-ok (add_outputs ldb db height id (suc start) os _) _ e2 in
      let r : Ref = record { tx = id; index = start } in
      ground (
        arith,
        e4,
        lookup-insert o.address a (add_ref r l) d,
        add_outputs-unlisted id (suc start) os (insert o.address (add_ref r l) d) q e3,
        output_at-before (suc start) os q.index,
      )

  add_outputs-keys :
      (id : Hash) (start : ℕ) (os : List TxOutput) (d : Dict AddrUtxoSet)
      {p : Batch × Dict AddrUtxoSet}
      → add_outputs ldb db height id start os d ≡ ok p
      → NoRepeat (keys d)
      → NoRepeat (keys p.1)
  unfolding add_outputs
  add_outputs-keys id start [] d h n = ground arith
  add_outputs-keys id start (o ∷ os) d h n =
      let (l, e1, e2) = >>=-eq-ok (load_list ldb db d o.address) _ h in
      let (s, e3, e4) = >>=-eq-ok (add_outputs ldb db height id (suc start) os _) _ e2 in
      let l' = add_ref (record { tx = id; index = start }) l in
      ground (
        arith,
        e4,
        add_outputs-keys id (suc start) os (insert o.address l' d) e3
            (insert-NoRepeat o.address l' d n),
      )

  add_outputs-lists :
      (id : Hash) (start : ℕ) (os : List TxOutput) (d : Dict AddrUtxoSet)
      {p : Batch × Dict AddrUtxoSet} (r : Read)
      → add_outputs ldb db height id start os d ≡ ok p
      → put_all p.0 (utxo_list_key a) r ≡ r
  unfolding add_outputs
  add_outputs-lists id start [] d r h = ground arith
  add_outputs-lists id start (o ∷ os) d r h =
      let (l, e1, e2) = >>=-eq-ok (load_list ldb db d o.address) _ h in
      let (s, e3, e4) = >>=-eq-ok (add_outputs ldb db height id (suc start) os _) _ e2 in
      ground (arith, e4, add_outputs-lists id (suc start) os _ r e3)

-- Some transaction of the list pays the address at the reference.
abbrev pub txs_pay : Address → List Transaction → Ref → Bool
txs_pay a [] q = false
txs_pay a (t ∷ ts) q = pays a t.id 0 t.outputs q || txs_pay a ts q

-- What the second loop as a whole does with the list of one address.
pub record Second (a : Address) (ts : List Transaction) (d : Dict AddrUtxoSet)
    (p : Batch × Dict AddrUtxoSet) (now : Dict AddrUtxoSet → Read) : Type 0 where
  pub members : (q : Ref) → lists (now p.1) q ≡ (txs_pay a ts q || lists (now d) q)
  pub unlisted : (q : Ref) → lookup a p.1 ≡ none → (lookup a d ≡ none) × (txs_pay a ts q ≡ false)
  pub typed : IsList (now d) → IsList (now p.1)
  pub distinct : NoRepeat (keys d) → NoRepeat (keys p.1)
  pub no_list_put : (r : Read) → put_all p.0 (utxo_list_key a) r ≡ r

module _ (ldb : LevelDb) (db : ldb.Db) (height : ℕ) (a : Address) where
  open ldb use {Db, get}

  abbrev pub now : Dict AddrUtxoSet → Read
  now = current ldb db height a

  pub add_txs-Second :
      (ts : List Transaction) (d : Dict AddrUtxoSet) {p : Batch × Dict AddrUtxoSet}
      → add_txs ldb db height ts d ≡ ok p
      → Second a ts d p now
  unfolding add_txs
  add_txs-Second [] d {p} h =
      let e : p ≡ ([], d) = ground arith in
      rw e (record {
        members = λ q. ground arith;
        unlisted = λ q n. (n, refl);
        typed = λ i. i;
        distinct = λ n. n;
        no_list_put = λ r. refl;
      })
  add_txs-Second (t ∷ ts) d {p} h =
      let (x, e1, h1) = >>=-eq-ok (add_outputs ldb db height t.id 0 t.outputs d) _ h in
      let (y, e2, h2) = >>=-eq-ok (add_txs ldb db height ts x.1) _ h1 in
      let e : p ≡ (x.0 ++ y.0, y.1) = ground (arith, h2) in
      let ih = add_txs-Second ts x.1 e2 in
      rw e (record {
        members = λ q.
            ground
              (arith, ih.members q, add_outputs-current ldb db height a t.id 0 t.outputs d q e1);
        unlisted = λ q n.
            ground (
              arith,
              ih.unlisted q n,
              add_outputs-unlisted ldb db height a t.id 0 t.outputs d q e1,
            );
        typed = λ i. ih.typed (add_outputs-IsList ldb db height a t.id 0 t.outputs d e1 i);
        distinct = λ n. ih.distinct (add_outputs-keys ldb db height a t.id 0 t.outputs d e1 n);
        no_list_put = λ r. ground (
          arith,
          put_all-append x.0 y.0 (utxo_list_key a) r,
          ih.no_list_put (put_all x.0 (utxo_list_key a) r),
          add_outputs-lists ldb db height a t.id 0 t.outputs d r e1,
        );
      })

put_all-list_puts_unlisted :
    (d : Dict AddrUtxoSet) (a : Address) (r : Read)
    → contains a (keys d) ≡ false
    → put_all (list_puts d) (utxo_list_key a) r ≡ r
put_all-list_puts_unlisted [] a r h = refl
put_all-list_puts_unlisted ((b, l) ∷ d) a r h = ground (arith, put_all-list_puts_unlisted d a r)

pub put_all-list_puts-lookup :
    (d : Dict AddrUtxoSet) (a : Address) (r : Read)
    → NoRepeat (keys d)
    → put_all (list_puts d) (utxo_list_key a) r
      ≡ elim (lookup a d) [ none ↦ r | some l ↦ found (of_utxo_list l) ]
put_all-list_puts-lookup [] a r h = refl
put_all-list_puts-lookup ((b, l) ∷ d) a r h = elim (Bool-cases (b == a)) [
  | inl same ↦
      ground
        (arith, same, put_all-list_puts_unlisted d a (found (of_utxo_list l)), (==_iff b a).0 same)
  | inr other ↦ ground (arith, other, put_all-list_puts-lookup d a r h.1)
]
