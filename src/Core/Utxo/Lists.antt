-- ===== src/Core/Utxo/Lists.antt =====
-- What the first loop of `UpdateUtxo` (core/utxo.go) does to the address lists. The source reads
-- every list from the database as it was before the block, so of two inputs of one owner the second
-- put undoes the first removal, and a list that also gains an output keeps what the block spent.
use abcfe.Base.{
  ℕ, List, [], ◌∷◌, Bool, true, false, not, ◌&&◌, ◌||◌, ◌≡◌, ◌⊎◌, inl, inr, arith, All, Bool-cases,
}
use abcfe.Core.Types.{Address, TxInput, Transaction}
use abcfe.Core.Errors.{ok}
use abcfe.Core.Store.{
  Ref, utxo_list_key, AddrUtxoSet, of_utxo_list, Read, found, not_found, Batch, LevelDb, put_all,
  put_all-append,
}
use abcfe.Core.Utxo.{
  spend_input, spend_inputs, spend_txs, has_ref, remove_ref, add_ref, ref_of, ref_eq,
}
use abcfe.Core.Utxo.Update.{spend_input-eq-ok, spend_inputs-cons, spend_txs-cons}

-- The reference is on the list that was read.
abbrev pub lists : Read → Ref → Bool
lists (found (of_utxo_list l)) q = has_ref q l
lists r q = false

-- No reference stands twice, as no key does in a map of Go.
abbrev pub Different : AddrUtxoSet → Type 0
Different [] = Unit
Different (q ∷ l) = (has_ref q l ≡ false) × Different l

-- What is read is a list without repetition, or there is none.
abbrev pub IsList : Read → Type 0
IsList (found (of_utxo_list l)) = Different l
IsList not_found = Unit
IsList r = ⊥

pub has_ref-remove_ref :
    (q r : Ref) (l : AddrUtxoSet) → has_ref q (remove_ref r l) ≡ (not (ref_eq r q) && has_ref q l)
has_ref-remove_ref q r [] = ground arith
has_ref-remove_ref q r (s ∷ l) = ground (arith, has_ref-remove_ref q r l)

has_ref_at :
    (q r : Ref) (l : AddrUtxoSet) → ref_eq r q ≡ true → has_ref r l ≡ true → has_ref q l ≡ true
has_ref_at q r [] e h = cc
has_ref_at q r (s ∷ l) e h = ground (arith, has_ref_at q r l e)

pub has_ref-add_ref :
    (q r : Ref) (l : AddrUtxoSet) → has_ref q (add_ref r l) ≡ (ref_eq r q || has_ref q l)
has_ref-add_ref q r l = ground (arith, has_ref_at q r l)

remove_ref-Different : (r : Ref) (l : AddrUtxoSet) → Different l → Different (remove_ref r l)
remove_ref-Different r [] d = tt
remove_ref-Different r (s ∷ l) (n, d) = elim (Bool-cases (ref_eq s r)) [
  | inl same ↦ rw same (remove_ref-Different r l d)
  | inr other ↦ rw other (ground (arith, has_ref-remove_ref s r l, n), remove_ref-Different r l d)
]

pub add_ref-Different : (r : Ref) (l : AddrUtxoSet) → Different l → Different (add_ref r l)
add_ref-Different r l d = elim (Bool-cases (has_ref r l)) [
  | inl old ↦ rw old d
  | inr new ↦ rw new (new, d)
]

-- After the first loop: nothing is new on the list, and what the block does not use stays.
pub record Kept (used : Ref → Bool) (old new : Read) : Type 0 where
  pub typed : IsList old → IsList new
  pub grown : (q : Ref) → lists new q ≡ true → lists old q ≡ true
  pub kept : (q : Ref) → lists old q ≡ true → used q ≡ false → lists new q ≡ true

abbrev pub AllUsed : (Ref → Bool) → List TxInput → Type 0
AllUsed used [] = Unit
AllUsed used (i ∷ is) = ((q : Ref) → ref_eq (ref_of i) q ≡ true → used q ≡ true) × AllUsed used is

-- A removal of a reference that the block uses.
remove_ref-Kept :
    (used : Ref → Bool) (i : Ref) (l : AddrUtxoSet)
    → ((q : Ref) → ref_eq i q ≡ true → used q ≡ true)
    → Kept used (found (of_utxo_list l)) (found (of_utxo_list (remove_ref i l)))
remove_ref-Kept used i l u = record {
  typed = remove_ref-Different i l;
  grown = λ q h. ground (arith, has_ref-remove_ref q i l);
  kept = λ q h n. ground (arith, has_ref-remove_ref q i l, u q);
}

module _ (ldb : LevelDb) (db : ldb.Db) (height : ℕ) (used : Ref → Bool) (a : Address) where
  open ldb use {Db, get}

  abbrev pub old_list : Read
  old_list = get db (utxo_list_key a)

  spend_input-list :
      (i : TxInput) {b : Batch} (r : Read)
      → spend_input ldb db height i ≡ ok b
      → (put_all b (utxo_list_key a) r ≡ r)
        ⊎ ((l : AddrUtxoSet) × (old_list ≡ found (of_utxo_list l))
            × (put_all b (utxo_list_key a) r ≡ found (of_utxo_list (remove_ref (ref_of i) l))))
  spend_input-list i r h = ground (arith, spend_input-eq-ok ldb db height i h)

  spend_input-Kept :
      (i : TxInput) {b : Batch} (r : Read)
      → spend_input ldb db height i ≡ ok b
      → ((q : Ref) → ref_eq (ref_of i) q ≡ true → used q ≡ true)
      → Kept used old_list r
      → Kept used old_list (put_all b (utxo_list_key a) r)
  spend_input-Kept i r h u k = elim (spend_input-list i r h) [
    | inl same ↦ rw same k
    | inr (l, e, e') ↦ rw (e, e') (remove_ref-Kept used (ref_of i) l u)
  ]

  spend_inputs-Kept :
      (is : List TxInput) {b : Batch} (r : Read)
      → spend_inputs ldb db height is ≡ ok b
      → AllUsed used is
      → Kept used old_list r
      → Kept used old_list (put_all b (utxo_list_key a) r)
  unfolding spend_inputs
  spend_inputs-Kept [] {b} r h u k =
      let e : put_all b (utxo_list_key a) r ≡ r = ground arith in rw e k
  spend_inputs-Kept (i ∷ is) r h u k =
      let (c, d, e, f, g) = spend_inputs-cons ldb db height i is h in
      rw (g, put_all-append c d (utxo_list_key a) r)
        (spend_inputs-Kept is (put_all c (utxo_list_key a) r) f u.1 (spend_input-Kept i r e u.0 k))

  pub spend_txs-Kept :
      (ts : List Transaction) {b : Batch} (r : Read)
      → spend_txs ldb db height ts ≡ ok b
      → All (λ t. AllUsed used t.inputs) ts
      → Kept used old_list r
      → Kept used old_list (put_all b (utxo_list_key a) r)
  unfolding spend_txs
  spend_txs-Kept [] {b} r h u k = let e : put_all b (utxo_list_key a) r ≡ r = ground arith in rw e k
  spend_txs-Kept (t ∷ ts) r h u k =
      let (c, d, e, f, g) = spend_txs-cons ldb db height t ts h in
      rw (g, put_all-append c d (utxo_list_key a) r)
        (spend_txs-Kept ts (put_all c (utxo_list_key a) r) f u.1
          (spend_inputs-Kept t.inputs r e u.0 k))
