-- ===== src/Core/Validate/Distinct.antt =====
-- What the checks for duplicates in a block (core/validate.go) find.
use abcfe.Base.{
  ℕ, List, [], ◌∷◌, ◌++◌, false, ◌≡◌, ◌↔◌, refl, arith, NoRepeat, contains, Bool-cases, inl, inr,
}
use abcfe.Core.Types.{TxInput, Transaction}
use abcfe.Core.Errors.{ok, >>=-eq-ok}
use abcfe.Core.Store.{Ref, AddrUtxoSet}
use abcfe.Core.Utxo.{has_ref, ref_of}
use abcfe.Core.Utxo.Invariant.{tx_ids}
use abcfe.Core.Validate.{
  check_new_ids, validate_duplicate_tx, check_new_refs, check_txs_refs, validate_duplicate_utxo,
}

-- The references that the inputs use, in order.
abbrev pub input_refs : List TxInput → List Ref
input_refs [] = []
input_refs (i ∷ is) = ref_of i ∷ input_refs is

abbrev pub block_refs : List Transaction → List Ref
block_refs [] = []
block_refs (t ∷ ts) = input_refs t.inputs ++ block_refs ts

-- No reference stands twice in the list.
abbrev pub Distinct : List Ref → Type 0
Distinct [] = Unit
Distinct (r ∷ rs) = (has_ref r rs ≡ false) × Distinct rs

-- None of the references is among those seen.
abbrev pub Unseen : AddrUtxoSet → List Ref → Type 0
Unseen seen [] = Unit
Unseen seen (r ∷ rs) = (has_ref r seen ≡ false) × Unseen seen rs

-- What the loop checks, reference by reference.
abbrev pub Accepts : AddrUtxoSet → List Ref → Type 0
Accepts seen [] = Unit
Accepts seen (r ∷ rs) = (has_ref r seen ≡ false) × Accepts (r ∷ seen) rs

Unseen-cons :
    (r : Ref) (seen : AddrUtxoSet) (rs : List Ref)
    → Unseen (r ∷ seen) rs ↔ ((has_ref r rs ≡ false) × Unseen seen rs)
Unseen-cons r seen [] = (λ h. (refl, tt), λ h. tt)
Unseen-cons r seen (q ∷ rs) = (
  λ h. ground (arith, (Unseen-cons r seen rs).0 h.1),
  λ h. ground (arith, (Unseen-cons r seen rs).1 (ground arith, h.1.1)),
)

pub Accepts-Distinct :
    (seen : AddrUtxoSet) (rs : List Ref) → Accepts seen rs ↔ (Distinct rs × Unseen seen rs)
Accepts-Distinct seen [] = (λ h. (tt, tt), λ h. tt)
Accepts-Distinct seen (r ∷ rs) = (
  λ h.
      let (d, u) = (Accepts-Distinct (r ∷ seen) rs).0 h.1 in
      let (f, u') = (Unseen-cons r seen rs).0 u in ((f, d), (h.0, u')),
  λ h.
      (h.1.0, (Accepts-Distinct (r ∷ seen) rs).1 (h.0.1, (Unseen-cons r seen rs).1 (h.0.0, h.1.1))),
)

-- The rest of the references is met with those of these inputs seen.
check_new_refs-Accepts :
    (seen : AddrUtxoSet) (is : List TxInput) (rs : List Ref)
    → ((seen' : AddrUtxoSet) × (check_new_refs seen is ≡ ok seen') × Accepts seen' rs)
      ↔ Accepts seen (input_refs is ++ rs)
unfolding check_new_refs
check_new_refs-Accepts seen [] rs = (λ (s, e, a). ground arith, λ a. (seen, refl, a))
check_new_refs-Accepts seen (i ∷ is) rs = elim (Bool-cases (has_ref (ref_of i) seen)) [
  | inl old ↦ (λ (s, e, a). ground (arith, old), λ a. ground (arith, old))
  | inr new ↦ (
    λ (s, e, a).
        (new, (check_new_refs-Accepts (ref_of i ∷ seen) is rs).0 (s, ground (arith, new), a)),
    λ a.
        let (s, e, b) = (check_new_refs-Accepts (ref_of i ∷ seen) is rs).1 a.1 in
        (s, ground (arith, new, e), b),
  )
]

pub check_txs_refs-Accepts :
    (seen : AddrUtxoSet) (ts : List Transaction)
    → (check_txs_refs seen ts ≡ ok tt) ↔ Accepts seen (block_refs ts)
unfolding check_txs_refs
check_txs_refs-Accepts seen [] = (λ e. tt, λ a. refl)
check_txs_refs-Accepts seen (t ∷ ts) = (
  λ h.
      let (s, e, e') = >>=-eq-ok (check_new_refs seen t.inputs) _ h in
      (check_new_refs-Accepts seen t.inputs (block_refs ts)).0
        (s, e, (check_txs_refs-Accepts s ts).0 e'),
  λ a.
      let (s, e, b) = (check_new_refs-Accepts seen t.inputs (block_refs ts)).1 a in
      let e' = (check_txs_refs-Accepts s ts).1 b in ground (arith, e, e'),
)

Unseen-empty : (rs : List Ref) → Unseen [] rs
Unseen-empty [] = tt
Unseen-empty (r ∷ rs) = (refl, Unseen-empty rs)

-- `ValidateDuplicateUTXO` accepts exactly the lists of transactions in which no output is used
-- twice, by one transaction or by two.
pub validate_duplicate_utxo-Distinct :
    (ts : List Transaction) → (validate_duplicate_utxo ts ≡ ok tt) ↔ Distinct (block_refs ts)
unfolding validate_duplicate_utxo
validate_duplicate_utxo-Distinct ts = (
  λ h. ((Accepts-Distinct [] (block_refs ts)).0 ((check_txs_refs-Accepts [] ts).0 h)).0,
  λ d.
      (check_txs_refs-Accepts [] ts).1
        ((Accepts-Distinct [] (block_refs ts)).1 (d, Unseen-empty (block_refs ts))),
)

-- None of the IDs is among those seen.
abbrev NewIds : List ℕ → List Transaction → Type 0
NewIds seen [] = Unit
NewIds seen (t ∷ ts) = (contains t.id seen ≡ false) × NewIds seen ts

NewIds-cons :
    (a : ℕ) (seen : List ℕ) (ts : List Transaction)
    → NewIds (a ∷ seen) ts ↔ ((contains a (tx_ids ts) ≡ false) × NewIds seen ts)
NewIds-cons a seen [] = (λ h. (refl, tt), λ h. tt)
NewIds-cons a seen (t ∷ ts) = (
  λ h. ground (arith, (NewIds-cons a seen ts).0 h.1),
  λ h. ground (arith, (NewIds-cons a seen ts).1 (ground arith, h.1.1)),
)

check_new_ids-NoRepeat :
    (seen : List ℕ) (ts : List Transaction)
    → (check_new_ids seen ts ≡ ok tt) ↔ (NoRepeat (tx_ids ts) × NewIds seen ts)
unfolding check_new_ids
check_new_ids-NoRepeat seen [] = (λ h. (tt, tt), λ h. refl)
check_new_ids-NoRepeat seen (t ∷ ts) = elim (Bool-cases (contains t.id seen)) [
  | inl old ↦ (λ h. ground (arith, old), λ h. ground (arith, old))
  | inr new ↦ (
    λ h.
        let (n, w) = (check_new_ids-NoRepeat (t.id ∷ seen) ts).0 (ground (arith, new)) in
        let (f, w') = (NewIds-cons t.id seen ts).0 w in ((f, n), (new, w')),
    λ h.
        let e =
          (check_new_ids-NoRepeat (t.id ∷ seen) ts).1
            (h.0.1, (NewIds-cons t.id seen ts).1 (h.0.0, h.1.1)) in
        ground (arith, new, e),
  )
]

NewIds-empty : (ts : List Transaction) → NewIds [] ts
NewIds-empty [] = tt
NewIds-empty (t ∷ ts) = (refl, NewIds-empty ts)

-- `ValidateDuplicateTx` accepts exactly the lists of transactions with different IDs.
pub validate_duplicate_tx-NoRepeat :
    (ts : List Transaction) → (validate_duplicate_tx ts ≡ ok tt) ↔ NoRepeat (tx_ids ts)
unfolding validate_duplicate_tx
validate_duplicate_tx-NoRepeat ts = (
  λ h. ((check_new_ids-NoRepeat [] ts).0 h).0,
  λ n. (check_new_ids-NoRepeat [] ts).1 (n, NewIds-empty ts),
)
