-- ===== src/Core/Mempool/Priority.antt =====
-- Which transactions `GetTxs` (core/mempool.go) hands to a block.
use mathlib.Core.List.{Perm}
use mathlib.Core.List.Perm
use abcfe.Base.{
  ℕ, zero, suc, ◌≤◌, List, [], ◌∷◌, ◌++◌, ◌≡◌, refl, ap, sym, ◌⊎◌, inl, inr, arith, leb, ltb,
  Bool-cases, tests, length, take, drop, take-append-drop, take-full, length-take-le, All, subst,
}
use abcfe.Base.Assoc.{values}
use abcfe.Core.Types.{Transaction, max_txs_per_block}
use abcfe.Core.Mempool.{Mempool, TxWithFee, insert_by_fee, sort_by_fee, txs_of, get_txs}

-- No entry of the list pays more than `n`.
abbrev pub PaysAtMost : ℕ → List TxWithFee → Type 0
PaysAtMost n = All (λ f. f.fee ≤ n)

-- Fees fall along the list.
abbrev pub IsFalling : List TxWithFee → Type 0
IsFalling [] = Unit
IsFalling (e ∷ es) = PaysAtMost e.fee es × IsFalling es

-- What `GetTxs` promises: `chosen` are the transactions for the block and `rest` those left out.
pub record Picks (pool : List TxWithFee) (txs : List Transaction) : Type 0 where
  pub chosen : List TxWithFee
  pub rest : List TxWithFee
  pub all : Perm (chosen ++ rest) pool
  pub result : txs ≡ txs_of chosen
  pub falling : IsFalling chosen
  pub best : All (λ e. PaysAtMost e.fee rest) chosen
  pub within : length chosen ≤ max_txs_per_block
  pub full : (rest ≡ []) ⊎ (length chosen ≡ max_txs_per_block)

PaysAtMost-mono : {m n : ℕ} (es : List TxWithFee) → m ≤ n → PaysAtMost m es → PaysAtMost n es
PaysAtMost-mono [] h p = tt
PaysAtMost-mono (e ∷ es) h p = (omega arith, PaysAtMost-mono es h p.1)

insert_by_fee-perm : (e : TxWithFee) (es : List TxWithFee) → Perm (insert_by_fee e es) (e ∷ es)
unfolding insert_by_fee
insert_by_fee-perm e [] = Perm.refl _
insert_by_fee-perm e (f ∷ fs) = elim (Bool-cases (leb f.fee e.fee)) [
  | inl h ↦ rw h (Perm.refl _)
  | inr h ↦ rw h (Perm.trans (Perm.cons f (insert_by_fee-perm e fs)) (Perm.swap e f fs))
]

sort_by_fee-perm : (es : List TxWithFee) → Perm (sort_by_fee es) es
unfolding sort_by_fee
sort_by_fee-perm [] = Perm.refl _
sort_by_fee-perm (e ∷ es) =
    Perm.trans (insert_by_fee-perm e (sort_by_fee es)) (Perm.cons e (sort_by_fee-perm es))

insert_by_fee-PaysAtMost :
    (n : ℕ) (e : TxWithFee) (es : List TxWithFee)
    → e.fee ≤ n
    → PaysAtMost n es
    → PaysAtMost n (insert_by_fee e es)
unfolding insert_by_fee
insert_by_fee-PaysAtMost n e [] h p = (h, tt)
insert_by_fee-PaysAtMost n e (f ∷ fs) h p = ground (arith, insert_by_fee-PaysAtMost n e fs h p.1)

insert_by_fee-IsFalling :
    (e : TxWithFee) (es : List TxWithFee) → IsFalling es → IsFalling (insert_by_fee e es)
unfolding insert_by_fee
insert_by_fee-IsFalling e [] h = (tt, tt)
insert_by_fee-IsFalling e (f ∷ fs) h = elim (Bool-cases (leb f.fee e.fee)) [
  | inl le ↦ rw le ((omega tests, PaysAtMost-mono fs (omega tests) h.0), h)
  | inr gt ↦
      rw gt
        (insert_by_fee-PaysAtMost f.fee e fs (omega tests) h.0, insert_by_fee-IsFalling e fs h.1)
]

sort_by_fee-IsFalling : (es : List TxWithFee) → IsFalling (sort_by_fee es)
unfolding sort_by_fee
sort_by_fee-IsFalling [] = tt
sort_by_fee-IsFalling (e ∷ es) =
    insert_by_fee-IsFalling e (sort_by_fee es) (sort_by_fee-IsFalling es)

PaysAtMost-take :
    (k n : ℕ) (es : List TxWithFee)
    → PaysAtMost n es
    → PaysAtMost n (take k es) × PaysAtMost n (drop k es)
PaysAtMost-take zero n es p = (tt, p)
PaysAtMost-take (suc k) n [] p = (tt, tt)
PaysAtMost-take (suc k) n (e ∷ es) p = ground (arith, PaysAtMost-take k n es p.1)

take-IsFalling : (k : ℕ) (es : List TxWithFee) → IsFalling es → IsFalling (take k es)
take-IsFalling zero es h = tt
take-IsFalling (suc k) [] h = tt
take-IsFalling (suc k) (e ∷ es) h = ((PaysAtMost-take k e.fee es h.0).0, take-IsFalling k es h.1)

take-best :
    (k : ℕ) (es : List TxWithFee)
    → IsFalling es
    → All (λ e. PaysAtMost e.fee (drop k es)) (take k es)
take-best zero es h = tt
take-best (suc k) [] h = tt
take-best (suc k) (e ∷ es) h = ((PaysAtMost-take k e.fee es h.0).1, take-best k es h.1)

txs_of-take : (k : ℕ) (es : List TxWithFee) → take k (txs_of es) ≡ txs_of (take k es)
txs_of-take zero es = refl
txs_of-take (suc k) [] = refl
txs_of-take (suc k) (e ∷ es) = ap (λ ts. e.tx ∷ ts) (txs_of-take k es)

length-txs_of : (es : List TxWithFee) → length (txs_of es) ≡ length es
length-txs_of [] = refl
length-txs_of (e ∷ es) = ap suc (length-txs_of es)

-- The limit never cuts a list that fits.
get_txs-take : (m : Mempool) → get_txs m ≡ txs_of (take max_txs_per_block (sort_by_fee (values m)))
unfolding get_txs
get_txs-take m =
    let es = sort_by_fee (values m) in
    elim (Bool-cases (ltb max_txs_per_block (length (txs_of es)))) [
      | inl over ↦ rw over (txs_of-take max_txs_per_block es)
      | inr fits ↦ rw fits (ap txs_of (sym (whole es (omega (tests, length-txs_of es)))))
    ]
  where
    whole : (es : List TxWithFee) → length es ≤ max_txs_per_block → take max_txs_per_block es ≡ es
    whole es h = elim (take-full max_txs_per_block es) [
      | inl p ↦ p.0
      | inr p ↦ absurd (omega arith)
    ]

full_or_empty : (k : ℕ) (es : List TxWithFee) → (drop k es ≡ []) ⊎ (length (take k es) ≡ k)
full_or_empty k es = elim (take-full k es) [ inl p ↦ inl p.1 | inr p ↦ inr p.0 ]

-- A block gets at most `MaxTxsPerBlock` transactions of the mempool, each at most as often as it
-- is there, by falling fee, and none is left out that pays more than one taken; some are left out
-- only when the limit is reached.
pub get_txs-Picks : (m : Mempool) → Picks (values m) (get_txs m)
get_txs-Picks m = record {
  chosen = take max_txs_per_block (sort_by_fee (values m));
  rest = drop max_txs_per_block (sort_by_fee (values m));
  all =
      subst (λ l. Perm l (values m))
        (sym (take-append-drop max_txs_per_block (sort_by_fee (values m))))
        (sort_by_fee-perm (values m));
  result = get_txs-take m;
  falling = take-IsFalling max_txs_per_block _ (sort_by_fee-IsFalling (values m));
  best = take-best max_txs_per_block _ (sort_by_fee-IsFalling (values m));
  within = length-take-le max_txs_per_block (sort_by_fee (values m));
  full = full_or_empty max_txs_per_block (sort_by_fee (values m));
}
