-- ===== src/Core/Utxo/Balance.antt =====
-- What `GetUtxoList` and `CalBalanceUtxo` (core/utxo.go) answer when the lists are an index.
use abcfe.Base.{
  ℕ, ◌+◌, ◌<◌, ◌%◌, List, [], ◌∷◌, Bool, true, false, ◌&&◌, ◌≡◌, refl, inl, inr, arith, Bool-cases,
  All, In, u64_mod, ◌⊎◌,
}
use abcfe.Core.Types.{Address, Utxo}
use abcfe.Core.Errors.{ok, err, db_failure, Result-cases}
use abcfe.Core.Store.{
  Ref, utxo_key, utxo_list_key, of_utxo, of_utxo_list, AddrUtxoSet, found, not_found, LevelDb,
}
use abcfe.Core.Mempool.{Mempool, is_on_mempool}
use abcfe.Core.Utxo.{get_utxo_list, collect, has_ref, add_balance, cal_balance_utxo}
use abcfe.Core.Utxo.Invariant.{IsIndexed}
use abcfe.Core.Utxo.Lists.{Different}

-- The references of outputs.
abbrev pub refs_of : List Utxo → List Ref
refs_of [] = []
refs_of (u ∷ us) = record { tx = u.tx_id; index = u.output_index } ∷ refs_of us

module _ (ldb : LevelDb) (db : ldb.Db) (m : Mempool) (a : Address) (check : Bool) where
  open ldb use {Db, get}

  -- The output may be used by its owner now: stored under its own reference, unspent, paid to the
  -- address and, where the mempool counts, not claimed there.
  pub record Spendable (u : Utxo) : Type 0 where
    pub stored : get db (utxo_key u.tx_id u.output_index) ≡ found (of_utxo u)
    pub unspent : u.spent ≡ false
    pub owner : u.tx_out.address ≡ a
    pub unclaimed : check && is_on_mempool m u.tx_id u.output_index ≡ false

  -- The answer is exactly the spendable outputs, each once.
  pub record Answers (us : List Utxo) : Type 0 where
    pub all : All Spendable us
    pub every : (u : Utxo) → Spendable u → In u us
    pub once : Different (refs_of us)

  -- Every reference of a list leads to an output of the address.
  abbrev Owns : AddrUtxoSet → Type 0
  Owns l =
      (q : Ref)
      → has_ref q l ≡ true
      → (u : Utxo) × (get db (utxo_key q.tx q.index) ≡ found (of_utxo u))
        × (u.tx_out.address ≡ a)
        × (u.tx_id ≡ q.tx)
        × (u.output_index ≡ q.index)

  collect-total :
      (l : AddrUtxoSet)
      → Owns l
      → (us : List Utxo) × (collect ldb db m check l ≡ ok us)
        × All Spendable us
        × ((u : Utxo)
            → Spendable u
            → has_ref (record { tx = u.tx_id; index = u.output_index }) l ≡ true
            → In u us)
  unfolding collect
  collect-total [] own = ([], refl, tt, λ u s h. ground arith)
  collect-total (q ∷ l) own =
      let (u, e, ea, et, ei) = own q (ground arith) in
      let (us, ih, good, every) = collect-total l (λ r h. own r (ground arith)) in
      elim (Bool-cases u.spent) [
        | inl gone ↦ (
          us,
          ground (arith, e, ih, gone),
          good,
          λ v s h. ground (arith, e, gone, s.stored, s.unspent, every v s),
        )
        | inr free ↦ elim (Bool-cases (check && is_on_mempool m u.tx_id u.output_index)) [
          | inl claimed ↦ (
            us,
            ground (arith, e, ih, free, claimed),
            good,
            λ v s h. ground (arith, e, et, ei, claimed, s.stored, s.unclaimed, every v s),
          )
          | inr open' ↦
              let mine : Spendable u = record {
                stored = ground (arith, e, et, ei);
                unspent = free;
                owner = ea;
                unclaimed = open';
              } in
              (
                u ∷ us,
                ground (arith, e, ih, free, open'),
                (mine, good),
                λ v s h. ground (arith, e, s.stored, every v s),
              )
        ]
      ]

  collect-cons :
      (q : Ref) (l : AddrUtxoSet) (us : List Utxo)
      → Owns (q ∷ l)
      → collect ldb db m check (q ∷ l) ≡ ok us
      → (vs : List Utxo) × (collect ldb db m check l ≡ ok vs)
        × ((us ≡ vs) ⊎ ((u : Utxo) × (us ≡ u ∷ vs) × (u.tx_id ≡ q.tx) × (u.output_index ≡ q.index)))
  unfolding collect
  collect-cons q l us own h =
      let (u, e, ea, et, ei) = own q (ground arith) in
      elim (Result-cases (collect ldb db m check l)) [
        | inr (x, e') ↦ absurd (ground (arith, h, e, e'))
        | inl (vs, e') ↦ elim (Bool-cases u.spent) [
          | inl gone ↦ (vs, e', inl (ground (arith, h, e, e', gone)))
          | inr free ↦ elim (Bool-cases (check && is_on_mempool m u.tx_id u.output_index)) [
            | inl claimed ↦ (vs, e', inl (ground (arith, h, e, e', free, claimed)))
            | inr open' ↦ (vs, e', inr (u, ground (arith, h, e, e', free, open'), et, ei))
          ]
        ]
      ]

  -- What is collected is on the list.
  collect-has_ref :
      (r : Ref) (l : AddrUtxoSet) (us : List Utxo)
      → Owns l
      → collect ldb db m check l ≡ ok us
      → has_ref r (refs_of us) ≡ true
      → has_ref r l ≡ true
  unfolding collect
  collect-has_ref r [] us own h e = ground (arith, h, e)
  collect-has_ref r (q ∷ l) us own h e =
      let (vs, h', step) = collect-cons q l us own h in
      let ih = collect-has_ref r l vs (λ p g. own p (ground arith)) h' in
      elim step [
        | inl same ↦ ground (arith, e, same, ih)
        | inr (u, e', et, ei) ↦ ground (arith, e, e', et, ei, ih)
      ]

  -- From a list without repetition, nothing is collected twice.
  collect-Different :
      (l : AddrUtxoSet) (us : List Utxo)
      → Owns l
      → Different l
      → collect ldb db m check l ≡ ok us
      → Different (refs_of us)
  unfolding collect
  collect-Different [] us own d h = ground (arith, h)
  collect-Different (q ∷ l) us own (n, d) h =
      let (vs, h', step) = collect-cons q l us own h in
      let own' : Owns l = λ p g. own p (ground arith) in
      let ih = collect-Different l vs own' d h' in
      elim step [
        | inl same ↦ rw same ih
        | inr (u, e, et, ei) ↦ rw e (
          elim (Bool-cases
              (has_ref (record { tx = u.tx_id; index = u.output_index }) (refs_of vs))) [
                | inr f ↦ f
                | inl t ↦ ground (arith, collect-has_ref q l vs own' h', t, et, ei, n)
              ],
          ih,
        )
      ]

  -- For an address that has a list, `GetUtxoList` succeeds and answers exactly the spendable
  -- outputs of the address, each once.
  pub get_utxo_list-Answers :
      (l : AddrUtxoSet)
      → IsIndexed (get db)
      → get db (utxo_list_key a) ≡ found (of_utxo_list l)
      → (us : List Utxo) × (get_utxo_list ldb db m a check ≡ ok us) × Answers us
  unfolding get_utxo_list
  get_utxo_list-Answers l inv e =
      let owns : Owns l = λ q h. inv.owned a q (ground (arith, e)) in
      let (us, h, good, every) = collect-total l owns in
      (
        us,
        ground (arith, e, h),
        record {
          all = good;
          once = collect-Different l us owns (ground (arith, inv.typed a, e)) h;
          every = λ u s. every u s (
              let on_list =
                inv.listed (record { tx = u.tx_id; index = u.output_index }) u s.stored s.unspent in
              ground (arith, e, on_list, s.owner));
        },
      )

  -- An address that was never paid has no list, and gets an error, not an empty answer.
  pub get_utxo_list_unknown :
      get db (utxo_list_key a) ≡ not_found → get_utxo_list ldb db m a check ≡ err db_failure
  unfolding get_utxo_list
  get_utxo_list_unknown e = ground (arith, e)

-- The sum of the amounts, as numbers that do not wrap.
abbrev pub total_amount : List Utxo → ℕ
total_amount [] = 0
total_amount (u ∷ us) = u.tx_out.amount + total_amount us

abbrev AllUnspent : List Utxo → Type 0
AllUnspent = All (λ u. u.spent ≡ false)

pub add_balance-eq :
    (amount : ℕ) (us : List Utxo)
    → AllUnspent us
    → amount < u64_mod
    → add_balance amount us ≡ (amount + total_amount us) % u64_mod
unfolding add_balance
add_balance-eq amount [] h lt = omega arith
add_balance-eq amount (u ∷ us) h lt =
    rw h.0 (
      rw (add_balance-eq ((amount + u.tx_out.amount) % u64_mod) us h.1 (omega arith)) (omega arith))

-- The balance of unspent outputs is their sum, if that fits in 64 bits.
pub cal_balance_utxo-total :
    (us : List Utxo)
    → AllUnspent us
    → total_amount us < u64_mod
    → cal_balance_utxo us ≡ total_amount us
unfolding cal_balance_utxo
cal_balance_utxo-total us h lt = omega (arith, add_balance-eq 0 us h (omega arith))

pub All-unspent :
    (ldb : LevelDb) (db : ldb.Db) (m : Mempool) (a : Address) (check : Bool) (us : List Utxo)
    → All (Spendable ldb db m a check) us
    → All (λ u. u.spent ≡ false) us
All-unspent ldb db m a check [] s = tt
All-unspent ldb db m a check (u ∷ us) (s, ss) = (s.unspent, All-unspent ldb db m a check us ss)
