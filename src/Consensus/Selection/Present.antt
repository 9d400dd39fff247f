-- ===== src/Consensus/Selection/Present.antt =====
-- Who the modes of proposer selection find (consensus/selection.go).
use abcfe.Base.{
  ℕ, zero, suc, ◌%◌, ◌<◌, List, [], ◌∷◌, Option, some, true, ltb, leb, add64, ◌==◌, ◌≡◌, ◌≢◌, refl,
  arith, inl, inr, ◌⊎◌, In, length, get_elem?, Bool-cases, Option-cases, subst, sym, ap, ◌∙◌,
}
use abcfe.Base.Assoc.{values}
use native.Mathlib.Nat.{mod-lt}
use abcfe.Core.Types.{Hash}
use abcfe.Consensus.Validators.{Validator, ValidatorSet, active_validators, get_active_validators}
use abcfe.Consensus.Selection.{
  Seeds, Mode, vrf_mode, hybrid_mode, roundrobin_mode, insert_by_address, sort_by_address, pick,
  pick_or_first, select_proposer, select_proposer_vrf, select_proposer_hybrid,
  select_proposer_by_mode,
}

-- The answer is one of the list.
abbrev Found : Option Validator → List Validator → Type 0
Found o vs = (v : Validator) × (o ≡ some v) × In v vs

get_elem-Found : (vs : List Validator) (i : ℕ) → i < length vs → Found (get_elem? vs i) vs
get_elem-Found [] i h = absurd (omega arith)
get_elem-Found (v ∷ vs) zero h = (v, refl, inl refl)
get_elem-Found (v ∷ vs) (suc i) h =
    let (w, e, k) = get_elem-Found vs i (omega arith) in (w, e, inr k)

at_index-Found :
    (v : Validator) (vs : List Validator) (n : ℕ)
    → Found (get_elem? (v ∷ vs) (n % length (v ∷ vs))) (v ∷ vs)
at_index-Found v vs n = get_elem-Found (v ∷ vs) (n % length (v ∷ vs)) (mod-lt n (omega arith))

pick-In :
    (target cumulative : ℕ) (vs : List Validator) (v : Validator)
    → pick target cumulative vs ≡ some v
    → In v vs
unfolding pick
pick-In target cumulative [] v h = cc
pick-In target cumulative (w ∷ ws) v h =
    elim (Bool-cases (ltb target (add64 cumulative w.voting_power))) [
      | inl t ↦ inl (ground (arith, h, t))
      | inr t ↦ inr (pick-In target (add64 cumulative w.voting_power) ws v (ground (arith, h, t)))
    ]

pick_or_first-Found :
    (target : ℕ) (v : Validator) (vs : List Validator)
    → Found (pick_or_first target (v ∷ vs)) (v ∷ vs)
unfolding pick_or_first
pick_or_first-Found target v vs = elim (Option-cases (pick target 0 (v ∷ vs))) [
  | inl e ↦ (v, ground (arith, e), inl refl)
  | inr (w, e) ↦ (w, ground (arith, e), pick-In target 0 (v ∷ vs) w e)
]

insert-In :
    (v : Validator) (ws : List Validator) (x : Validator)
    → In x (insert_by_address v ws)
    → (x ≡ v) ⊎ In x ws
insert-In v [] x h = h
insert-In v (w ∷ ws) x h = elim (Bool-cases (leb v.address w.address)) [
  | inl t ↦ ground (arith, t)
  | inr t ↦ ground (arith, t, insert-In v ws x)
]

sort-In : (vs : List Validator) (x : Validator) → In x (sort_by_address vs) → In x vs
sort-In [] x h = h
sort-In (v ∷ vs) x h = elim (insert-In v (sort_by_address vs) x h) [
  | inl e ↦ inl e
  | inr k ↦ inr (sort-In vs x k)
]

active-In :
    (vs : List Validator) (x : Validator)
    → In x (active_validators vs)
    → In x vs × (x.is_active ≡ true)
active-In [] x h = absurd h
active-In (v ∷ vs) x h = elim (Bool-cases v.is_active) [
  | inl t ↦
      let eq : active_validators (v ∷ vs) ≡ v ∷ active_validators vs = ground (arith, t) in
      elim (subst (In x) eq h) [
        | inl e ↦ (inl e, ap (λ y. y.is_active) e ∙ t)
        | inr k ↦ let (k', a) = active-In vs x k in (inr k', a)
      ]
  | inr t ↦
      let eq : active_validators (v ∷ vs) ≡ active_validators vs = ground (arith, t) in
      let (k, a) = active-In vs x (subst (In x) eq h) in (inr k, a)
]

insert-cons :
    (v : Validator) (vs : List Validator)
    → (w : Validator) × (ws : List Validator) × (insert_by_address v vs ≡ w ∷ ws)
insert-cons v [] = (v, [], refl)
insert-cons v (u ∷ vs) = elim (Bool-cases (leb v.address u.address)) [
  | inl t ↦ (v, u ∷ vs, ground (arith, t))
  | inr t ↦ (u, insert_by_address v vs, ground (arith, t))
]

sort-cons :
    (vs : List Validator)
    → vs ≢ []
    → (w : Validator) × (ws : List Validator) × (sort_by_address vs ≡ w ∷ ws)
sort-cons [] n = absurd (n refl)
sort-cons (v ∷ vs) n = insert-cons v (sort_by_address vs)

module _ (seeds : Seeds) (vs : ValidatorSet) (prev : Hash) where
  -- The answer is an active validator of the set.
  abbrev pub Present : Option Validator → Type 0
  Present o = (v : Validator) × (o ≡ some v) × In v (values vs.validators) × (v.is_active ≡ true)

  Found-Present :
      (o : Option Validator) → Found o (sort_by_address (get_active_validators vs)) → Present o
  unfolding get_active_validators
  Found-Present o f =
      let (v, e, k) = f in
      let (k', a) =
        active-In (values vs.validators) v
          (sort-In (active_validators (values vs.validators)) v k) in
      (v, e, k', a)

  module _ (w : Validator) (ws : List Validator)
      (sorted : sort_by_address (get_active_validators vs) ≡ w ∷ ws) where
    Found-chosen : (o p : Option Validator) → o ≡ p → Found p (w ∷ ws) → Present o
    Found-chosen o p e f =
        let (v, e', k) = f in Found-Present o (v, e ∙ e', subst (In v) (sym sorted) k)

    roundrobin-Present : (height round : ℕ) → Present (select_proposer vs height round)
    unfolding select_proposer
    roundrobin-Present height round =
        Found-chosen (select_proposer vs height round)
          (get_elem? (w ∷ ws) (add64 height round % length (w ∷ ws))) (ground (arith, sorted))
          (at_index-Found w ws (add64 height round))

    vrf-Present : (height round : ℕ) → Present (select_proposer_vrf seeds vs height round prev)
    unfolding select_proposer_vrf
    vrf-Present height round = elim (Bool-cases (vs.total_voting_power == 0)) [
      | inl z ↦
          Found-chosen (select_proposer_vrf seeds vs height round prev)
            (get_elem? (w ∷ ws) (seeds.vrf prev height round % length (w ∷ ws)))
            (ground (arith, sorted, z)) (at_index-Found w ws (seeds.vrf prev height round))
      | inr z ↦
          Found-chosen (select_proposer_vrf seeds vs height round prev)
            (pick_or_first (seeds.vrf prev height round % vs.total_voting_power) (w ∷ ws))
            (ground (arith, sorted, z))
            (pick_or_first-Found (seeds.vrf prev height round % vs.total_voting_power) w ws)
    ]

    hybrid-Present :
        (height round : ℕ) → Present (select_proposer_hybrid seeds vs height round prev)
    unfolding select_proposer_hybrid
    hybrid-Present height round = elim (Bool-cases (round == 0)) [
      | inl z ↦
          let (v, e, k, a) = vrf-Present height round in (v, ground (arith, sorted, z, e), k, a)
      | inr z ↦
          let n = add64 (seeds.base prev height % length (w ∷ ws)) round in
          Found-chosen (select_proposer_hybrid seeds vs height round prev)
            (get_elem? (w ∷ ws) (n % length (w ∷ ws))) (ground (arith, sorted, z))
            (at_index-Found w ws n)
    ]

  -- While the set has an active validator, every mode of `SelectProposerByMode` finds, at every
  -- height and round, a proposer, who is an active validator of the set.
  pub select_proposer_by_mode-Present :
      (mode : Mode) (height round : ℕ)
      → get_active_validators vs ≢ []
      → Present (select_proposer_by_mode mode seeds vs height round prev)
  unfolding select_proposer_by_mode
  select_proposer_by_mode-Present vrf_mode height round n =
      let (w, ws, e) = sort-cons (get_active_validators vs) n in vrf-Present w ws e height round
  select_proposer_by_mode-Present hybrid_mode height round n =
      let (w, ws, e) = sort-cons (get_active_validators vs) n in hybrid-Present w ws e height round
  select_proposer_by_mode-Present roundrobin_mode height round n =
      let (w, ws, e) = sort-cons (get_active_validators vs) n in
      roundrobin-Present w ws e height round
