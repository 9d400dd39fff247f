-- ===== src/Consensus/Selection/Weighted.antt =====
-- The pick by cumulative power in `SelectProposerVRF` (consensus/selection.go).
use abcfe.Base.{
  ℕ, ◌+◌, ◌-◌, ◌%◌, ◌≤◌, ◌<◌, List, [], ◌∷◌, ◌++◌, some, ltb, add64, u64_mod, ◌≡◌, refl, ap, arith,
  inl, inr, Bool-cases,
}
use native.Mathlib.Nat.{mod-lt}
use abcfe.Core.Types.{Hash}
use abcfe.Consensus.Validators.{Validator, ValidatorSet, get_active_validators}
use abcfe.Consensus.Selection.{Seeds, sort_by_address, pick, select_proposer_vrf}

abbrev pub power_sum : List Validator → ℕ
power_sum [] = 0
power_sum (v ∷ vs) = v.voting_power + power_sum vs

-- The target falls into the stretch of this validator, which starts where the earlier ones end.
pub record Hits (target : ℕ) (vs : List Validator) (v : Validator) : Type 0 where
  pub before : List Validator
  pub after : List Validator
  pub here : vs ≡ before ++ v ∷ after
  pub above : power_sum before ≤ target
  pub below : target < power_sum before + v.voting_power

pick-Hits :
    (target cumulative : ℕ) (vs : List Validator)
    → cumulative + power_sum vs < u64_mod
    → target < power_sum vs
    → (v : Validator) × (pick (cumulative + target) cumulative vs ≡ some v) × Hits target vs v
unfolding pick
pick-Hits target cumulative [] fits lt = absurd (omega arith)
pick-Hits target cumulative (w ∷ ws) fits lt = elim (Bool-cases (ltb target w.voting_power)) [
  | inl t ↦ (
    w,
    ground (arith, t),
    record { before = []; after = ws; here = refl; above = omega arith; below = ground (arith, t) },
  )
  | inr t ↦
      let later : w.voting_power ≤ target = ground (arith, t) in
      let (v, e, h) =
        pick-Hits (target - w.voting_power) (cumulative + w.voting_power) ws (omega arith)
          (omega (arith, later)) in
      let shift : (cumulative + w.voting_power) + (target - w.voting_power) ≡ cumulative + target =
        omega (arith, later) in
      let sum : add64 cumulative w.voting_power ≡ cumulative + w.voting_power = omega arith in
      (
        v,
        ground (arith, t, later, sum, shift, e),
        record {
          before = w ∷ h.before;
          after = h.after;
          here = ap (λ l. w ∷ l) h.here;
          above = omega (arith, later, h.above);
          below = omega (arith, later, h.below);
        },
      )
]

inhabited :
    (l : List Validator)
    → 0 < power_sum l
    → (w : Validator) × (rest : List Validator) × (l ≡ w ∷ rest)
inhabited [] h = absurd (omega arith)
inhabited (w ∷ rest) h = (w, rest, refl)

-- When the recorded power is that of the active validators and neither 0 nor too large for 64 bits,
-- `SelectProposerVRF` picks the validator into whose stretch the seed falls, modulo the power; the
-- stretches follow each other in the order of the addresses and are as long as the powers.
pub select_proposer_vrf-Hits :
    (seeds : Seeds) (vs : ValidatorSet) (height round : ℕ) (prev : Hash)
    → vs.total_voting_power ≡ power_sum (sort_by_address (get_active_validators vs))
    → 0 < vs.total_voting_power
    → vs.total_voting_power < u64_mod
    → (v : Validator) × (select_proposer_vrf seeds vs height round prev ≡ some v)
      × Hits
          (seeds.vrf prev height round % vs.total_voting_power)
          (sort_by_address (get_active_validators vs))
          v
unfolding select_proposer_vrf
select_proposer_vrf-Hits seeds vs height round prev total pos fits =
    let l = sort_by_address (get_active_validators vs) in
    let target = seeds.vrf prev height round % vs.total_voting_power in
    let lt = mod-lt (seeds.vrf prev height round) pos in
    let (v, e, h) = pick-Hits target 0 l (omega (arith, total)) (omega (arith, total, lt)) in
    let (w, rest, e') = inhabited l (omega (arith, total)) in (v, ground (arith, pos, e', e), h)
