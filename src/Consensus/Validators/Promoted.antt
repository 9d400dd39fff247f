-- ===== src/Consensus/Validators/Promoted.antt =====
-- Which validators `UpdateFromStakerSet` makes of the stakers.
use abcfe.Base.{
  ℕ, ◌+◌, ◌%◌, ◌≤◌, [], ◌∷◌, Option, none, some, Bool, true, false, ◌&&◌, leb, if◌then◌else◌, add64,
  u64_mod, ◌≡◌, refl, arith, NoRepeat, contains, inl, inr, Bool-cases,
}
use abcfe.Base.Assoc.{Dict, lookup, insert, keys, lookup-insert}
use abcfe.Core.Types.{Address}
use abcfe.Consensus.Staking.{Staker, StakerSet, IsBalanced, total_amounts}
use abcfe.Consensus.Validators.{
  Validator, ValidatorSet, promote, of_staker, update_from_staker_set, new_validator_set,
  total_power,
}

-- A staker who is active and has the minimum stake is a validator with it.
abbrev pub promoted : ℕ → Option Staker → Option Validator
promoted min_stake none = none
promoted min_stake (some s) =
    if s.is_active && leb min_stake s.amount then some (of_staker s) else none

abbrev or_old : Option Validator → Option Validator → Option Validator
or_old none old = old
or_old (some v) old = some v

power_at : Option Validator → ℕ
power_at none = 0
power_at (some v) = v.voting_power

lookup-none : (a : Address) (d : Dict Staker) → contains a (keys d) ≡ false → lookup a d ≡ none
lookup-none a [] h = refl
lookup-none a ((b, s) ∷ d) h = ground (arith, lookup-none a d)

total_power-insert :
    (a : Address) (new : Validator) (d : Dict Validator)
    → total_power (insert a new d) + power_at (lookup a d) ≡ total_power d + new.voting_power
unfolding power_at
total_power-insert a new [] = omega arith
total_power-insert a new ((b, s) ∷ d) = ground (arith, total_power-insert a new d)

abbrev enlisted : Address → Staker → ValidatorSet → ValidatorSet
enlisted a s vs = record {
  validators = insert a (of_staker s) vs.validators;
  total_voting_power = add64 vs.total_voting_power s.amount;
}

abbrev eligible : ℕ → Staker → Bool
eligible min_stake s = s.is_active && leb min_stake s.amount

pub promote-lookup :
    (min_stake : ℕ) (d : Dict Staker) (vs : ValidatorSet) (a : Address)
    → NoRepeat (keys d)
    → lookup a (promote min_stake d vs).validators
      ≡ or_old (promoted min_stake (lookup a d)) (lookup a vs.validators)
unfolding promote
promote-lookup min_stake [] vs a h = refl
promote-lookup min_stake ((b, s) ∷ d) vs a h = elim (Bool-cases (eligible min_stake s)) [
  | inl e ↦ ground (
    arith,
    e,
    promote-lookup min_stake d (enlisted b s vs) a h.1,
    lookup-insert b a (of_staker s) vs.validators,
    lookup-none b d h.0,
  )
  | inr e ↦ ground (arith, e, promote-lookup min_stake d vs a h.1, lookup-none b d h.0)
]

promote-total :
    (min_stake : ℕ) (d : Dict Staker) (vs : ValidatorSet)
    → NoRepeat (keys d)
    → ((a : Address) → contains a (keys d) ≡ true → lookup a vs.validators ≡ none)
    → vs.total_voting_power ≡ total_power vs.validators % u64_mod
    → ((promote min_stake d vs).total_voting_power
        ≡ total_power (promote min_stake d vs).validators % u64_mod)
      × (total_power (promote min_stake d vs).validators
          ≤ total_power vs.validators + total_amounts d)
unfolding promote power_at
promote-total min_stake [] vs h fresh t = (t, omega arith)
promote-total min_stake ((b, s) ∷ d) vs h fresh t = elim (Bool-cases (eligible min_stake s)) [
  | inl e ↦
      let grown = total_power-insert b (of_staker s) vs.validators in
      let unseen : lookup b vs.validators ≡ none = fresh b (ground arith) in
      let rest =
        promote-total min_stake d (enlisted b s vs) h.1
          (λ a k. ground (arith, k, h.0, fresh a, lookup-insert b a (of_staker s) vs.validators))
          (ground (arith, grown, unseen, t)) in
      ground (arith, e, grown, unseen, rest)
  | inr e ↦
      let rest = promote-total min_stake d vs h.1 (λ a k. fresh a (ground (arith, k))) t in
      ground (arith, e, rest)
]

-- Of a balanced set of stakers with one entry for each address, the validator at an address is the
-- staker there with his stake, if he is active and has the minimum, and the recorded power is the
-- sum of the validators'.
pub update_from_staker_set-promoted :
    (s : StakerSet) (min_stake : ℕ) (a : Address)
    → NoRepeat (keys s.stakers)
    → IsBalanced s
    → (lookup a (update_from_staker_set s min_stake).validators
        ≡ promoted min_stake (lookup a s.stakers))
      × ((update_from_staker_set s min_stake).total_voting_power
          ≡ total_power (update_from_staker_set s min_stake).validators)
unfolding update_from_staker_set
update_from_staker_set-promoted s min_stake a once inv =
    let e = promote-lookup min_stake s.stakers new_validator_set a once in
    let t = promote-total min_stake s.stakers new_validator_set once (λ b k. refl) refl in
    (ground (arith, e), ground (arith, t, inv.fits))
