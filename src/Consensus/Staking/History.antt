-- ===== src/Consensus/Staking/History.antt =====
-- The stakes of consensus/staking.go after any number of operations.
use abcfe.Base.{ℕ, ◌+◌, ◌<◌, u64_mod, ◌≡◌, refl, arith}
use abcfe.Base.Int.{ℤ}
use abcfe.Core.Types.{Address, Bytes}
use abcfe.Core.Errors.{ok}
use abcfe.Consensus.Staking.{
  StakerSet, new_staker_set, add_staker, remove_staker, IsBalanced, add_staker-IsBalanced,
  remove_staker-IsBalanced,
}

-- A set that came about from the empty one, with all that was ever staked and all that was withdrawn.
pub data Stakes : StakerSet → ℕ → ℕ → Type 0 where
  start : Stakes new_staker_set 0 0
  added :
      {s : StakerSet} {n m : ℕ}
      → Stakes s n m
      → (now : ℤ) (a : Address) (amount : ℕ) (key : Bytes)
      → Stakes (add_staker now s a amount key) (n + amount) m
  withdrawn :
      {s s' : StakerSet} {n m : ℕ}
      → Stakes s n m
      → (a : Address) (amount : ℕ) → remove_staker s a amount ≡ ok s'
      → Stakes s' n (m + amount)

-- In whatever order stakes are added and withdrawn, the total of the set is the sum of its stakes,
-- and with all that was withdrawn it is all that was staked, where that is below 2^64.
pub Stakes-IsBalanced :
    (s : StakerSet) (n m : ℕ) → Stakes s n m → n < u64_mod → IsBalanced s × (s.total_staked + m ≡ n)
Stakes-IsBalanced s n m start lt = (record { total = refl; fits = omega arith }, omega arith)
Stakes-IsBalanced s n m (added {s = s1} {n = n1} r now a amount key) lt =
    let (b, e) = Stakes-IsBalanced s1 n1 m r (omega (arith, lt)) in
    let (b', e') = add_staker-IsBalanced now s1 s a amount key b (omega (arith, e, lt)) refl in
    (b', omega (arith, e, e'))
Stakes-IsBalanced s n m (withdrawn {s = s1} {m = m1} r a amount h) lt =
    let (b, e) = Stakes-IsBalanced s1 n m1 r lt in
    let (b', e') = remove_staker-IsBalanced s1 s a amount b h in (b', omega (arith, e, e'))
