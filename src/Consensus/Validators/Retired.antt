-- ===== src/Consensus/Validators/Retired.antt =====
-- A staker who withdraws everything, and stakes again: consensus/staking.go and
-- `UpdateFromStakerSet`.
use abcfe.Base.{
  ℕ, none, some, false, ◌==◌, ◌&&◌, ltb, if◌then◌else◌, ◌≡◌, refl, sym, arith, NoRepeat, u64_mod,
  ◌<◌, subst, add64, length,
}
use abcfe.Base.Assoc.{lookup, insert, keys, lookup-insert, insert-NoRepeat}
use abcfe.Base.Int.{ℤ}
use abcfe.Core.Types.{Address, Bytes}
use abcfe.Core.Errors.{ok}
use abcfe.Consensus.Staking.{Staker, StakerSet, add_staker, remove_staker}
use abcfe.Consensus.Validators.{update_from_staker_set, new_validator_set}
use abcfe.Consensus.Validators.Promoted.{promote-lookup}

-- The entry at the address is there and is not active.
record Inactive (s : StakerSet) (a : Address) : Type 0 where
  entry : Staker
  stored : lookup a s.stakers ≡ some entry
  off : entry.is_active ≡ false
  once : NoRepeat (keys s.stakers)

remove_staker-Inactive :
    (s s' : StakerSet) (a : Address) (old : Staker)
    → NoRepeat (keys s.stakers)
    → lookup a s.stakers ≡ some old
    → old.amount < u64_mod
    → remove_staker s a old.amount ≡ ok s'
    → Inactive s' a
unfolding remove_staker
remove_staker-Inactive s s' a old once l lt h =
    let new : Staker = record old { amount = 0; is_active = false } in
    let e : s'.stakers ≡ insert a new s.stakers = ground (arith, h, l, lt) in
    record {
      entry = new;
      stored = ground (arith, e, lookup-insert a a new s.stakers);
      off = refl;
      once = subst (λ d. NoRepeat (keys d)) (sym e) (insert-NoRepeat a new s.stakers once);
    }

add_staker-Inactive :
    (now : ℤ) (s s' : StakerSet) (a : Address) (n : ℕ) (key : Bytes)
    → add_staker now s a n key ≡ s'
    → Inactive s a
    → Inactive s' a
unfolding add_staker
add_staker-Inactive now s s' a n key h i =
    let old = i.entry in
    let new : Staker = record old {
      amount = add64 old.amount n;
      public_key = if length old.public_key == 0 && ltb 0 (length key) then key else old.public_key;
    } in
    let e : s'.stakers ≡ insert a new s.stakers = ground (arith, h, i.stored) in
    record {
      entry = new;
      stored = ground (arith, e, lookup-insert a a new s.stakers);
      off = i.off;
      once = subst (λ d. NoRepeat (keys d)) (sym e) (insert-NoRepeat a new s.stakers i.once);
    }

-- In a set with one entry for each address, a staker who withdraws his whole stake, a 64-bit
-- number, is not a validator again, however much he stakes afterwards.
pub restaked_no_validator :
    (now : ℤ) (s s' : StakerSet) (a : Address) (old : Staker) (n : ℕ) (key : Bytes) (min_stake : ℕ)
    → NoRepeat (keys s.stakers)
    → lookup a s.stakers ≡ some old
    → old.amount < u64_mod
    → remove_staker s a old.amount ≡ ok s'
    → lookup a (update_from_staker_set (add_staker now s' a n key) min_stake).validators ≡ none
unfolding update_from_staker_set
restaked_no_validator now s s' a old n key min_stake once l lt h =
    let again = add_staker now s' a n key in
    let i =
      add_staker-Inactive now s' again a n key refl
        (remove_staker-Inactive s s' a old once l lt h) in
    let e = promote-lookup min_stake again.stakers new_validator_set a i.once in
    ground (arith, e, i.stored, i.off)
