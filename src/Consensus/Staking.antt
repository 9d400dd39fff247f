-- ===== src/Consensus/Staking.antt =====
-- consensus/staking.go. The map is keyed by the hex text of the address, one to one with it. The
-- entries are pointers that only the map holds: changing one is storing it again.
pub mod History
use abcfe.Base.{
  ℕ, ◌+◌, ◌≤◌, ◌<◌, List, [], ◌∷◌, Option, none, some, Bool, true, false, ◌==◌, ◌&&◌, ltb,
  if◌then◌else◌, add64, sub64, u64_mod, length, Option-cases, inl, inr, ◌≡◌, arith,
}
use abcfe.Base.Assoc.{Dict, lookup, insert, values}
use abcfe.Base.Int.{ℤ, pos}
use abcfe.Core.Types.{Address, Bytes}
use abcfe.Core.Errors.{Result, ok, err, staker_missing, insufficient_stake}

pub record Staker : Type 0 where
  pub address : Address
  pub public_key : Bytes
  pub amount : ℕ
  pub start_time : ℤ
  pub end_time : ℤ
  pub is_active : Bool

pub record StakerSet : Type 0 where
  pub stakers : Dict Staker
  pub total_staked : ℕ

-- `NewStakerSet`
abbrev pub new_staker_set : StakerSet
new_staker_set = record { stakers = []; total_staked = 0 }

-- `AddStaker`, which never fails; `now` is `time.Now().Unix()`.
unfoldable pub add_staker : ℤ → StakerSet → Address → ℕ → Bytes → StakerSet
add_staker now s a amount key = elim (lookup a s.stakers) [
  | some old ↦
      let grown : Staker = record old {
        amount = add64 old.amount amount;
        public_key =
            if length old.public_key == 0 && ltb 0 (length key) then key else old.public_key;
      } in
      record { stakers = insert a grown s.stakers; total_staked = add64 s.total_staked amount }
  | none ↦
      let new : Staker = record {
        address = a;
        public_key = key;
        amount = amount;
        start_time = now;
        end_time = pos 0;
        is_active = true;
      } in
      record { stakers = insert a new s.stakers; total_staked = add64 s.total_staked amount }
]

-- `RemoveStaker`
unfoldable pub remove_staker : StakerSet → Address → ℕ → Result StakerSet
remove_staker s a amount = elim (lookup a s.stakers) [
  | none ↦ err staker_missing
  | some old ↦
      let left = sub64 old.amount amount in
      let new : Staker = record old {
        amount = left;
        is_active = if left == 0 then false else old.is_active;
      } in
      if ltb old.amount amount
      then err insufficient_stake
      else ok
          (record { stakers = insert a new s.stakers; total_staked = sub64 s.total_staked amount })
]

-- `GetStaker`
unfoldable pub get_staker : StakerSet → Address → Option Staker
get_staker s a = lookup a s.stakers

abbrev pub active_stakers : List Staker → List Staker
active_stakers [] = []
active_stakers (s ∷ ss) =
    if s.is_active && ltb 0 s.amount then s ∷ active_stakers ss else active_stakers ss

-- `GetActiveStakers`
unfoldable pub get_active_stakers : StakerSet → List Staker
get_active_stakers s = active_stakers (values s.stakers)

-- The sum of the amounts, without wrapping.
abbrev pub total_amounts : Dict Staker → ℕ
total_amounts [] = 0
total_amounts ((a, s) ∷ d) = s.amount + total_amounts d

-- The total is the sum of the amounts, and the sum fits in 64 bits.
pub record IsBalanced (s : StakerSet) : Type 0 where
  pub total : s.total_staked ≡ total_amounts s.stakers
  pub fits : total_amounts s.stakers < u64_mod

amount_of : Option Staker → ℕ
amount_of none = 0
amount_of (some s) = s.amount

total_amounts-insert :
    (a : Address) (new : Staker) (d : Dict Staker)
    → total_amounts (insert a new d) + amount_of (lookup a d) ≡ total_amounts d + new.amount
unfolding amount_of
total_amounts-insert a new [] = omega arith
total_amounts-insert a new ((b, s) ∷ d) = ground (arith, total_amounts-insert a new d)

-- What a change of one stake does: the entry and the total that it leaves.
record Restakes (s s' : StakerSet) (a : Address) : Type 0 where
  new : Staker
  entry : s'.stakers ≡ insert a new s.stakers
  moved : s.total_staked + new.amount ≡ s'.total_staked + amount_of (lookup a s.stakers)

Restakes-IsBalanced :
    (s s' : StakerSet) (a : Address)
    → IsBalanced s
    → Restakes s s' a
    → s'.total_staked < u64_mod
    → IsBalanced s'
Restakes-IsBalanced s s' a inv r lt =
    let e : s'.total_staked ≡ total_amounts s'.stakers =
      ground (arith, total_amounts-insert a r.new s.stakers, r.entry, r.moved, inv.total) in
    record { total = e; fits = ground (arith, e) }

amount_of-le : (a : Address) (d : Dict Staker) → amount_of (lookup a d) ≤ total_amounts d
unfolding amount_of
amount_of-le a [] = omega arith
amount_of-le a ((b, s) ∷ d) = ground (arith, amount_of-le a d)

add_staker-Restakes :
    (now : ℤ) (s s' : StakerSet) (a : Address) (amount : ℕ) (key : Bytes)
    → IsBalanced s
    → s.total_staked + amount < u64_mod
    → add_staker now s a amount key ≡ s'
    → Restakes s s' a × (s'.total_staked ≡ s.total_staked + amount)
unfolding add_staker amount_of
add_staker-Restakes now s s' a amount key inv fits h = elim (Option-cases (lookup a s.stakers)) [
  | inl e ↦ (
    record {
      new = record {
        address = a;
        public_key = key;
        amount = amount;
        start_time = now;
        end_time = pos 0;
        is_active = true;
      };
      entry = ground (arith, e);
      moved = ground (arith, e, inv.total, inv.fits);
    },
    ground (arith, e, inv.total, inv.fits),
  )
  | inr (old, e) ↦ (
    record {
      new = record old {
        amount = add64 old.amount amount;
        public_key =
            if length old.public_key == 0 && ltb 0 (length key) then key else old.public_key;
      };
      entry = ground (arith, e);
      moved = ground (arith, e, inv.total, inv.fits, amount_of-le a s.stakers);
    },
    ground (arith, e, inv.total, inv.fits),
  )
]

-- Staking keeps the total the sum of the stakes and adds the amount to it, when the new total fits
-- in 64 bits.
pub add_staker-IsBalanced :
    (now : ℤ) (s s' : StakerSet) (a : Address) (amount : ℕ) (key : Bytes)
    → IsBalanced s
    → s.total_staked + amount < u64_mod
    → add_staker now s a amount key ≡ s'
    → IsBalanced s' × (s'.total_staked ≡ s.total_staked + amount)
add_staker-IsBalanced now s s' a amount key inv fits h =
    let (r, e) = add_staker-Restakes now s s' a amount key inv fits h in
    (Restakes-IsBalanced s s' a inv r (omega (arith, e)), e)

remove_staker-Restakes :
    (s s' : StakerSet) (a : Address) (amount : ℕ)
    → IsBalanced s
    → remove_staker s a amount ≡ ok s'
    → Restakes s s' a × (s'.total_staked + amount ≡ s.total_staked)
unfolding remove_staker amount_of
remove_staker-Restakes s s' a amount inv h = elim (Option-cases (lookup a s.stakers)) [
  | inl e ↦ ground (arith, e)
  | inr (old, e) ↦ (
    record {
      new = record old {
        amount = sub64 old.amount amount;
        is_active = if sub64 old.amount amount == 0 then false else old.is_active;
      };
      entry = ground (arith, e);
      moved = ground (arith, e, inv.total, inv.fits, amount_of-le a s.stakers);
    },
    ground (arith, e, inv.total, inv.fits, amount_of-le a s.stakers),
  )
]

-- Withdrawing keeps the total the sum of the stakes, and takes the amount off it.
pub remove_staker-IsBalanced :
    (s s' : StakerSet) (a : Address) (amount : ℕ)
    → IsBalanced s
    → remove_staker s a amount ≡ ok s'
    → IsBalanced s' × (s'.total_staked + amount ≡ s.total_staked)
remove_staker-IsBalanced s s' a amount inv h =
    let (r, e) = remove_staker-Restakes s s' a amount inv h in
    (Restakes-IsBalanced s s' a inv r (omega (arith, e, inv.total, inv.fits)), e)
