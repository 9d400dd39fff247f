-- ===== src/Consensus/Validators.antt =====
-- consensus/validator.go and the answers of consensus/consensus.go to `ValidateBlock`.
pub mod Promoted
pub mod Retired
use abcfe.Base.{
  ℕ, ◌+◌, ◌%◌, ◌≤◌, List, [], ◌∷◌, Option, none, some, Bool, true, false, not, ◌==◌, ◌&&◌, leb,
  if◌then◌else◌, add64, sub64, u64_mod, ◌≡◌, refl, arith,
}
use abcfe.Base.Assoc.{Dict, lookup, insert, erase, keys, values}
use abcfe.Core.Types.{Hash, Address, Signature, Bytes}
use abcfe.Core.Crypto.{Crypto, bytes_to_public_key, verify_signature}
use abcfe.Consensus.Staking.{Staker, StakerSet}

pub record Validator : Type 0 where
  pub address : Address
  pub public_key : Bytes
  pub voting_power : ℕ
  pub is_active : Bool

pub record ValidatorSet : Type 0 where
  pub validators : Dict Validator
  pub total_voting_power : ℕ

-- `NewValidatorSet`
abbrev pub new_validator_set : ValidatorSet
new_validator_set = record { validators = []; total_voting_power = 0 }

-- `ValidateBlockSignature`
unfoldable pub validate_block_signature : Crypto → Validator → Hash → Signature → Bool
validate_block_signature c v hash sig = elim (bytes_to_public_key c v.public_key) [
  | none ↦ false
  | some key ↦ verify_signature c key hash sig
]

-- `AddValidator`
unfoldable pub add_validator : ValidatorSet → Validator → ValidatorSet
add_validator vs v = record {
  validators = insert v.address v vs.validators;
  total_voting_power = add64 vs.total_voting_power v.voting_power;
}

-- `RemoveValidator`
unfoldable pub remove_validator : ValidatorSet → Address → ValidatorSet
remove_validator vs a = elim (lookup a vs.validators) [
  | none ↦ vs
  | some v ↦ record {
    validators = erase a vs.validators;
    total_voting_power = sub64 vs.total_voting_power v.voting_power;
  }
]

-- `GetValidator`
unfoldable pub get_validator : ValidatorSet → Address → Option Validator
get_validator vs a = lookup a vs.validators

abbrev pub active_validators : List Validator → List Validator
active_validators [] = []
active_validators (v ∷ vs) = if v.is_active then v ∷ active_validators vs else active_validators vs

-- `GetActiveValidators`
unfoldable pub get_active_validators : ValidatorSet → List Validator
get_active_validators vs = active_validators (values vs.validators)

-- A validator as `UpdateFromStakerSet` makes it.
abbrev pub of_staker : Staker → Validator
of_staker s = record {
  address = s.address;
  public_key = s.public_key;
  voting_power = s.amount;
  is_active = true;
}

-- The loop of `UpdateFromStakerSet`, from the set made so far.
unfoldable pub promote : ℕ → Dict Staker → ValidatorSet → ValidatorSet
promote min_stake [] vs = vs
promote min_stake ((a, s) ∷ d) vs = promote min_stake d (
    if s.is_active && leb min_stake s.amount
    then record {
      validators = insert a (of_staker s) vs.validators;
      total_voting_power = add64 vs.total_voting_power s.amount;
    }
    else vs)

-- `UpdateFromStakerSet`
unfoldable pub update_from_staker_set : StakerSet → ℕ → ValidatorSet
unfolding promote
update_from_staker_set s min_stake = promote min_stake s.stakers new_validator_set

-- The active validator at an address.
abbrev pub voter : ValidatorSet → Address → Option Validator
voter vs a = elim (lookup a vs.validators) [
  | none ↦ none
  | some v ↦ if v.is_active then some v else none
]

-- `ValidateProposerSignature` of consensus.go
unfoldable pub check_proposer_signature : Crypto → ValidatorSet → Address → Hash → Signature → Bool
check_proposer_signature c vs a hash sig = elim (voter vs a) [
  | none ↦ false
  | some v ↦ validate_block_signature c v hash sig
]

-- `IsValidProposer`, which does not look at the height
unfoldable pub check_proposer : ValidatorSet → Address → ℕ → Bool
check_proposer vs a height = elim (voter vs a) [ none ↦ false | some v ↦ true ]

-- The sum of the voting powers, without wrapping.
abbrev pub total_power : Dict Validator → ℕ
total_power [] = 0
total_power ((a, v) ∷ d) = v.voting_power + total_power d
