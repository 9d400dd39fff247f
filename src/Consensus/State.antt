-- ===== src/Consensus/State.antt =====
-- The `Consensus` of consensus/consensus.go: the sets, the height, the round and the phase. The two
-- sets are stored under a key each; a store that fails leaves what was stored before.
use abcfe.Base.{
  ℕ, ◌+◌, ◌%◌, ◌^◌, List, [], ◌∷◌, Option, none, some, Bool, true, false, ◌==◌, if◌then◌else◌,
  add64,
}
use abcfe.Base.Assoc.{lookup, insert}
use abcfe.Base.Int.{ℤ}
use abcfe.Core.Types.{Address, Bytes}
use abcfe.Core.Errors.{
  Result, ok, err, or_fail, ◌>>=◌, write_failed, bad_system_address, bad_public_key,
}
use abcfe.Core.Genesis.{Hex, string_to_address}
use abcfe.Consensus.Staking.{StakerSet, new_staker_set, add_staker, remove_staker}
use abcfe.Consensus.Validators.{Validator, ValidatorSet, new_validator_set, update_from_staker_set}
use abcfe.Consensus.Selection.{Mode, select_proposer}
use abcfe.Core.Validate.{Check}

pub data Phase : Type 0 where
  idle proposing prevoting precommitting committing : Phase

-- What is stored of the two sets.
pub record Stored : Type 0 where
  pub staker_set : Option StakerSet
  pub validator_set : Option ValidatorSet

-- `LocalValidator` and `LocalProposer` are set together, so `local` stands for both; the private key
-- is part of the signing that a step is given.
pub record Consensus : Type 0 where
  pub phase : Phase
  pub current_height : ℕ  -- uint64
  pub current_round : ℕ  -- uint32
  pub staker_set : StakerSet
  pub validator_set : ValidatorSet
  pub local : Option Validator
  pub mode : Mode
  pub stored : Stored

abbrev pub min_stake_amount : ℕ
min_stake_amount = 1000

-- `LoadStakerSet` and `LoadValidatorSet` of a database that answers.
unfoldable pub load_staker_set : Stored → StakerSet
load_staker_set s = elim s.staker_set [ none ↦ new_staker_set | some x ↦ x ]

unfoldable pub load_validator_set : Stored → ValidatorSet
load_validator_set s = elim s.validator_set [ none ↦ new_validator_set | some x ↦ x ]

-- An entry of the list in the configuration, in hex text.
pub record ValidatorConfig : Type 0 where
  pub address : Bytes
  pub public_key : Bytes
  pub voting_power : ℕ

-- The key of an entry, which may be left out.
abbrev pub decode_key : Hex → Bytes → Option Bytes
decode_key hex [] = some []
decode_key hex (b ∷ bs) = hex.decode (b ∷ bs)

-- The loop of `loadGenesisValidators`, from the set made so far.
unfoldable pub add_genesis_validators :
    Hex → List ValidatorConfig → ValidatorSet → Result ValidatorSet
unfolding string_to_address
add_genesis_validators hex [] vs = ok vs
add_genesis_validators hex (v ∷ configs) vs = do
  a ← or_fail (string_to_address hex v.address) bad_system_address
  key ← or_fail (decode_key hex v.public_key) bad_public_key
  let validator : Validator = record {
    address = a;
    public_key = key;
    voting_power = v.voting_power;
    is_active = true;
  }
  add_genesis_validators hex configs (record {
    validators = insert a validator vs.validators;
    total_voting_power = add64 vs.total_voting_power v.voting_power;
  })

-- `loadGenesisValidators`
unfoldable pub load_genesis_validators : Hex → List ValidatorConfig → Result ValidatorSet
unfolding add_genesis_validators
load_genesis_validators hex configs = add_genesis_validators hex configs new_validator_set

-- `NewConsensus`
unfoldable pub new_consensus : Hex → Mode → List ValidatorConfig → Stored → Result Consensus
unfolding load_staker_set load_genesis_validators
new_consensus hex mode configs stored = do
  let stakers = load_staker_set stored
  vs ← elim configs [
    | [] ↦ ok (update_from_staker_set stakers min_stake_amount)
    | v ∷ rest ↦ load_genesis_validators hex (v ∷ rest)
  ]
  ok (record {
    phase = idle;
    current_height = 0;
    current_round = 0;
    staker_set = stakers;
    validator_set = vs;
    local = none;
    mode = mode;
    stored = stored;
  })

-- `RegisterValidator`
unfoldable pub register_validator : Consensus → Address → Bytes → Consensus
register_validator con a key =
    let power : ℕ = elim (lookup a con.validator_set.validators) [
      | none ↦ 0
      | some v ↦ v.voting_power
    ] in
    record con {
      local =
          some (record { address = a; public_key = key; voting_power = power; is_active = true });
    }

-- The answers of the database to the two puts of `Stake` and `Unstake`.
pub record Puts : Type 0 where
  pub stakers : Bool
  pub validators : Bool

-- `SaveStakerSet` and then `SaveValidatorSet`, which is left out when the first fails.
unfoldable pub save_sets : Puts → Consensus → Consensus × Check
save_sets puts con =
    let half : Stored = record (con.stored) { staker_set = some con.staker_set } in
    if puts.stakers
    then (if puts.validators
        then (record con { stored = record half { validator_set = some con.validator_set } }, ok tt)
        else (record con { stored = half }, err write_failed))
    else (con, err write_failed)

-- The sets after a change of the stakers.
unfoldable pub restake : Consensus → StakerSet → Consensus
restake con s = record con {
  staker_set = s;
  validator_set = update_from_staker_set s min_stake_amount;
}

-- `Stake`
unfoldable pub stake : ℤ → Puts → Consensus → Address → ℕ → Bytes → Consensus × Check
unfolding save_sets restake
stake now puts con a amount key =
    save_sets puts (restake con (add_staker now con.staker_set a amount key))

-- `Unstake`
unfoldable pub unstake : Puts → Consensus → Address → ℕ → Consensus × Check
unfolding save_sets restake
unstake puts con a amount = elim (remove_staker con.staker_set a amount) [
  | err e ↦ (con, err e)
  | ok s ↦ save_sets puts (restake con s)
]

-- `UpdateHeight`
unfoldable pub update_height : Consensus → ℕ → Consensus
update_height con height = record con { current_height = height; current_round = 0; phase = idle }

-- `IncrementRound`, on 32 bits
unfoldable pub increment_round : Consensus → Consensus
increment_round con = record con { current_round = (con.current_round + 1) % 2 ^ 32 }

-- `GetCurrentProposer`
unfoldable pub get_current_proposer : Consensus → Option Validator
get_current_proposer con = select_proposer con.validator_set con.current_height con.current_round

-- `IsLocalProposer`
unfoldable pub is_local_proposer : Consensus → Bool
unfolding get_current_proposer
is_local_proposer con = elim con.local [
  | none ↦ false
  | some l ↦ elim (get_current_proposer con) [ none ↦ false | some p ↦ p.address == l.address ]
]
