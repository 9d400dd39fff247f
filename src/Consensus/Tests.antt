-- ===== src/Consensus/Tests.antt =====
-- The properties of consensus/, applied to four validators.
pub mod Engines
use abcfe.Base.{
  ℕ, ◌+◌, ◌*◌, ◌%◌, ◌<◌, List, [], ◌∷◌, none, some, true, false, ◌≡◌, ◌≢◌, ◌↔◌, refl, arith,
  u64_mod,
}
use abcfe.Base.Assoc.{lookup, keys}
use abcfe.Base.Int.{pos, ◌+ℤ◌}
use abcfe.Core.Types.{Address, CommitSignature, Block}
use abcfe.Core.Errors.{ok}
use abcfe.Core.Crypto.{bytes_to_public_key, public_key_to_address, verify_signature}
use abcfe.Core.Merkle.{calculate_merkle_root}
use abcfe.Core.Validate.{
  validate_prev_hash, validate_merkle_root, validate_block_hash, validate_height_continuity,
  validate_timestamp, validate_proposer, validate_proposer_signature, validate_commit,
  validate_tx_count, validate_duplicate_tx, validate_duplicate_utxo, validate_transactions,
  validate_on_top, validate_block, validate_tx_input_signature, validate_transaction,
  get_block_by_height,
}
use abcfe.Core.Chain.{add_block}
use abcfe.Core.Tests.{settings, toy, memory, first, started, owner_signature}
use abcfe.Consensus.Staking.{Staker, StakerSet, IsBalanced, add_staker, remove_staker}
use abcfe.Consensus.Staking.{new_staker_set}
use abcfe.Consensus.Staking.History.{start, added, withdrawn, Stakes-IsBalanced}
use abcfe.Consensus.Validators.{
  Validator, ValidatorSet, validate_block_signature, update_from_staker_set, get_active_validators,
  total_power, check_proposer, check_proposer_signature,
}
use abcfe.Consensus.Validators.Promoted.{promoted, update_from_staker_set-promoted}
use abcfe.Consensus.Validators.Retired.{restaked_no_validator}
use abcfe.Consensus.Votes.{
  Vote, prevote, new_vote_set, add_vote, add_votes, has_two_thirds_majority, tally, IsTally,
}
use abcfe.Consensus.Commit.{validate_commit_signatures, proposer_validator}
use abcfe.Consensus.Commit.Quorum.{
  IsWeighed, Signed, Quorum, validate_commit_signatures-Quorum, commits_share_signer,
}
use abcfe.Consensus.Commit.Blocks.{validate_block-Quorum}
use abcfe.Consensus.Selection.Present.{Present, select_proposer_by_mode-Present}
use abcfe.Consensus.Selection.{
  hybrid_mode, select_proposer_by_mode, Seeds, sort_by_address, select_proposer_vrf,
}
use abcfe.Consensus.Selection.Weighted.{Hits, power_sum, select_proposer_vrf-Hits}

abbrev stakes : ℕ → ℕ → Staker
stakes a n = record {
  address = a;
  public_key = a ∷ [];
  amount = n;
  start_time = pos 1;
  end_time = pos 0;
  is_active = true;
}

abbrev pub pool : StakerSet
pool = record {
  stakers = (3, stakes 3 2000) ∷ (8, stakes 8 1000) ∷ (5, stakes 5 900) ∷ [];
  total_staked = 3900;
}

pool-IsBalanced : IsBalanced pool
pool-IsBalanced = record { total = refl; fits = omega arith }

-- A validator stakes, stakes more and withdraws.
abbrev staked : StakerSet
staked = add_staker (pos 9) (add_staker (pos 8) new_staker_set 5 900 []) 5 100 []

abbrev after : StakerSet
after = record {
  stakers = (5, record (stakes 5 600) { public_key = []; start_time = pos 8 }) ∷ [];
  total_staked = 600;
}

after_lem : remove_staker staked 5 400 ≡ ok after
unfolding remove_staker add_staker
after_lem = refl

Stakes-IsBalanced_example : IsBalanced after × (600 + 400 ≡ 1000)
Stakes-IsBalanced_example =
    Stakes-IsBalanced after 1000 400
      (withdrawn (added (added start (pos 8) 5 900 []) (pos 9) 5 100 []) 5 400 after_lem)
      (omega arith)

update_from_staker_set-promoted_example :
    (lookup 5 (update_from_staker_set pool 1000).validators ≡ promoted 1000 (lookup 5 pool.stakers))
    × ((update_from_staker_set pool 1000).total_voting_power
        ≡ total_power (update_from_staker_set pool 1000).validators)
update_from_staker_set-promoted_example =
    update_from_staker_set-promoted pool 1000 5 (ground arith) pool-IsBalanced

abbrev pub member : ℕ → ℕ → Validator
member a n = record { address = a; public_key = a ∷ []; voting_power = n; is_active = true }

abbrev pub four : ValidatorSet
four = record {
  validators = (4, member 4 10) ∷ (3, member 3 10) ∷ (1, member 1 10) ∷ (2, member 2 10) ∷ [];
  total_voting_power = 40;
}

pub four-IsWeighed : IsWeighed four
four-IsWeighed = record { inhabited = λ e. cc; total = refl; fits = omega arith }

abbrev signs : ℕ → CommitSignature
signs a = record { validator_address = a; signature = owner_signature; timestamp = pos 0 }

abbrev pub early : List CommitSignature
early = signs 1 ∷ signs 2 ∷ signs 1 ∷ signs 3 ∷ []

abbrev late : List CommitSignature
late = signs 9 ∷ signs 4 ∷ signs 3 ∷ signs 2 ∷ []

early_lem : validate_commit_signatures toy four 70 early ≡ ok tt
unfolding validate_commit_signatures validate_block_signature bytes_to_public_key verify_signature
early_lem = refl

late_lem : validate_commit_signatures toy four 71 late ≡ ok tt
unfolding validate_commit_signatures validate_block_signature bytes_to_public_key verify_signature
late_lem = refl

commits_share_signer_example : (a : Address) × Signed toy four 70 a × Signed toy four 71 a
commits_share_signer_example =
    commits_share_signer toy four 70 71 early late four-IsWeighed early_lem late_lem

abbrev pub sealed : Block
sealed = record first { signature = owner_signature; commit_signatures = early }

sealed_lem :
    validate_block settings toy memory started.db
      (some (proposer_validator toy four))
      (pos 12)
      sealed
      true
    ≡ ok tt
unfolding started add_block validate_block get_block_by_height validate_on_top validate_prev_hash
    validate_merkle_root calculate_merkle_root validate_block_hash validate_height_continuity
    validate_timestamp ◌+ℤ◌ validate_proposer validate_proposer_signature validate_commit
    validate_tx_count validate_duplicate_tx validate_duplicate_utxo validate_transactions
    validate_transaction validate_tx_input_signature bytes_to_public_key public_key_to_address
    verify_signature proposer_validator check_proposer check_proposer_signature
    validate_commit_signatures validate_block_signature
sealed_lem = refl

validate_block-Quorum_example : Signed toy four 9001 3 × Quorum toy four 9001
validate_block-Quorum_example =
    validate_block-Quorum toy four sealed settings memory started.db (pos 12)
      (λ e. ground (arith, e)) four-IsWeighed sealed_lem

abbrev pub seeds : Seeds
seeds = record {
  vrf = λ prev height round. prev + height + round;
  base = λ prev height. prev + height;
  weighted = λ height prev. height + prev;
}

four_total : four.total_voting_power ≡ power_sum (sort_by_address (get_active_validators four))
unfolding get_active_validators
four_total = refl

select_proposer_vrf-Hits_example :
    (v : Validator) × (select_proposer_vrf seeds four 5 0 73 ≡ some v)
    × Hits (78 % 40) (sort_by_address (get_active_validators four)) v
select_proposer_vrf-Hits_example =
    select_proposer_vrf-Hits seeds four 5 0 73 four_total (omega arith) (omega arith)

abbrev emptied : StakerSet
emptied = record {
  stakers =
      (3, stakes 3 2000) ∷ (8, stakes 8 1000) ∷ (5, record (stakes 5 0) { is_active = false }) ∷ [];
  total_staked = 3000;
}

emptied_lem : remove_staker pool 5 900 ≡ ok emptied
unfolding remove_staker
emptied_lem = refl

restaked_no_validator_example :
    lookup 5 (update_from_staker_set (add_staker (pos 9) emptied 5 7000 []) 1000).validators ≡ none
restaked_no_validator_example =
    restaked_no_validator (pos 9) pool emptied 5 (stakes 5 900) 7000 [] 1000 (ground arith) refl
      (omega arith) emptied_lem

pub four_active : get_active_validators four ≢ []
unfolding get_active_validators
four_active e = cc
