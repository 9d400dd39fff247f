-- ===== src/Consensus/Tests/Engines.antt =====
-- The properties of the engine, applied to one of four validators that waits for block 1.
use abcfe.Core.Store.{put_all}
use abcfe.Core.Validate.{
  validate_tx_count, validate_duplicate_tx, validate_duplicate_utxo, validate_transactions,
  validate_transaction, validate_tx_input_signature,
}
use abcfe.Core.Crypto.{public_key_to_address}
use abcfe.Core.Tests.Blocks.{started-IsIndexed}
use abcfe.Consensus.Engine.Commits.{IsDeciding, IsCommitted, handle_vote-commits}
use abcfe.Base.{ℕ, [], ◌∷◌, none, some, true, false, ◌≡◌, refl, arith}
use abcfe.Base.Int.{pos, ◌+ℤ◌}
use abcfe.Core.Types.{Hash, Block}
use abcfe.Core.Errors.{ok, err, commit_rejected}
use abcfe.Core.Crypto.{bytes_to_public_key, verify_signature}
use abcfe.Core.Store.{Key, Read}
use abcfe.Core.Merkle.{calculate_merkle_root}
use abcfe.Core.Validate.{
  validate_prev_hash, validate_merkle_root, validate_block_hash, validate_height_continuity,
  validate_timestamp, validate_proposer, validate_proposer_signature, validate_commit,
  validate_on_top, validate_block, get_block_by_height, validate_genesis_block,
}
use abcfe.Core.Chain.{Chain, add_block}
use abcfe.Core.Tests.{settings, toy, memory, genesis, first, started, owner_signature}
use abcfe.Consensus.Validators.{
  validate_block_signature, get_active_validators, check_proposer, check_proposer_signature,
}
use abcfe.Consensus.Votes.{
  Vote, VoteSet, VoteType, prevote, precommit, new_vote_set, add_vote, add_votes,
  has_two_thirds_majority,
}
use abcfe.Consensus.Commit.{validate_commit_signatures, proposer_validator}
use abcfe.Consensus.Selection.{roundrobin_mode, select_proposer, select_proposer_by_mode}
use abcfe.Consensus.State.{prevoting}
use abcfe.Consensus.Engine.{
  Engine, Env, seal, selection_hash, proposer_at, commit_block_with_signatures,
}
use abcfe.Consensus.Engine.Handlers.{handle_proposal, handle_vote, run_round}
use abcfe.Consensus.Engine.Stalls.{
  IsWaiting, commit_block_with_signatures-stalls, handle_proposal-genesis,
}
use abcfe.Consensus.Tests.{pool, member, four, four_active, seeds, sealed}

abbrev pub Db : Type 0
Db = Key → Read

abbrev pub votes_at : VoteType → Hash → ℕ → Vote
votes_at type hash a = record {
  height = 1;
  round = 1;
  vote_type = type;
  block_hash = hash;
  voter_id = a;
  signature = owner_signature;
  timestamp = pos 11;
}

-- Two votes of four, of equal power.
abbrev two_of : VoteType → VoteSet
two_of type =
    add_votes (λ a. 10) (new_vote_set 1 1 type) (votes_at type 9001 1 ∷ votes_at type 9001 2 ∷ [])

abbrev pub waits : Engine Db
waits = record {
  chain = started;
  consensus = record {
    phase = prevoting;
    current_height = 1;
    current_round = 1;
    staker_set = pool;
    validator_set = four;
    local = some (member 1 10);
    mode = roundrobin_mode;
    stored = record { staker_set = none; validator_set = none };
  };
  has_p2p = true;
  prevotes = some (two_of prevote);
  precommits = some (two_of precommit);
  proposed_block = some sealed;
  round_timer = some (1, 1);
  consecutive_timeouts = 0;
  last_block_time = 0;
  casts = [];
  sent = [];
}

abbrev pub env : Env Db
env = record {
  now = pos 12;
  now_ms = 12000;
  sign = λ h. some owner_signature;
  delivered = true;
  sync = λ ch. ch;
}

started_lem : started.latest_height ≡ 0
unfolding started add_block
started_lem = refl

waits-IsWaiting : IsWaiting settings toy memory seeds waits
unfolding new_vote_set add_votes add_vote started add_block
waits-IsWaiting = record { height = refl; proposed = refl; votes = refl; active = four_active }

-- Two signatures are too few.
rejected_lem :
    validate_block settings toy memory started.db
      (some (proposer_validator toy four))
      (pos 12)
      (seal (some (two_of precommit)) sealed)
      true
    ≡ err commit_rejected
unfolding started add_block validate_block get_block_by_height validate_on_top validate_prev_hash
    validate_merkle_root calculate_merkle_root validate_block_hash validate_height_continuity
    validate_timestamp ◌+ℤ◌ validate_proposer validate_proposer_signature validate_commit
    bytes_to_public_key verify_signature proposer_validator check_proposer check_proposer_signature
    validate_commit_signatures validate_block_signature new_vote_set add_votes add_vote
rejected_lem = refl

commit_block_with_signatures-stalls_example :
    ((commit_block_with_signatures settings toy memory seeds env sealed waits).round_timer ≡ none)
    × (run_round settings toy memory seeds
          (record env { now_ms = 99000 })
          (commit_block_with_signatures settings toy memory seeds env sealed waits)
        ≡ commit_block_with_signatures settings toy memory seeds env sealed waits)
commit_block_with_signatures-stalls_example =
    commit_block_with_signatures-stalls settings toy memory seeds env
      (record env { now_ms = 99000 }) sealed waits commit_rejected waits-IsWaiting
      (ground (arith, started_lem)) rejected_lem

-- A node that has added block 1.
abbrev ahead : Engine Db
ahead = record waits { chain = (add_block memory started first).0 }

-- A block of height 0 by the proposer of round 2.
abbrev zeroth : Block
zeroth = record genesis { proposer = 4 }

abbrev reset : Chain Db
reset = (add_block memory ahead.chain (seal (some (two_of precommit)) zeroth)).0

reset_lem : add_block memory ahead.chain (seal (some (two_of precommit)) zeroth) ≡ (reset, ok tt)
unfolding started add_block new_vote_set add_votes add_vote
reset_lem = refl

turn_lem : proposer_at settings toy memory seeds waits 1 2 ≡ some (member 4 10)
unfolding select_proposer_by_mode select_proposer get_active_validators selection_hash started
    add_block
turn_lem = refl

zeroth_lem : validate_genesis_block toy zeroth ≡ ok tt
unfolding validate_genesis_block validate_merkle_root validate_block_hash calculate_merkle_root
zeroth_lem = refl

handle_proposal-genesis_example :
    ((handle_proposal settings toy memory seeds env 1 2 9000 zeroth waits).proposed_block
      ≡ some zeroth)
    × ((commit_block_with_signatures settings toy memory seeds env zeroth ahead).chain.latest_height
        ≡ 0)
handle_proposal-genesis_example =
    handle_proposal-genesis settings toy memory seeds env 1 2 9000 zeroth waits ahead (member 4 10)
      reset (ground (arith, started_lem)) (omega arith) turn_lem refl refl zeroth_lem reset_lem

proposed_lem :
    validate_block settings toy memory started.db
      (some (proposer_validator toy four))
      (pos 12)
      sealed
      false
    ≡ ok tt
unfolding started add_block validate_block get_block_by_height validate_on_top validate_prev_hash
    validate_merkle_root calculate_merkle_root validate_block_hash validate_height_continuity
    validate_timestamp ◌+ℤ◌ validate_proposer validate_proposer_signature validate_commit
    validate_tx_count validate_duplicate_tx validate_duplicate_utxo validate_transactions
    validate_transaction validate_tx_input_signature bytes_to_public_key public_key_to_address
    verify_signature proposer_validator check_proposer check_proposer_signature
    validate_block_signature
proposed_lem = refl

signed_block_lem : (a : ℕ) → validate_block_signature toy (member a 10) 9001 owner_signature ≡ true
unfolding validate_block_signature bytes_to_public_key verify_signature
signed_block_lem a = refl

waits-IsDeciding : IsDeciding settings toy memory seeds waits (two_of precommit) sealed
unfolding new_vote_set add_votes add_vote started add_block
waits-IsDeciding = record {
  precommits = refl;
  proposed = refl;
  next = refl;
  fits = omega arith;
  tally = record {
    for = (refl, refl, refl);
    once = (refl, (refl, tt));
    own = (refl, refl, refl, refl, (refl, refl, refl, refl, tt));
    sum = refl;
  };
  endorsed = (
    (member 1 10, refl, refl, signed_block_lem 1),
    ((member 2 10, refl, refl, signed_block_lem 2), tt),
  );
}

third_lem :
    has_two_thirds_majority (add_vote (two_of precommit) (votes_at precommit 9001 4) 10).0 40 ≡ true
unfolding has_two_thirds_majority new_vote_set add_votes add_vote
third_lem = refl

-- The third of four precommits.
handle_vote-commits_example :
    IsCommitted settings toy memory seeds sealed
      (handle_vote settings toy memory seeds env (votes_at precommit 9001 4) waits)
handle_vote-commits_example =
    handle_vote-commits settings toy memory seeds (λ db b. ((λ k. put_all b k (db k)), refl)) env
      waits (two_of precommit) sealed (votes_at precommit 9001 4) (member 4 10) started-IsIndexed
      waits-IsDeciding proposed_lem (refl, refl, refl, refl) refl (signed_block_lem 4) third_lem
