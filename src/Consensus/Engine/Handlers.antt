-- ===== src/Consensus/Engine/Handlers.antt =====
-- The handlers of consensus/engine.go: the round, the proposal, the vote and the goroutines of an own
-- vote.
use abcfe.Base.{
  ℕ, ◌+◌, [], ◌∷◌, none, some, Bool, false, not, ◌==◌, ◌&&◌, ◌||◌, ltb, leb, if◌then◌else◌, add64,
}
use abcfe.Core.Types.{Hash, Address, Block, Config}
use abcfe.Core.Errors.{ok, err}
use abcfe.Core.Crypto.{Crypto}
use abcfe.Core.Store.{LevelDb}
use abcfe.Core.Validate.{validate_block}
use abcfe.Consensus.Validators.{
  Validator, validate_block_signature, get_validator, get_active_validators,
}
use abcfe.Consensus.Votes.{Vote, VoteType, prevote, precommit, add_vote, has_two_thirds_majority}
use abcfe.Consensus.Commit.{proposer_validator}
use abcfe.Consensus.Selection.{Seeds}
use abcfe.Consensus.State.{prevoting, Consensus}
use abcfe.Consensus.Engine.{
  Message, Cast, Engine, Env, block_interval_ms, with_phase, send, at_round, new_votes,
  start_round_timer, cast_vote, end_prevoting, proposer_at, produce_block_solo, propose_block,
  commit_block_with_signatures,
}

-- The local validator is this one.
abbrev pub is_local : Consensus → Validator → Bool
is_local con p = elim con.local [ none ↦ false | some l ↦ p.address == l.address ]

module _ {Db : Type 0} where
  -- The proposal of the block in hand is sent, or sending it fails.
  abbrev pub announce : Block → Address → Engine Db → Engine Db
  announce blk a e =
      send
        (Message.proposal e.consensus.current_height e.consensus.current_round blk.header.hash blk a
          blk.signature)
        e

  -- `broadcastProposal` and `broadcastProposalInternal`. Only the first moves to the next phase and
  -- starts the timer.
  unfoldable pub broadcast_proposal : Env Db → Engine Db → Engine Db
  unfolding start_round_timer cast_vote
  broadcast_proposal env e = elim e.proposed_block [
    | none ↦ e
    | some blk ↦ elim e.consensus.local [
      | none ↦ e
      | some l ↦
          let e' = new_votes e.consensus.current_height e.consensus.current_round e in
          if not e.has_p2p
          then e
          else if not env.delivered
          then e'
          else cast_vote prevote blk.header.hash
              (start_round_timer (with_phase prevoting (announce blk l.address e')))
    ]
  ]

  unfoldable pub broadcast_proposal_internal : Env Db → Engine Db → Engine Db
  unfolding cast_vote
  broadcast_proposal_internal env e = elim e.proposed_block [
    | none ↦ e
    | some blk ↦ elim e.consensus.local [
      | none ↦ e
      | some l ↦
          let e' = new_votes e.consensus.current_height e.consensus.current_round e in
          if not e.has_p2p
          then e
          else if not env.delivered
          then e'
          else cast_vote prevote blk.header.hash (announce blk l.address e')
    ]
  ]

  -- There is a proposed block of this height.
  abbrev pub has_proposed : Engine Db → ℕ → Bool
  has_proposed e height = elim e.proposed_block [
    | none ↦ false
    | some b ↦ b.header.height == height
  ]

  -- There are prevotes of this height.
  abbrev pub has_prevotes : Engine Db → ℕ → Bool
  has_prevotes e height = elim e.prevotes [ none ↦ false | some v ↦ v.height == height ]

  -- A prevote of `HandleVote`: with the majority, a precommit for the hash of this vote is cast.
  unfoldable pub receive_prevote : Vote → ℕ → Engine Db → Engine Db
  unfolding add_vote has_two_thirds_majority cast_vote
  receive_prevote v power e = elim e.prevotes [
    | none ↦ e
    | some vs ↦
        let vs' = (add_vote vs v power).0 in
        let e' : Engine Db = record e { prevotes = some vs' } in
        if has_two_thirds_majority vs' e.consensus.validator_set.total_voting_power
        then cast_vote precommit v.block_hash (with_phase (end_prevoting e.consensus.phase) e')
        else e'
  ]

  -- The own prevote, once it is signed: with the majority, `castVoteInternal` is started.
  unfoldable pub count_own_prevote : Vote → ℕ → ℕ → Engine Db → Engine Db
  unfolding add_vote has_two_thirds_majority
  count_own_prevote v power total e = elim e.prevotes [
    | none ↦ e
    | some vs ↦
        let vs' = (add_vote vs v power).0 in
        let e' : Engine Db = record e { prevotes = some vs' } in
        if has_two_thirds_majority vs' total
        then record (with_phase (end_prevoting e.consensus.phase) e') {
          casts = Cast.cast_internal v.block_hash v.height v.round ∷ e.casts;
        }
        else e'
  ]

  -- The vote is sent to the peers; an error is only logged.
  abbrev pub send_vote : Env Db → Vote → Engine Db → Engine Db
  send_vote env v e = if e.has_p2p && env.delivered then send (Message.vote v) e else e

  abbrev pub own_vote : Env Db → VoteType → Hash → ℕ → ℕ → Address → Vote
  own_vote env type hash height round a = record {
    height = height;
    round = round;
    vote_type = type;
    block_hash = hash;
    voter_id = a;
    signature = elim (env.sign hash) [ none ↦ 0 | some s ↦ s ];
    timestamp = env.now;
  }

module _ (cfg : Config) (c : Crypto) (ldb : LevelDb) (seeds : Seeds) where
  open ldb use {Db}

  -- The part of `runRound` for a node with validators, at the height to come.
  unfoldable pub run_turn : Env Db → ℕ → Engine Db → Engine Db
  unfolding propose_block broadcast_proposal start_round_timer
  run_turn env next e = elim (proposer_at cfg c ldb seeds e next e.consensus.current_round) [
    | none ↦ e
    | some p ↦
        if is_local e.consensus p
        then (if has_proposed e next
            then e
            else broadcast_proposal env (propose_block cfg c ldb seeds env e))
        else if has_prevotes e next
        then e
        else start_round_timer (new_votes next 0 e)
  ]

  -- `runRound`
  unfoldable pub run_round : Env Db → Engine Db → Engine Db
  unfolding produce_block_solo run_turn get_active_validators
  run_round env e =
      let next = add64 e.chain.latest_height 1 in
      if ltb 0 e.last_block_time && ltb env.now_ms (e.last_block_time + block_interval_ms)
      then e
      else elim (get_active_validators e.consensus.validator_set) [
        | [] ↦ produce_block_solo cfg c ldb seeds env e
        | _ ∷ _ ↦
            run_turn env next (if e.consensus.current_height == next then e else at_round next 0 e)
      ]

  -- `HandleProposal` of a block by the proposer of the height and the round.
  unfoldable pub accept_proposal : Env Db → ℕ → ℕ → Hash → Block → Engine Db → Engine Db
  unfolding start_round_timer cast_vote
  accept_proposal env height round hash blk e =
      let e' = at_round height round e in
      elim (validate_block cfg c ldb e.chain.db
        (some (proposer_validator c e.consensus.validator_set)) env.now blk false) [
          | err _ ↦ e'
          | ok _ ↦ cast_vote prevote hash (
              start_round_timer (
                with_phase prevoting
                  (new_votes height round (record e' { proposed_block = some blk }))))
        ]

  -- `HandleProposal`
  unfoldable pub handle_proposal : Env Db → ℕ → ℕ → Hash → Block → Engine Db → Engine Db
  unfolding accept_proposal
  handle_proposal env height round hash blk e =
      if leb height e.chain.latest_height || not (height == add64 e.chain.latest_height 1)
      then e
      else elim (proposer_at cfg c ldb seeds e height round) [
        | none ↦ e
        | some p ↦
            if not (blk.proposer == p.address)
            then e
            else accept_proposal env height round hash blk e
      ]

  -- The precommits, with one more, and the commit of the proposed block if they have the majority.
  unfoldable pub count_precommit : Env Db → Vote → ℕ → ℕ → Engine Db → Engine Db
  unfolding add_vote has_two_thirds_majority commit_block_with_signatures
  count_precommit env v power total e = elim e.precommits [
    | none ↦ e
    | some vs ↦
        let vs' = (add_vote vs v power).0 in
        let e' : Engine Db = record e { precommits = some vs' } in
        if has_two_thirds_majority vs' total
        then elim e.proposed_block [
          | none ↦ e'
          | some blk ↦ commit_block_with_signatures cfg c ldb seeds env blk e'
        ]
        else e'
  ]

  -- `HandleVote`
  unfoldable pub handle_vote : Env Db → Vote → Engine Db → Engine Db
  unfolding receive_prevote count_precommit get_validator
  handle_vote env v e =
      if leb v.height e.chain.latest_height
        || (not (v.height == add64 e.chain.latest_height 1)
            || not (v.round == e.consensus.current_round))
      then e
      else elim (get_validator e.consensus.validator_set v.voter_id) [
        | none ↦ e
        | some voter ↦
            if not (validate_block_signature c voter v.block_hash v.signature)
            then e
            else elim v.vote_type [
              | prevote ↦ receive_prevote v voter.voting_power e
              | precommit ↦
                  count_precommit env v voter.voting_power
                    e.consensus.validator_set.total_voting_power e
            ]
      ]

  -- The goroutine of `castVote` and `castVoteInternal`, once it has slept.
  unfoldable pub run_cast : Env Db → Cast → Engine Db → Engine Db
  unfolding count_own_prevote count_precommit
  run_cast env (Cast.cast type hash height round a power total) e =
      if not (e.consensus.current_height == height && e.consensus.current_round == round)
      then e
      else elim (env.sign hash) [
        | none ↦ e
        | some s ↦
            let v = own_vote env type hash height round a in
            elim type [
              | prevote ↦ count_own_prevote v power total (send_vote env v e)
              | precommit ↦ count_precommit env v power total (send_vote env v e)
            ]
      ]
  run_cast env (Cast.cast_internal hash height round) e = elim e.consensus.local [
    | none ↦ e
    | some l ↦
        if not (e.consensus.current_height == height && e.consensus.current_round == round)
        then e
        else elim (env.sign hash) [
          | none ↦ e
          | some s ↦
              let v = own_vote env precommit hash height round l.address in
              count_precommit env v l.voting_power e.consensus.validator_set.total_voting_power
                (send_vote env v e)
        ]
  ]
