-- ===== src/Consensus/Engine.antt =====
-- consensus/engine.go. The engine's lock makes each handler one step, its sleeps included; the
-- goroutine that `castVote` starts is a step of its own, so it stands in a list until it runs. What
-- the WebSocket shows of the phases is left out.
pub mod Handlers
pub mod Steps
pub mod Safety
pub mod History
pub mod Stalls
pub mod Endorsed
pub mod Commits
use abcfe.Base.{
  ℕ, ◌+◌, ◌≤◌, List, [], ◌∷◌, ◌++◌, Option, none, some, Bool, true, false, not, ◌==◌, ◌&&◌, ◌||◌,
  ltb, leb, if◌then◌else◌, add64,
}
use abcfe.Base.Assoc.{Dict, lookup, values}
use abcfe.Base.Int.{ℤ}
use abcfe.Core.Types.{Hash, Address, Signature, CommitSignature, Block, Config}
use abcfe.Core.Errors.{Result, ok, err}
use abcfe.Core.Crypto.{Crypto}
use abcfe.Core.Store.{LevelDb}
use abcfe.Core.Validate.{validate_block, get_block_by_height}
use abcfe.Core.Chain.{Chain, add_block}
use abcfe.Core.Propose.{set_block, sign_block}
use abcfe.Consensus.Validators.{
  Validator, ValidatorSet, validate_block_signature, get_active_validators,
}
use abcfe.Consensus.Votes.{
  Vote, VoteSet, VoteType, prevote, precommit, new_vote_set, add_vote, has_two_thirds_majority,
}
use abcfe.Consensus.Commit.{proposer_validator}
use abcfe.Consensus.Selection.{Seeds, select_proposer_by_mode}
use abcfe.Consensus.State.{
  Phase, idle, proposing, prevoting, precommitting, committing, Consensus, update_height,
  increment_round,
}

-- What is sent to the peers, and `onBlockCommit`.
pub data Message : Type 0 where
  proposal : ℕ → ℕ → Hash → Block → Address → Signature → Message
  vote : Vote → Message
  committed : Block → Message

-- A goroutine of `castVote` before it takes the lock, with what it captured. That of
-- `castVoteInternal` reads the voter and the powers when it runs.
pub data Cast : Type 0 where
  cast : VoteType → Hash → (height round : ℕ) → (voter : Address) → (power total : ℕ) → Cast
  cast_internal : Hash → (height round : ℕ) → Cast

pub record Engine (Db : Type 0) : Type 0 where
  pub chain : Chain Db
  pub consensus : Consensus
  pub has_p2p : Bool
  pub prevotes : Option VoteSet
  pub precommits : Option VoteSet
  pub proposed_block : Option Block
  pub round_timer : Option (ℕ × ℕ)  -- the height and round for which it will fire
  pub consecutive_timeouts : ℕ
  pub last_block_time : ℕ  -- Unix milliseconds
  pub casts : List Cast
  pub sent : List Message  -- the last one first

-- What a step is given from outside: the clock, `signBlockHash`, whether the peers could be sent to,
-- and the chain after what a block sync has added meanwhile.
pub record Env (Db : Type 0) : Type 0 where
  pub now : ℤ
  pub now_ms : ℕ
  pub sign : Hash → Option Signature
  pub delivered : Bool
  pub sync : Chain Db → Chain Db

abbrev pub block_interval_ms : ℕ
block_interval_ms = 1000

module _ {Db : Type 0} where
  abbrev pub with_phase : Phase → Engine Db → Engine Db
  with_phase p e = record e { consensus = record (e.consensus) { phase = p } }

  abbrev pub send : Message → Engine Db → Engine Db
  send m e = record e { sent = m ∷ e.sent }

  -- `e.proposedBlock = nil` and the two vote sets
  abbrev pub clear_round : Engine Db → Engine Db
  clear_round e = record e { proposed_block = none; prevotes = none; precommits = none }

  abbrev pub at_round : ℕ → ℕ → Engine Db → Engine Db
  at_round height round e = record e {
    consensus = record (e.consensus) { current_height = height; current_round = round };
  }

  -- New vote sets for a height and a round.
  abbrev pub new_votes : ℕ → ℕ → Engine Db → Engine Db
  new_votes height round e = record e {
    prevotes = some (new_vote_set height round prevote);
    precommits = some (new_vote_set height round precommit);
  }

  -- `startRoundTimer` and `stopRoundTimer`
  unfoldable pub start_round_timer : Engine Db → Engine Db
  start_round_timer e = record e {
    round_timer = some (e.consensus.current_height, e.consensus.current_round);
  }

  unfoldable pub stop_round_timer : Engine Db → Engine Db
  stop_round_timer e = record e { round_timer = none }

  abbrev pub next_round : Engine Db → Engine Db
  next_round e = record e { consensus = increment_round e.consensus }

  -- `castVote`, up to the goroutine it starts
  unfoldable pub cast_vote : VoteType → Hash → Engine Db → Engine Db
  cast_vote type hash e = elim e.consensus.local [
    | none ↦ e
    | some l ↦ record e {
      casts =
          cast type hash e.consensus.current_height e.consensus.current_round l.address
            l.voting_power e.consensus.validator_set.total_voting_power
          ∷ e.casts;
    }
  ]

-- The prevoting phase ends when the prevotes have the majority.
abbrev pub end_prevoting : Phase → Phase
end_prevoting prevoting = precommitting
end_prevoting p = p

abbrev pub local_address : Consensus → Address
local_address con = elim con.local [ none ↦ 0 | some l ↦ l.address ]

module _ {Db : Type 0} where
  -- After a block is added: its time, the callback, and the next height.
  abbrev pub after_commit : Env Db → Block → Engine Db → Engine Db
  after_commit env blk e =
      let e' = send (committed blk) (record e { last_block_time = env.now_ms }) in
      record e' { consensus = update_height e'.consensus (add64 blk.header.height 1) }

abbrev pub to_commit_signature : Vote → CommitSignature
to_commit_signature v = record {
  validator_address = v.voter_id;
  signature = v.signature;
  timestamp = v.timestamp;
}

abbrev pub to_commit_signatures : List Vote → List CommitSignature
to_commit_signatures [] = []
to_commit_signatures (v ∷ vs) = to_commit_signature v ∷ to_commit_signatures vs

-- The block with the signatures of the precommits, if there is a vote set.
abbrev pub seal : Option VoteSet → Block → Block
seal none blk = blk
seal (some vs) blk = record blk { commit_signatures = to_commit_signatures (values vs.votes) }

module _ (cfg : Config) (c : Crypto) (ldb : LevelDb) (seeds : Seeds) where
  open ldb use {Db}

  -- The hash of the block at the latest height, or zero where it is not found.
  unfoldable pub latest_hash : Chain Db → Hash
  latest_hash ch = elim (get_block_by_height cfg c ldb ch.db ch.latest_height) [
    | ok b ↦ b.header.hash
    | err _ ↦ 0
  ]

  -- The hash for the selection of a proposer: zero on the genesis block.
  unfoldable pub selection_hash : Chain Db → Hash
  unfolding latest_hash
  selection_hash ch = if ch.latest_height == 0 then 0 else latest_hash ch

  abbrev pub proposer_at : Engine Db → ℕ → ℕ → Option Validator
  proposer_at e height round =
      select_proposer_by_mode e.consensus.mode seeds e.consensus.validator_set height round
        (selection_hash e.chain)

  -- The new block of `produceBlockSolo` and `proposeBlock`, signed where that succeeds.
  unfoldable pub make_block : Env Db → Engine Db → Block × Engine Db
  unfolding latest_hash
  make_block env e =
      let (blk, m) =
        set_block cfg c ldb e.chain.db e.chain.mempool (latest_hash e.chain)
          (add64 e.chain.latest_height 1) (local_address e.consensus) env.now in
      let e' : Engine Db = record e { chain = record (e.chain) { mempool = m } } in
      elim e.consensus.local [
        | none ↦ (blk, e')
        | some _ ↦ elim (env.sign blk.header.hash) [
          | none ↦ (blk, e')
          | some s ↦ (sign_block blk s, e')
        ]
      ]

  -- `produceBlockSolo`
  unfoldable pub produce_block_solo : Env Db → Engine Db → Engine Db
  unfolding make_block
  produce_block_solo env e =
      let (blk, e') = make_block env e in
      let (ch, r) = add_block ldb e'.chain blk in
      let e'' : Engine Db = record e' { chain = ch } in
      elim r [ err _ ↦ e'' | ok _ ↦ after_commit env blk e'' ]

  -- `proposeBlock`
  unfoldable pub propose_block : Env Db → Engine Db → Engine Db
  unfolding make_block
  propose_block env e =
      let (blk, e') = make_block env (with_phase proposing e) in
      record e' { proposed_block = some blk }

  -- `commitBlockWithSignatures`. The block is `e.proposedBlock` at every call, and changes in place.
  unfoldable pub commit_block_with_signatures : Env Db → Block → Engine Db → Engine Db
  unfolding stop_round_timer
  commit_block_with_signatures env blk e =
      let blk' = seal e.precommits blk in
      let e' : Engine Db = record (with_phase committing (stop_round_timer e)) {
        consecutive_timeouts = 0;
        proposed_block = some blk';
      } in
      elim (validate_block cfg c ldb e.chain.db
        (some (proposer_validator c e.consensus.validator_set)) env.now blk' true) [
          | err _ ↦ next_round e'
          | ok _ ↦
              let (ch, r) = add_block ldb e.chain blk' in
              let e'' : Engine Db = record e' { chain = ch } in
              elim r [ err _ ↦ next_round e'' | ok _ ↦ clear_round (after_commit env blk' e'') ]
        ]
