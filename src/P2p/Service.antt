-- ===== src/P2p/Service.antt =====
-- p2p/p2p.go: the messages of the blocks, the transactions and the consensus. JSON, gob, `Sprintf` and
-- SHA-256 are fields of `Codec`. What a handler sends or hands on is the list that it returns.
pub mod Seen
pub mod Sync
use abcfe.Base.{
  ℕ, zero, suc, ◌+◌, ◌-◌, ◌*◌, List, [], ◌∷◌, ◌++◌, Option, none, some, Bool, true, false, not,
  ◌==◌, ◌&&◌, ltb, leb, if◌then◌else◌, length, add64,
}
use abcfe.Base.Assoc.{Dict, lookup, insert}
use abcfe.Core.Types.{Hash, Address, Signature, Bytes, Transaction, Block, Config}
use abcfe.Core.Crypto.{Crypto}
use abcfe.Core.Errors.{ok, err}
use abcfe.Core.Store.{LevelDb}
use abcfe.Core.Genesis.{Hex, string_to_address}
use abcfe.Core.Validate.{get_block_by_height}
use abcfe.Core.Chain.{Chain}
use abcfe.P2p.Peers.{Peer, PeerInfo, PeerTable}
use abcfe.P2p.RateLimit.{MessageType, RateLimitConfig, RateLimiter, allow_message, second}

pub record Message : Type 0 where
  pub type : MessageType
  pub payload : Bytes
  pub from : ℕ

pub record ProposalPayload : Type 0 where
  pub height : ℕ
  pub round : ℕ
  pub block_hash : Hash
  pub block_data : Bytes
  pub proposer_id : Bytes
  pub signature : Signature

pub record VotePayload : Type 0 where
  pub height : ℕ
  pub round : ℕ
  pub vote_type : ℕ
  pub block_hash : Hash
  pub voter_id : Bytes
  pub signature : Signature

pub record Codec : Type 0 where
  pub proposal : Bytes → Option ProposalPayload
  pub vote : Bytes → Option VotePayload
  pub new_block : Bytes → Option Bytes  -- the block's data
  pub new_tx : Bytes → Option Bytes
  pub get_blocks : Bytes → Option (ℕ × ℕ)
  pub blocks : Bytes → Option (List Bytes)
  pub peers : Bytes → Option (List PeerInfo)
  pub block : Bytes → Option Block
  pub tx : Bytes → Option Transaction
  pub proposal_key : (height round : ℕ) → Bytes → ℕ
  pub vote_key : (height round type : ℕ) → Bytes → ℕ
  pub message_id : Message → ℕ

-- What the handlers give to the rest of the node, and what they send to a peer.
pub data Action : Type 0 where
  take_proposal : (height round : ℕ) → Hash → Block → Action
  take_vote : (height round type : ℕ) → Hash → Address → Signature → Action
  take_block : Block → Action
  take_tx : Transaction → Action
  pong : (peer : ℕ) → Action
  send : (peer : ℕ) → Message → Action
  send_blocks : (peer : ℕ) → List Block → Action
  send_peers : (peer : ℕ) → List PeerInfo → Action
  connect : PeerInfo → Action
  request : (peer first last : ℕ) → Action

-- When each key was seen, in nanoseconds.
abbrev pub SeenCache : Type 0
SeenCache = Dict ℕ

pub record Service : Type 0 where
  pub table : PeerTable
  pub connecting : Dict ℕ
  pub seen_messages : SeenCache
  pub seen_proposals : SeenCache
  pub seen_votes : SeenCache
  pub limiter : RateLimiter

-- What a handler sends and hands on, and the state after it; `none` is a panic, which ends the node:
-- a slice of the first 16 bytes, for a line of the log, of an ID that is shorter.
abbrev pub Outcome : Type 0
Outcome = Option (List Action × Service)

-- `hasSeenMessage`, `hasSeenProposal` and `hasSeenVote`
unfoldable pub has_seen : SeenCache → ℕ → Bool
has_seen seen key = elim (lookup key seen) [ none ↦ false | some t ↦ true ]

-- The loop that drops what was seen before a time.
unfoldable pub drop_before : ℕ → SeenCache → SeenCache
drop_before threshold [] = []
drop_before threshold ((k, t) ∷ seen) =
    if ltb t threshold then drop_before threshold seen else (k, t) ∷ drop_before threshold seen

-- `markMessageSeen`, `markProposalSeen` and `markVoteSeen`: a cache that is too large is cleaned.
unfoldable pub mark_seen : (size age : ℕ) → SeenCache → ℕ → ℕ → SeenCache
unfolding drop_before
mark_seen size age seen key now =
    let seen' = insert key now seen in
    if ltb size (length seen') then drop_before (now - age) seen' else seen'

-- The peers that `relayMessageWithoutDuplicateCheck` sends to.
unfoldable pub relay_targets : Message → ℕ → Dict Peer → List Action
relay_targets msg sender [] = []
relay_targets msg sender ((k, p) ∷ peers) =
    if p.active && (not (p.id == sender) && not (p.id == msg.from))
    then send p.id msg ∷ relay_targets msg sender peers
    else relay_targets msg sender peers

module _ (codec : Codec) where
  -- `relayMessage`
  unfoldable pub relay_message : ℕ → Message → ℕ → Service → List Action × Service
  relay_message now msg sender s =
      let id = codec.message_id msg in
      if has_seen s.seen_messages id then ([], s) else (
        relay_targets msg sender s.table.peers,
        record s { seen_messages = mark_seen 1000 (60 * second) s.seen_messages id now },
      )

  -- `handleProposal`
  unfoldable pub handle_proposal : ℕ → Message → ℕ → Service → Outcome
  unfolding relay_message
  handle_proposal now msg sender s = elim (codec.proposal msg.payload) [
    | none ↦ some ([], s)
    | some p ↦
        let key = codec.proposal_key p.height p.round p.proposer_id in
        if has_seen s.seen_proposals key
        then some ([], s)
        else let s' : Service = record s {
          seen_proposals = mark_seen 500 (30 * second) s.seen_proposals key now;
        } in
          elim (codec.block p.block_data) [
            | none ↦ some ([], s')
            | some blk ↦
                let (sent, s'') = relay_message now msg sender s' in
                if ltb (length p.proposer_id) 16
                then none
                else some (sent ++ take_proposal p.height p.round p.block_hash blk ∷ [], s'')
          ]
  ]

  -- `handleVote`
  unfoldable pub handle_vote : Hex → ℕ → Message → ℕ → Service → Outcome
  unfolding relay_message
  handle_vote hex now msg sender s = elim (codec.vote msg.payload) [
    | none ↦ some ([], s)
    | some v ↦
        let key = codec.vote_key v.height v.round v.vote_type v.voter_id in
        if has_seen s.seen_votes key
        then some ([], s)
        else let (sent, s') =
            relay_message now msg sender
              (record s { seen_votes = mark_seen 2000 (30 * second) s.seen_votes key now }) in
          if ltb (length v.voter_id) 16 then none else elim (string_to_address hex v.voter_id) [
            | none ↦ some (sent, s')
            | some a ↦
                some (
                  sent ++ take_vote v.height v.round v.vote_type v.block_hash a v.signature ∷ [],
                  s',
                )
          ]
  ]

  -- `handleNewBlock` and `handleNewTx`
  unfoldable pub handle_new_block : Message → List Action
  handle_new_block msg = elim (codec.new_block msg.payload) [
    | none ↦ []
    | some bytes ↦ elim (codec.block bytes) [ none ↦ [] | some blk ↦ take_block blk ∷ [] ]
  ]

  unfoldable pub handle_new_tx : Message → List Action
  handle_new_tx msg = elim (codec.new_tx msg.payload) [
    | none ↦ []
    | some bytes ↦ elim (codec.tx bytes) [ none ↦ [] | some tx ↦ take_tx tx ∷ [] ]
  ]

  -- `handleBlocks`: what is not a block is passed over.
  unfoldable pub take_blocks : List Bytes → List Action
  take_blocks [] = []
  take_blocks (bytes ∷ rest) = elim (codec.block bytes) [
    | none ↦ take_blocks rest
    | some blk ↦ take_block blk ∷ take_blocks rest
  ]

  unfoldable pub handle_blocks : Message → List Action
  unfolding take_blocks
  handle_blocks msg = elim (codec.blocks msg.payload) [ none ↦ [] | some bs ↦ take_blocks bs ]
