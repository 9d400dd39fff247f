-- ===== src/P2p/Service/Sync.antt =====
-- How p2p/p2p.go asks for blocks and answers such requests, and its dispatch of messages.
use abcfe.Base.{
  ℕ, zero, suc, List, [], ◌∷◌, Option, none, some, ◌==◌, ◌&&◌, ltb, leb, if◌then◌else◌, add64,
}
use abcfe.Base.Assoc.{Dict, erase}
use abcfe.Core.Types.{Block, Config}
use abcfe.Core.Crypto.{Crypto}
use abcfe.Core.Errors.{ok, err}
use abcfe.Core.Store.{LevelDb}
use abcfe.Core.Genesis.{Hex}
use abcfe.Core.Validate.{get_block_by_height}
use abcfe.P2p.RateLimit.{
  RateLimitConfig, allow_message, get_blocks_type, new_tx_type, proposal_type, vote_type,
}
use abcfe.P2p.Peers.{Peer, PeerInfo, peer_infos, handle_peers}
use abcfe.P2p.Service.{
  Message, Codec, Action, Outcome, send_blocks, send_peers, connect, request, pong, Service,
  handle_proposal, handle_vote, handle_new_block, handle_new_tx, handle_blocks,
}

-- The loop of `SyncBlocks` over the peers: the first one with the highest block.
unfoldable pub best_peer : Dict Peer → Option Peer → ℕ → Option Peer × ℕ
best_peer [] best height = (best, height)
best_peer ((k, p) ∷ peers) best height =
    if p.active && leb height p.best_height
    then elim best [
      | none ↦ best_peer peers (some p) p.best_height
      | some q ↦
          if ltb height p.best_height
          then best_peer peers (some p) p.best_height
          else best_peer peers (some q) height
    ]
    else best_peer peers best height

-- `SyncBlocks` at a latest height; `none` is its error.
unfoldable pub sync_blocks : ℕ → Service → Option (List Action)
unfolding best_peer
sync_blocks current s =
    let (best, height) = best_peer s.table.peers none 0 in
    elim s.table.peers [
      | [] ↦ none
      | _ ∷ _ ↦ elim best [
        | none ↦ some []
        | some p ↦
            if leb height current
            then some []
            else some (request p.id (add64 current 1) height ∷ [])
      ]
    ]

unfoldable pub connects : List PeerInfo → List Action
connects [] = []
connects (i ∷ infos) = connect i ∷ connects infos

-- `handlePeers`, once the payload is read
unfoldable pub take_peers : Codec → ℕ → Message → Service → List Action × Service
unfolding connects
take_peers codec now msg s = elim (codec.peers msg.payload) [
  | none ↦ ([], s)
  | some infos ↦
      let (calls, connecting) = handle_peers now s.table infos s.connecting in
      (connects calls, record s { connecting = connecting })
]

-- `unmarkConnecting`, when an attempt to connect has ended
unfoldable pub unmark_connecting : ℕ → Service → Service
unmark_connecting id s = record s { connecting = erase id s.connecting }

module _ (cfg : Config) (c : Crypto) (ldb : LevelDb) where
  open ldb use {Db}

  -- The loop of `handleGetBlocks`, over at most so many blocks.
  unfoldable pub serve_blocks : Db → (most height last : ℕ) → List Block
  serve_blocks db zero height last = []
  serve_blocks db (suc most) height last =
      let rest = serve_blocks db most (add64 height 1) last in
      if ltb last height
      then []
      else elim (get_block_by_height cfg c ldb db height) [ err _ ↦ [] | ok b ↦ b ∷ rest ]

  -- `handleGetBlocks`
  unfoldable pub handle_get_blocks : Codec → Db → Message → ℕ → List Action
  unfolding serve_blocks
  handle_get_blocks codec db msg peer = elim (codec.get_blocks msg.payload) [
    | none ↦ []
    | some (first, last) ↦ send_blocks peer (serve_blocks db 100 first last) ∷ []
  ]

  -- The handler of a message that the limiter lets through.
  unfoldable pub dispatch : Codec → Hex → Db → ℕ → Message → ℕ → Service → Outcome
  unfolding handle_proposal handle_vote handle_new_block handle_new_tx handle_blocks
      handle_get_blocks
  dispatch codec hex db now msg peer s =
      if msg.type == 10
      then some (pong peer ∷ [], s)
      else if msg.type == 2
      then some (handle_new_block codec msg, s)
      else if msg.type == new_tx_type
      then some (handle_new_tx codec msg, s)
      else if msg.type == get_blocks_type
      then some (handle_get_blocks codec db msg peer, s)
      else if msg.type == 6
      then some (handle_blocks codec msg, s)
      else if msg.type == proposal_type
      then handle_proposal codec now msg peer s
      else if msg.type == vote_type
      then handle_vote codec hex now msg peer s
      else if msg.type == 12
      then some (send_peers peer (peer_infos peer s.table.peers) ∷ [], s)
      else if msg.type == 13
      then some (take_peers codec now msg s)
      else some ([], s)

  -- `handleMessage`
  unfoldable pub handle_message :
      RateLimitConfig → Codec → Hex → Db → ℕ → Message → ℕ → Service → Outcome
  unfolding dispatch
  handle_message config codec hex db now msg peer s =
      let (allowed, rl) = allow_message config s.limiter peer msg.type now in
      let s' : Service = record s { limiter = rl } in
      if allowed then dispatch codec hex db now msg peer s' else some ([], s')
