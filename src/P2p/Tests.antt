-- ===== src/P2p/Tests.antt =====
-- The properties of p2p/, applied to a peer's votes and proposals.
use abcfe.Base.{ℕ, ◌+◌, ◌*◌, ◌≤◌, List, [], ◌∷◌, none, some, true, false, ◌≡◌, ◌≢◌, refl, arith}
use abcfe.Core.Types.{Bytes}
use abcfe.P2p.RateLimit.{
  default_rate_limit_config, vote_type, proposal_type, new_tx_type, second, get_message_type_limit,
  RateLimiter,
}
use abcfe.P2p.RateLimit.Window.{Event, passed, allow_message-window}
use abcfe.Base.{Bool}
use abcfe.P2p.Peers.{Peer, PeerTable}
use abcfe.P2p.Peers.Agreement.{conn_of, settled, add_peer-agrees}
use abcfe.P2p.Service.{
  ProposalPayload, Codec, Action, Service, has_seen, handle_proposal, relay_targets,
}
use abcfe.P2p.Service.Seen.{Arrival, handle}
use abcfe.Core.Tests.{first}

-- Peer 3 has used up its votes, half a second ago.
abbrev limiter : RateLimiter
limiter =
    (
      3,
      record {
        tokens = 20 * second;
        last_refill = 4 * second;
        message_counters = (vote_type, record { count = 50; window_start = 4 * second }) ∷ [];
        banned_until = 0;
      },
    )
    ∷ []

abbrev event : ℕ → ℕ → ℕ → Event
event peer type time = record { peer = peer; message_type = type; time = time }

abbrev half : ℕ
half = 500000000

abbrev events : List Event
events =
    event 3 vote_type (4 * second + half)
    ∷ event 8 vote_type (4 * second + half)
    ∷ event 3 new_tx_type (5 * second)
    ∷ event 3 vote_type (5 * second)
    ∷ event 3 vote_type (5 * second + 1)
    ∷ []

limited : get_message_type_limit default_rate_limit_config vote_type ≢ 0
unfolding get_message_type_limit
limited e = omega (arith, e)

allow_message-window_example :
    passed default_rate_limit_config 3 vote_type (4 * second + half) limiter events
    ≤ 2 * get_message_type_limit default_rate_limit_config vote_type
allow_message-window_example =
    allow_message-window default_rate_limit_config 3 vote_type (4 * second + half) limiter events
      limited
      (
        (omega arith, omega arith),
        (
          (omega arith, omega arith),
          (
            (omega arith, omega arith),
            ((omega arith, omega arith), ((omega arith, omega arith), tt)),
          ),
        ),
      )

abbrev proposer : Bytes
proposer = 3 ∷ 0 ∷ 0 ∷ 0 ∷ 0 ∷ 0 ∷ 0 ∷ 0 ∷ 0 ∷ 0 ∷ 0 ∷ 0 ∷ 0 ∷ 0 ∷ 0 ∷ 0 ∷ []

-- Every message is of the same height, round and proposer; its bytes are those of the block.
abbrev payload_of : Bytes → ProposalPayload
payload_of bytes = record {
  height = 1;
  round = 0;
  block_hash = 9001;
  block_data = bytes;
  proposer_id = proposer;
  signature = 0;
}

abbrev codec : Codec
codec = record {
  proposal = λ bytes. some (payload_of bytes);
  vote = λ bytes. none;
  new_block = λ bytes. none;
  new_tx = λ bytes. none;
  get_blocks = λ bytes. none;
  blocks = λ bytes. none;
  peers = λ bytes. none;
  block = λ bytes. elim bytes [ [] ↦ none | _ ∷ _ ↦ some first ];
  tx = λ bytes. none;
  proposal_key = λ height round bytes. 100 * height + round;
  vote_key = λ height round type bytes. height;
  message_id = λ msg. msg.from;
}

abbrev member : ℕ → ℕ → Bool → Peer
member id conn inbound = record {
  id = id;
  host = 1 ∷ [];
  host_port = 30000;
  port = 30303;
  conn = conn;
  active = true;
  best_height = 4;
  last_seen = 0;
  inbound = inbound;
}

abbrev service : Service
service = record {
  table = record { id = 1; network_id = 2; peers = (6, member 6 60 false) ∷ []; closed = [] };
  connecting = [];
  seen_messages = [];
  seen_proposals = [];
  seen_votes = [];
  limiter = [];
}

abbrev arrival : ℕ → Bytes → Arrival
arrival time bytes = record {
  time = time;
  message = record { type = proposal_type; payload = bytes; from = 5 };
  sender = 5;
}

-- Without the first message, the block is handed on.
handed_on :
    (s' : Service) × (handle codec (arrival (7 * second) (1 ∷ [])) service
      ≡ some (
        Action.send 6 (arrival 0 (1 ∷ [])).message ∷ Action.take_proposal 1 0 9001 first ∷ [],
        s',
      ))
unfolding handle_proposal has_seen relay_targets
handed_on = (_, refl)

abbrev alone : ℕ → PeerTable
alone id = record { id = id; network_id = 2; peers = []; closed = [] }

-- Node 4 and node 9 call each other.
add_peer-agrees_example :
    (conn_of (settled (member 9 70 false) (member 9 71 true) (member 9 71 true) (alone 4)) 9
      ≡ some 70)
    × (conn_of (settled (member 9 71 true) (member 9 70 false) (member 9 71 true) (alone 4)) 9
        ≡ some 70)
    × (conn_of (settled (member 4 70 true) (member 4 71 false) (member 4 71 false) (alone 9)) 4
        ≡ some 70)
    × (conn_of (settled (member 4 71 false) (member 4 70 true) (member 4 71 false) (alone 9)) 4
        ≡ some 70)
add_peer-agrees_example =
    add_peer-agrees (alone 4) (alone 9) 70 71 (member 9 70 false) (member 9 71 true)
      (member 4 70 true) (member 4 71 false) (omega arith) (λ e. omega (arith, e)) refl refl
      (refl, refl, refl) (refl, refl, refl) (refl, refl, refl) (refl, refl, refl)
