-- ===== src/P2p/RateLimit.antt =====
-- p2p/ratelimit.go. Times are nanoseconds of the clock, and tokens are counted in 10^-9, which the
-- `float64` of the source rounds. A peer's ID is a number here.
pub mod Window
use abcfe.Base.{
  ℕ, ◌+◌, ◌-◌, ◌*◌, List, [], ◌∷◌, Option, none, some, Bool, true, false, not, ◌==◌, ◌&&◌, ltb, leb,
  if◌then◌else◌,
}
use abcfe.Base.Assoc.{Dict, lookup, insert}

-- `MessageType` of message.go, of which these have a limit.
abbrev pub MessageType : Type 0
MessageType = ℕ

abbrev pub get_blocks_type : MessageType
get_blocks_type = 5

abbrev pub new_tx_type : MessageType
new_tx_type = 7

abbrev pub proposal_type : MessageType
proposal_type = 14

abbrev pub vote_type : MessageType
vote_type = 15

abbrev pub second : ℕ
second = 1000000000

pub record RateLimitConfig : Type 0 where
  pub max_messages_per_second : ℕ
  pub burst_size : ℕ
  pub ban_duration : ℕ
  pub max_blocks_per_second : ℕ
  pub max_tx_per_second : ℕ
  pub max_proposals_per_second : ℕ
  pub max_votes_per_second : ℕ

-- `DefaultRateLimitConfig`
abbrev pub default_rate_limit_config : RateLimitConfig
default_rate_limit_config = record {
  max_messages_per_second = 100;
  burst_size = 200;
  ban_duration = 60 * second;
  max_blocks_per_second = 5;
  max_tx_per_second = 50;
  max_proposals_per_second = 10;
  max_votes_per_second = 50;
}

-- `messageCounter`
pub record Counter : Type 0 where
  pub count : ℕ
  pub window_start : ℕ

-- `PeerRateLimiter`; no ban is one until time 0.
pub record PeerRateLimiter : Type 0 where
  pub tokens : ℕ
  pub last_refill : ℕ
  pub message_counters : Dict Counter
  pub banned_until : ℕ

-- The `peers` of a `RateLimiter`
abbrev pub RateLimiter : Type 0
RateLimiter = Dict PeerRateLimiter

module _ (config : RateLimitConfig) where
  -- `getMessageTypeLimit`
  unfoldable pub get_message_type_limit : MessageType → ℕ
  get_message_type_limit type =
      if type == get_blocks_type
      then config.max_blocks_per_second
      else if type == new_tx_type
      then config.max_tx_per_second
      else if type == proposal_type
      then config.max_proposals_per_second
      else if type == vote_type
      then config.max_votes_per_second
      else 0

  -- The peer that `getPeerLimiter` makes.
  abbrev pub new_peer : ℕ → PeerRateLimiter
  new_peer now = record {
    tokens = config.burst_size * second;
    last_refill = now;
    message_counters = [];
    banned_until = 0;
  }

  -- `getPeerLimiter`
  unfoldable pub get_peer_limiter : RateLimiter → ℕ → ℕ → PeerRateLimiter
  get_peer_limiter rl peer now = elim (lookup peer rl) [ none ↦ new_peer now | some p ↦ p ]

  -- The counter in its window.
  unfoldable pub current_counter : PeerRateLimiter → MessageType → ℕ → Counter
  current_counter p type now = elim (lookup type p.message_counters) [
    | none ↦ record { count = 0; window_start = now }
    | some k ↦
        if leb second (now - k.window_start) then record { count = 0; window_start = now } else k
  ]

  -- `checkMessageTypeLimit`
  unfoldable pub check_message_type_limit :
      PeerRateLimiter → MessageType → ℕ → Bool × PeerRateLimiter
  check_message_type_limit p type now =
      let limit = get_message_type_limit type in
      let k = current_counter p type now in
      if limit == 0
      then (true, p)
      else if leb limit k.count
      then (false, record p { message_counters = insert type k p.message_counters })
      else (
        true,
        record p {
          message_counters = insert type (record k { count = k.count + 1 }) p.message_counters;
        },
      )

  -- The refill of `AllowMessage`
  unfoldable pub refill : PeerRateLimiter → ℕ → PeerRateLimiter
  refill p now =
      let tokens = p.tokens + (now - p.last_refill) * config.max_messages_per_second in
      record p {
        tokens =
            if ltb (config.burst_size * second) tokens then config.burst_size * second else tokens;
        last_refill = now;
      }

  -- `AllowMessage` for the limiter of the peer
  unfoldable pub allow_of_peer : PeerRateLimiter → MessageType → ℕ → Bool × PeerRateLimiter
  allow_of_peer p type now =
      let p' = refill p now in
      let (within, p'') = check_message_type_limit p' type now in
      if ltb now p.banned_until
      then (false, p)
      else if ltb p'.tokens second
      then (false, record p' { banned_until = now + config.ban_duration })
      else if within
      then (true, record p'' { tokens = p''.tokens - second })
      else (false, p'')

  -- `AllowMessage`
  unfoldable pub allow_message : RateLimiter → ℕ → MessageType → ℕ → Bool × RateLimiter
  allow_message rl peer type now =
      let (allowed, p) = allow_of_peer (get_peer_limiter rl peer now) type now in
      (allowed, insert peer p rl)

-- `IsBanned`
unfoldable pub is_banned : RateLimiter → ℕ → ℕ → Bool
is_banned rl peer now = elim (lookup peer rl) [ none ↦ false | some p ↦ ltb now p.banned_until ]

-- `cleanup`: who was not heard of for 10 minutes is dropped.
unfoldable pub cleanup : ℕ → RateLimiter → RateLimiter
cleanup now [] = []
cleanup now ((peer, p) ∷ rl) =
    if ltb (600 * second) (now - p.last_refill) then cleanup now rl else (peer, p) ∷ cleanup now rl
