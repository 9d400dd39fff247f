-- ===== src/P2p/RateLimit/Window.antt =====
-- How many messages of a kind the limiter of p2p/ratelimit.go lets through in a second.
use abcfe.Base.{
  ℕ, ◌+◌, ◌-◌, ◌*◌, ◌≤◌, ◌<◌, List, [], ◌∷◌, Option, none, some, Bool, true, false, ◌==◌, ◌&&◌, leb,
  if◌then◌else◌, ◌≡◌, ◌≢◌, arith, All, Bool-cases, Option-cases, inl, inr, leb→lt,
}
use abcfe.Base.Assoc.{lookup, lookup-insert}
use abcfe.P2p.RateLimit.{
  MessageType, second, RateLimitConfig, Counter, PeerRateLimiter, RateLimiter,
  get_message_type_limit, get_peer_limiter, current_counter, check_message_type_limit, refill,
  allow_of_peer, allow_message,
}

-- A message from a peer, and when it is looked at.
pub record Event : Type 0 where
  pub peer : ℕ
  pub message_type : MessageType
  pub time : ℕ

-- How many more messages may pass in the second from `start` on: the window of the counter may
-- end in it, after which there is another one.
abbrev room : ℕ → ℕ → Option Counter → ℕ
room limit start none = limit
room limit start (some k) =
    if leb start k.window_start then limit - k.count else limit - k.count + limit

room-le : (limit start : ℕ) (k : Option Counter) → room limit start k ≤ 2 * limit
room-le limit start none = omega arith
room-le limit start (some k) = ground arith

abbrev one_if : Bool → ℕ
one_if true = 1
one_if false = 0

module _ (config : RateLimitConfig) (peer : ℕ) (type : MessageType) (start : ℕ) where
  abbrev limit : ℕ
  limit = get_message_type_limit config type

  current_counter-room :
      (p : PeerRateLimiter) (now : ℕ)
      → start ≤ now
      → now < start + second
      → room limit start (some (current_counter config p type now))
        ≤ room limit start (lookup type p.message_counters)
  unfolding current_counter
  current_counter-room p now lo hi = elim (Option-cases (lookup type p.message_counters)) [
    | inl e ↦ ground (arith, e, lo)
    | inr (k, e) ↦ ground (arith, e, lo, hi)
  ]

  count-room :
      (k : Counter)
      → k.count < limit
      → 1 + room limit start (some (record k { count = k.count + 1 })) ≤ room limit start (some k)
  count-room k lt = ground (arith, lt)

  -- The limiter of the peer, before and after one message of the kind.
  check-room :
      (p : PeerRateLimiter) (now : ℕ)
      → limit ≢ 0
      → start ≤ now
      → now < start + second
      → one_if (check_message_type_limit config p type now).0
          + room limit start
              (lookup type (check_message_type_limit config p type now).1.message_counters)
        ≤ room limit start (lookup type p.message_counters)
  unfolding check_message_type_limit
  check-room p now n lo hi =
      let k = current_counter config p type now in
      let le = current_counter-room p now lo hi in
      let same = lookup-insert type type k p.message_counters in
      let more = lookup-insert type type (record k { count = k.count + 1 }) p.message_counters in
      elim (Bool-cases (leb limit k.count)) [
        | inl full ↦ ground (arith, n, full, le, same)
        | inr free ↦
            let step = count-room k (leb→lt limit k.count free) in
            ground (arith, n, free, le, more, step)
      ]

  check-other :
      (p : PeerRateLimiter) (type' : MessageType) (now : ℕ)
      → (type' == type) ≡ false
      → lookup type (check_message_type_limit config p type' now).1.message_counters
        ≡ lookup type p.message_counters
  unfolding check_message_type_limit
  check-other p type' now n =
      let k = current_counter config p type' now in
      ground (
        arith,
        n,
        lookup-insert type' type k p.message_counters,
        lookup-insert type' type (record k { count = k.count + 1 }) p.message_counters,
      )

  -- One message of whatever kind.
  allow-room :
      (p : PeerRateLimiter) (type' : MessageType) (now : ℕ)
      → limit ≢ 0
      → start ≤ now
      → now < start + second
      → one_if ((allow_of_peer config p type' now).0 && type' == type)
          + room limit start (lookup type (allow_of_peer config p type' now).1.message_counters)
        ≤ room limit start (lookup type p.message_counters)
  unfolding allow_of_peer refill
  allow-room p type' now n lo hi =
      let p' = refill config p now in
      elim (Bool-cases (type' == type)) [
        | inl same ↦
            let e : type' ≡ type = ground (arith, same) in
            let step = check-room p' now n lo hi in rw e (ground (arith, step))
        | inr other ↦ let step = check-other p' type' now other in ground (arith, other, step)
      ]

  -- The room that the limiter of all peers has for this one.
  abbrev peer_room : RateLimiter → ℕ
  peer_room rl = elim (lookup peer rl) [
    | none ↦ limit
    | some p ↦ room limit start (lookup type p.message_counters)
  ]

  -- The message is of this kind, and the limiter lets it through.
  abbrev pub passes : RateLimiter → Event → Bool
  passes rl e =
      (allow_message config rl e.peer e.message_type e.time).0
      && (e.peer == peer && e.message_type == type)

  -- How many of the messages are of this kind and are let through, one after the other.
  abbrev pub passed : RateLimiter → List Event → ℕ
  passed rl [] = 0
  passed rl (e ∷ es) =
      one_if (passes rl e) + passed (allow_message config rl e.peer e.message_type e.time).1 es

  get_peer_limiter-room :
      (rl : RateLimiter) (now : ℕ)
      → room limit start (lookup type (get_peer_limiter config rl peer now).message_counters)
        ≡ peer_room rl
  unfolding get_peer_limiter
  get_peer_limiter-room rl now = ground (arith, Option-cases (lookup peer rl))

  message-room :
      (rl : RateLimiter) (e : Event)
      → limit ≢ 0
      → start ≤ e.time
      → e.time < start + second
      → one_if (passes rl e) + peer_room (allow_message config rl e.peer e.message_type e.time).1
        ≤ peer_room rl
  unfolding allow_message
  message-room rl e n lo hi =
      let p = get_peer_limiter config rl e.peer e.time in
      let after = (allow_of_peer config p e.message_type e.time).1 in
      let kept = lookup-insert e.peer peer after rl in
      elim (Bool-cases (e.peer == peer)) [
        | inl same ↦
            let q : e.peer ≡ peer = ground (arith, same) in
            let step = allow-room p e.message_type e.time n lo hi in
            let before : room limit start (lookup type p.message_counters) ≡ peer_room rl =
              rw q (get_peer_limiter-room rl e.time) in
            ground (arith, same, kept, step, before)
        | inr other ↦ ground (arith, other, kept)
      ]

  -- However the messages of all peers come in, and whatever came before: of one peer's messages of a
  -- kind with a limit, at most twice the limit are let through within a second, if no peer is
  -- dropped by `cleanup` meanwhile.
  pub allow_message-window :
      (rl : RateLimiter) (es : List Event)
      → get_message_type_limit config type ≢ 0
      → All (λ e. (start ≤ e.time) × (e.time < start + second)) es
      → passed rl es ≤ 2 * get_message_type_limit config type
  allow_message-window rl es n h = omega (arith, fits rl es h, peer_room-le rl)
    where
      fits :
          (s : RateLimiter) (ds : List Event)
          → All (λ e. (start ≤ e.time) × (e.time < start + second)) ds
          → passed s ds ≤ peer_room s
      fits s [] g = omega arith
      fits s (e ∷ ds) ((lo, hi), g) = omega (
        arith,
        message-room s e n lo hi,
        fits (allow_message config s e.peer e.message_type e.time).1 ds g,
      )

      peer_room-le : (s : RateLimiter) → peer_room s ≤ 2 * limit
      peer_room-le s = elim (Option-cases (lookup peer s)) [
        | inl e ↦ ground (arith, e)
        | inr (p, e) ↦
            let le = room-le limit start (lookup type p.message_counters) in ground (arith, e, le)
      ]
