-- ===== src/Consensus/Engine/Safety/Events.antt =====
-- What a vote, a goroutine and a timeout (consensus/engine.go) do to the chain.
use abcfe.Base.{
  ℕ, ◌+◌, not, ◌==◌, ◌&&◌, ◌||◌, ltb, leb, add64, ◌≡◌, refl, subst, arith, inl, inr, ◌⊎◌,
  Option-cases, Bool-cases,
}
use abcfe.Base.Assoc.{lookup}
use abcfe.Core.Types.{Config}
use abcfe.Core.Crypto.{Crypto}
use abcfe.Core.Store.{LevelDb}
use abcfe.Core.Chain.{Chain}
use abcfe.Consensus.Validators.{ValidatorSet, get_validator, validate_block_signature}
use abcfe.Consensus.Votes.{Vote, VoteType, prevote, precommit}
use abcfe.Consensus.Selection.{Seeds}
use abcfe.Consensus.State.{increment_round}
use abcfe.Consensus.Engine.{
  Cast, Engine, Env, clear_round, start_round_timer, next_round, proposer_at, propose_block,
}
use abcfe.Consensus.Engine.Handlers.{
  is_local, broadcast_proposal_internal, receive_prevote, count_own_prevote, send_vote, own_vote,
  handle_vote, run_cast,
}
use abcfe.Consensus.Engine.Steps.{Grown, enter_next_round, handle_round_timeout}
use abcfe.Consensus.Engine.Safety.{
  IsSound, kept, propose_block-IsSound, count_precommit-IsSound, receive_prevote-kept,
  broadcast_proposal_internal-kept,
}

VoteType-cases : (t : VoteType) → (t ≡ prevote) ⊎ (t ≡ precommit)
VoteType-cases prevote = inl refl
VoteType-cases precommit = inr refl

module _ (cfg : Config) (c : Crypto) (ldb : LevelDb) (seeds : Seeds) where
  open ldb use {Db}

  module _ (vs : ValidatorSet) (ch : Chain Db) where
    pub handle_vote-IsSound :
        (env : Env Db) (v : Vote) (e : Engine Db)
        → IsSound cfg c ldb seeds vs ch e
        → IsSound cfg c ldb seeds vs ch (handle_vote cfg c ldb seeds env v e)
    unfolding handle_vote get_validator
    handle_vote-IsSound env v e s =
        let e' = handle_vote cfg c ldb seeds env v e in
        let total = e.consensus.validator_set.total_voting_power in
        let late =
          leb v.height e.chain.latest_height
          || (not (v.height == add64 e.chain.latest_height 1)
              || not (v.round == e.consensus.current_round)) in
        elim (Bool-cases late) [
          | inl t ↦ kept cfg c ldb seeds vs ch e e' (ground (arith, t)) s
          | inr t ↦ elim (Option-cases (lookup v.voter_id e.consensus.validator_set.validators)) [
            | inl o ↦ kept cfg c ldb seeds vs ch e e' (ground (arith, t, o)) s
            | inr (w, o) ↦
                elim (Bool-cases (validate_block_signature c w v.block_hash v.signature)) [
                  | inr g ↦ kept cfg c ldb seeds vs ch e e' (ground (arith, t, o, g)) s
                  | inl g ↦ elim (VoteType-cases v.vote_type) [
                    | inl y ↦ subst (IsSound cfg c ldb seeds vs ch) (ground (arith, t, o, g, y)) (
                        kept cfg c ldb seeds vs ch e (receive_prevote v w.voting_power e)
                          (receive_prevote-kept cfg c ldb seeds vs ch v w.voting_power e) s)
                    | inr y ↦ subst (IsSound cfg c ldb seeds vs ch) (ground (arith, t, o, g, y)) (
                        count_precommit-IsSound cfg c ldb seeds vs ch env v w.voting_power total e
                          s)
                  ]
                ]
          ]
        ]

    send_vote-IsSound :
        (env : Env Db) (v : Vote) (e : Engine Db)
        → IsSound cfg c ldb seeds vs ch e
        → IsSound cfg c ldb seeds vs ch (send_vote env v e)
    send_vote-IsSound env v e s = kept cfg c ldb seeds vs ch e (send_vote env v e) (ground arith) s

    count_own_prevote-kept :
        (v : Vote) (power total : ℕ) (e : Engine Db)
        → ((count_own_prevote v power total e).consensus.validator_set ≡ e.consensus.validator_set)
          × ((count_own_prevote v power total e).chain ≡ e.chain)
    unfolding count_own_prevote
    count_own_prevote-kept v power total e = ground arith

    pub run_cast-IsSound :
        (env : Env Db) (k : Cast) (e : Engine Db)
        → IsSound cfg c ldb seeds vs ch e
        → IsSound cfg c ldb seeds vs ch (run_cast cfg c ldb seeds env k e)
    unfolding run_cast
    run_cast-IsSound env (Cast.cast type hash height round a power total) e s =
        let k = Cast.cast type hash height round a power total in
        let e' = run_cast cfg c ldb seeds env k e in
        let v = own_vote env type hash height round a in
        let e1 = send_vote env v e in
        let now = e.consensus.current_height == height && e.consensus.current_round == round in
        elim (Bool-cases now) [
          | inr t ↦ kept cfg c ldb seeds vs ch e e' (ground (arith, t)) s
          | inl t ↦ elim (Option-cases (env.sign hash)) [
            | inl o ↦ kept cfg c ldb seeds vs ch e e' (ground (arith, t, o)) s
            | inr (sig, o) ↦ elim (VoteType-cases type) [
              | inl y ↦ subst (IsSound cfg c ldb seeds vs ch) (ground (arith, t, o, y)) (
                  kept cfg c ldb seeds vs ch e1 (count_own_prevote v power total e1)
                    (count_own_prevote-kept v power total e1) (send_vote-IsSound env v e s))
              | inr y ↦ subst (IsSound cfg c ldb seeds vs ch) (ground (arith, t, o, y)) (
                  count_precommit-IsSound cfg c ldb seeds vs ch env v power total e1
                    (send_vote-IsSound env v e s))
            ]
          ]
        ]
    run_cast-IsSound env (Cast.cast_internal hash height round) e s =
        let e' = run_cast cfg c ldb seeds env (Cast.cast_internal hash height round) e in
        let total = e.consensus.validator_set.total_voting_power in
        let now = e.consensus.current_height == height && e.consensus.current_round == round in
        elim (Option-cases e.consensus.local) [
          | inl l ↦ kept cfg c ldb seeds vs ch e e' (ground (arith, l)) s
          | inr (w, l) ↦ elim (Bool-cases now) [
            | inr t ↦ kept cfg c ldb seeds vs ch e e' (ground (arith, l, t)) s
            | inl t ↦ elim (Option-cases (env.sign hash)) [
              | inl o ↦ kept cfg c ldb seeds vs ch e e' (ground (arith, l, t, o)) s
              | inr (sig, o) ↦
                  let v = own_vote env precommit hash height round w.address in
                  subst (IsSound cfg c ldb seeds vs ch) (ground (arith, l, t, o)) (
                    count_precommit-IsSound cfg c ldb seeds vs ch env v w.voting_power total
                      (send_vote env v e) (send_vote-IsSound env v e s))
            ]
          ]
        ]

    enter_next_round-IsSound :
        (env : Env Db) (height : ℕ) (e : Engine Db)
        → IsSound cfg c ldb seeds vs ch e
        → IsSound cfg c ldb seeds vs ch (enter_next_round cfg c ldb seeds env height e)
    unfolding enter_next_round increment_round start_round_timer
    enter_next_round-IsSound env height e s =
        let f = clear_round (next_round e) in
        let e' = enter_next_round cfg c ldb seeds env height e in
        let sound : IsSound cfg c ldb seeds vs ch f = record { same = s.same; grown = s.grown } in
        elim (Option-cases (proposer_at cfg c ldb seeds f height f.consensus.current_round)) [
          | inl o ↦ kept cfg c ldb seeds vs ch f e' (ground (arith, o)) sound
          | inr (p, o) ↦ elim (Bool-cases (is_local f.consensus p)) [
            | inr t ↦ kept cfg c ldb seeds vs ch f e' (ground (arith, o, t)) sound
            | inl t ↦
                let g = propose_block cfg c ldb seeds env f in
                let h = broadcast_proposal_internal env g in
                kept cfg c ldb seeds vs ch h e' (ground (arith, o, t)) (
                  kept cfg c ldb seeds vs ch g h
                    (broadcast_proposal_internal-kept cfg c ldb seeds vs ch env g)
                    (propose_block-IsSound cfg c ldb seeds vs ch env f sound))
          ]
        ]

    pub handle_round_timeout-IsSound :
        (env : Env Db) (height round : ℕ) (e : Engine Db)
        → IsSound cfg c ldb seeds vs ch e
        → Grown cfg c ldb seeds vs ch (env.sync e.chain)
        → IsSound cfg c ldb seeds vs ch (handle_round_timeout cfg c ldb seeds env height round e)
    unfolding handle_round_timeout
    handle_round_timeout-IsSound env height round e s more =
        let e' = handle_round_timeout cfg c ldb seeds env height round e in
        let now = e.consensus.current_height == height && e.consensus.current_round == round in
        elim (Bool-cases now) [
          | inr t ↦ kept cfg c ldb seeds vs ch e e' (ground (arith, t)) s
          | inl t ↦ elim (Bool-cases (leb 3 (e.consecutive_timeouts + 1))) [
            | inr q ↦ subst (IsSound cfg c ldb seeds vs ch) (ground (arith, t, q)) (
                enter_next_round-IsSound env height
                  (record e { consecutive_timeouts = e.consecutive_timeouts + 1 })
                  (record { same = s.same; grown = s.grown }))
            | inl q ↦
                let f : Engine Db = record e {
                  consecutive_timeouts = 0;
                  chain = env.sync e.chain;
                } in
                let sound : IsSound cfg c ldb seeds vs ch f = record {
                  same = s.same;
                  grown = more;
                } in
                elim (Bool-cases (ltb e.chain.latest_height f.chain.latest_height)) [
                  | inl u ↦ kept cfg c ldb seeds vs ch f e' (ground (arith, t, q, u)) sound
                  | inr u ↦
                      subst (IsSound cfg c ldb seeds vs ch) (ground (arith, t, q, u))
                        (enter_next_round-IsSound env height f sound)
                ]
          ]
        ]
