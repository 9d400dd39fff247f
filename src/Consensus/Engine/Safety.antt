-- ===== src/Consensus/Engine/Safety.antt =====
-- What the steps of the engine (consensus/engine.go) do to the chain.
pub mod Events
use abcfe.Base.{
  ℕ, ◌+◌, List, [], ◌∷◌, ◌++◌, Option, none, some, Bool, true, false, not, ◌==◌, ◌&&◌, ◌||◌, ltb,
  leb, if◌then◌else◌, add64, ◌≡◌, ◌≢◌, refl, sym, subst, ◌∙◌, ap, arith, inl, inr, ◌⊎◌,
  Option-cases, Bool-cases,
}
use abcfe.Base.Assoc.{lookup}
use abcfe.Base.Int.{ℤ}
use abcfe.Core.Types.{Hash, Block, Config}
use abcfe.Core.Errors.{Result, ok, err, Result-cases}
use abcfe.Core.Crypto.{Crypto}
use abcfe.Core.Store.{LevelDb}
use abcfe.Core.Mempool.{Mempool}
use abcfe.Core.Validate.{Check, validate_block}
use abcfe.Core.Chain.{Chain, add_block}
use abcfe.Consensus.Validators.{
  ValidatorSet, get_active_validators, get_validator, validate_block_signature,
}
use abcfe.Consensus.Votes.{
  Vote, VoteSet, VoteType, prevote, precommit, add_vote, has_two_thirds_majority,
}
use abcfe.Consensus.Commit.{proposer_validator}
use abcfe.Consensus.Selection.{Seeds}
use abcfe.Consensus.State.{Consensus, update_height, increment_round}
use abcfe.Core.Propose.{set_block}
use abcfe.Consensus.Engine.{
  latest_hash, local_address, block_interval_ms, Cast, Engine, Env, seal, clear_round, at_round,
  new_votes, start_round_timer, stop_round_timer, next_round, cast_vote, proposer_at, make_block,
  propose_block, commit_block_with_signatures,
}
use abcfe.Consensus.Engine.Handlers.{
  is_local, has_proposed, has_prevotes, broadcast_proposal, broadcast_proposal_internal, run_turn,
  run_round, accept_proposal, handle_proposal, receive_prevote, count_precommit, count_own_prevote,
  send_vote, own_vote, handle_vote, run_cast,
}
use abcfe.Consensus.Engine.Steps.{
  Grown, here, pooled, added, Step, Reach, start, later, enter_next_round, handle_round_timeout,
}

pub cons_of {ℓ} : {A : Type ℓ} (l : List A) → l ≢ [] → (x : A) × (xs : List A) × (l ≡ x ∷ xs)
cons_of [] n = absurd (n refl)
cons_of (x ∷ xs) n = (x, xs, refl)

module _ (cfg : Config) (c : Crypto) (ldb : LevelDb) (seeds : Seeds) where
  open ldb use {Db}

  -- The validators are these, and the chain has grown from that one.
  pub record IsSound (vs : ValidatorSet) (ch : Chain Db) (e : Engine Db) : Type 0 where
    pub same : e.consensus.validator_set ≡ vs
    pub grown : Grown cfg c ldb seeds vs ch e.chain

  -- The local node has the turn and has not proposed yet.
  abbrev proposes : Engine Db → ℕ → Bool
  proposes e next = elim (proposer_at cfg c ldb seeds e next e.consensus.current_round) [
    | none ↦ false
    | some p ↦ is_local e.consensus p && not (has_proposed e next)
  ]

  module _ (vs : ValidatorSet) (ch : Chain Db) where
    -- A step that leaves the validators and the chain alone.
    pub kept :
        (e e' : Engine Db)
        → (e'.consensus.validator_set ≡ e.consensus.validator_set) × (e'.chain ≡ e.chain)
        → IsSound vs ch e
        → IsSound vs ch e'
    kept e e' k s = record {
      same = k.0 ∙ s.same;
      grown = subst (Grown cfg c ldb seeds vs ch) (sym k.1) s.grown;
    }

    cast_vote-kept :
        (t : VoteType) (hash : Hash) (e : Engine Db)
        → ((cast_vote t hash e).consensus.validator_set ≡ e.consensus.validator_set)
          × ((cast_vote t hash e).chain ≡ e.chain)
    unfolding cast_vote
    cast_vote-kept t hash e = ground arith

    broadcast_proposal-kept :
        (env : Env Db) (e : Engine Db)
        → ((broadcast_proposal env e).consensus.validator_set ≡ e.consensus.validator_set)
          × ((broadcast_proposal env e).chain ≡ e.chain)
    unfolding broadcast_proposal
    broadcast_proposal-kept env e = ground arith

    pub broadcast_proposal_internal-kept :
        (env : Env Db) (e : Engine Db)
        → ((broadcast_proposal_internal env e).consensus.validator_set ≡ e.consensus.validator_set)
          × ((broadcast_proposal_internal env e).chain ≡ e.chain)
    unfolding broadcast_proposal_internal
    broadcast_proposal_internal-kept env e = ground arith

    pub propose_block-IsSound :
        (env : Env Db) (e : Engine Db)
        → IsSound vs ch e
        → IsSound vs ch (propose_block cfg c ldb seeds env e)
    unfolding propose_block
    propose_block-IsSound env e s =
        let m =
          (set_block cfg c ldb e.chain.db e.chain.mempool (latest_hash cfg c ldb seeds e.chain)
            (add64 e.chain.latest_height 1) (local_address e.consensus) env.now).1 in
        let k : ((propose_block cfg c ldb seeds env e).consensus.validator_set
              ≡ e.consensus.validator_set)
            × ((propose_block cfg c ldb seeds env e).chain ≡ record (e.chain) { mempool = m }) =
          ground arith in
        record {
          same = k.0 ∙ s.same;
          grown = subst (Grown cfg c ldb seeds vs ch) (sym k.1) (pooled s.grown m);
        }

    commit-IsSound :
        (env : Env Db) (blk : Block) (e : Engine Db)
        → IsSound vs ch e
        → IsSound vs ch (commit_block_with_signatures cfg c ldb seeds env blk e)
    unfolding commit_block_with_signatures increment_round update_height
    commit-IsSound env blk e s =
        let blk' = seal e.precommits blk in
        let e' = commit_block_with_signatures cfg c ldb seeds env blk e in
        elim (Result-cases (
          validate_block cfg c ldb e.chain.db
            (some (proposer_validator c e.consensus.validator_set)) env.now blk' true)) [
              | inr (x, h) ↦ kept e e' (ground (arith, h)) s
              | inl (u, h) ↦
                  let (ch', r) = add_block ldb e.chain blk' in
                  let same : e'.consensus.validator_set ≡ e.consensus.validator_set =
                    ground (arith, h) in
                  let grown : e'.chain ≡ ch' = ground (arith, h) in
                  record {
                    same = same ∙ s.same;
                    grown = subst (Grown cfg c ldb seeds vs ch) (sym grown) (
                        added s.grown env blk' r
                          (subst
                            (λ w.
                              validate_block cfg c ldb e.chain.db (some (proposer_validator c w))
                                env.now blk' true
                              ≡ ok tt)
                            s.same h)
                          refl);
                  }
            ]

    run_turn-IsSound :
        (env : Env Db) (next : ℕ) (e : Engine Db)
        → IsSound vs ch e
        → IsSound vs ch (run_turn cfg c ldb seeds env next e)
    unfolding run_turn start_round_timer
    run_turn-IsSound env next e s =
        let e' = run_turn cfg c ldb seeds env next e in
        let p = propose_block cfg c ldb seeds env e in
        let b = broadcast_proposal env p in
        elim (Bool-cases (proposes e next)) [
          | inl t ↦
              subst (IsSound vs ch) (ground (arith, t))
                (kept p b (broadcast_proposal-kept env p) (propose_block-IsSound env e s))
          | inr t ↦ kept e e' (ground (arith, t)) s
        ]

    pub run_round-IsSound :
        (env : Env Db) (e : Engine Db)
        → get_active_validators e.consensus.validator_set ≢ []
        → IsSound vs ch e
        → IsSound vs ch (run_round cfg c ldb seeds env e)
    unfolding run_round
    run_round-IsSound env e n s =
        let next = add64 e.chain.latest_height 1 in
        let e' = run_round cfg c ldb seeds env e in
        let (v, rest, active) = cons_of (get_active_validators e.consensus.validator_set) n in
        let moved = at_round next 0 e in
        let early =
          ltb 0 e.last_block_time && ltb env.now_ms (e.last_block_time + block_interval_ms) in
        elim (Bool-cases early) [
          | inl t ↦ kept e e' (ground (arith, t)) s
          | inr t ↦ elim (Bool-cases (e.consensus.current_height == next)) [
            | inl q ↦
                subst (IsSound vs ch) (ground (arith, t, q, active)) (run_turn-IsSound env next e s)
            | inr q ↦
                subst (IsSound vs ch) (ground (arith, t, q, active))
                  (run_turn-IsSound env next moved (record { same = s.same; grown = s.grown }))
          ]
        ]

    pub handle_proposal-IsSound :
        (env : Env Db) (height round : ℕ) (hash : Hash) (blk : Block) (e : Engine Db)
        → IsSound vs ch e
        → IsSound vs ch (handle_proposal cfg c ldb seeds env height round hash blk e)
    unfolding handle_proposal accept_proposal start_round_timer cast_vote
    handle_proposal-IsSound env height round hash blk e s =
        kept e (handle_proposal cfg c ldb seeds env height round hash blk e) (ground arith) s

    pub count_precommit-IsSound :
        (env : Env Db) (v : Vote) (power total : ℕ) (e : Engine Db)
        → IsSound vs ch e
        → IsSound vs ch (count_precommit cfg c ldb seeds env v power total e)
    unfolding count_precommit
    count_precommit-IsSound env v power total e s =
        let e' = count_precommit cfg c ldb seeds env v power total e in
        elim (Option-cases e.precommits) [
          | inl p ↦ kept e e' (ground (arith, p)) s
          | inr (old, p) ↦
              let new = (add_vote old v power).0 in
              elim (Bool-cases (has_two_thirds_majority new total)) [
                | inr t ↦ kept e e' (ground (arith, p, t)) s
                | inl t ↦ elim (Option-cases e.proposed_block) [
                  | inl q ↦ kept e e' (ground (arith, p, t, q)) s
                  | inr (blk, q) ↦ subst (IsSound vs ch) (ground (arith, p, t, q)) (
                      commit-IsSound env blk (record e { precommits = some new })
                        (record { same = s.same; grown = s.grown }))
                ]
              ]
        ]

    pub receive_prevote-kept :
        (v : Vote) (power : ℕ) (e : Engine Db)
        → ((receive_prevote v power e).consensus.validator_set ≡ e.consensus.validator_set)
          × ((receive_prevote v power e).chain ≡ e.chain)
    unfolding receive_prevote cast_vote
    receive_prevote-kept v power e = ground arith
