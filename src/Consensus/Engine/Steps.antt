-- ===== src/Consensus/Engine/Steps.antt =====
-- The timeout of consensus/engine.go, and the engine as a step relation: the round, the messages of
-- the peers, the goroutines of the own votes and the timers take the lock in any order.
use abcfe.Base.{
  ℕ, ◌+◌, List, ◌∷◌, ◌++◌, none, some, true, not, ◌==◌, ◌&&◌, ltb, leb, if◌then◌else◌, add64, ◌≡◌,
}
use abcfe.Core.Types.{Hash, Block, Config}
use abcfe.Core.Errors.{ok}
use abcfe.Core.Crypto.{Crypto}
use abcfe.Core.Store.{LevelDb}
use abcfe.Core.Mempool.{Mempool}
use abcfe.Core.Validate.{Check, validate_block}
use abcfe.Core.Chain.{Chain, add_block}
use abcfe.Consensus.Validators.{ValidatorSet}
use abcfe.Consensus.Votes.{Vote}
use abcfe.Consensus.Commit.{proposer_validator}
use abcfe.Consensus.Selection.{Seeds}
use abcfe.Consensus.State.{update_height}
use abcfe.Consensus.Engine.{
  Cast, Engine, Env, clear_round, at_round, start_round_timer, next_round, proposer_at,
  propose_block,
}
use abcfe.Consensus.Engine.Handlers.{
  is_local, broadcast_proposal_internal, run_round, handle_proposal, handle_vote, run_cast,
}

module _ (cfg : Config) (c : Crypto) (ldb : LevelDb) (seeds : Seeds) where
  open ldb use {Db}

  -- The end of `handleRoundTimeout`: the next round, which the local node may propose in.
  unfoldable pub enter_next_round : Env Db → ℕ → Engine Db → Engine Db
  unfolding start_round_timer propose_block broadcast_proposal_internal
  enter_next_round env height e =
      let e' = clear_round (next_round e) in
      start_round_timer (elim (proposer_at cfg c ldb seeds e' height e'.consensus.current_round) [
        | none ↦ e'
        | some p ↦
            if is_local e'.consensus p
            then broadcast_proposal_internal env (propose_block cfg c ldb seeds env e')
            else e'
      ])

  -- `handleRoundTimeout`. The block sync runs beside it: what it has added by the time the height is
  -- read again is the step's.
  unfoldable pub handle_round_timeout : Env Db → ℕ → ℕ → Engine Db → Engine Db
  unfolding enter_next_round
  handle_round_timeout env height round e =
      if not (e.consensus.current_height == height && e.consensus.current_round == round)
      then record e { consecutive_timeouts = 0 }
      else if not (leb 3 (e.consecutive_timeouts + 1))
      then enter_next_round env height
          (record e { consecutive_timeouts = e.consecutive_timeouts + 1 })
      else let e' : Engine Db = record e { consecutive_timeouts = 0; chain = env.sync e.chain } in
        if ltb e.chain.latest_height e'.chain.latest_height
        then clear_round (at_round (add64 e'.chain.latest_height 1) 0 e')
        else enter_next_round env height e'

  -- The chain grows from `ch`: transactions come and go in the mempool, and blocks are added that
  -- `ValidateBlock` accepts with the check of the commit, whether adding succeeds to the end or not.
  pub data Grown (vs : ValidatorSet) (ch : Chain Db) : Chain Db → Type 0 where
    here : Grown vs ch ch
    pooled :
        {ch' : Chain Db}
        → Grown vs ch ch'
        → (m : Mempool) → Grown vs ch (record ch' { mempool = m })
    added :
        {ch' ch'' : Chain Db}
        → Grown vs ch ch'
        → (env : Env Db) (blk : Block) (r : Check)
        → validate_block cfg c ldb ch'.db (some (proposer_validator c vs)) env.now blk true ≡ ok tt
        → add_block ldb ch' blk ≡ (ch'', r)
        → Grown vs ch ch''

  -- One step. A timer that was stopped may have fired already, so a timeout may come for any height
  -- and round. `outside` and `heard` are what the handler of blocks in app/ does to the chain and to the
  -- height.
  pub data Step (e : Engine Db) : Engine Db → Type 0 where
    round : (env : Env Db) → Step e (run_round cfg c ldb seeds env e)
    proposal :
        (env : Env Db) (height round : ℕ) (hash : Hash) (blk : Block)
        → Step e (handle_proposal cfg c ldb seeds env height round hash blk e)
    vote : (env : Env Db) (v : Vote) → Step e (handle_vote cfg c ldb seeds env v e)
    own_vote :
        (env : Env Db) (before after : List Cast) (k : Cast)
        → e.casts ≡ before ++ k ∷ after
        → Step e (run_cast cfg c ldb seeds env k (record e { casts = before ++ after }))
    timeout :
        (env : Env Db) (height round : ℕ)
        → Grown e.consensus.validator_set e.chain (env.sync e.chain)
        → Step e (handle_round_timeout env height round (record e { round_timer = none }))
    outside :
        (ch : Chain Db)
        → Grown e.consensus.validator_set e.chain ch
        → Step e (record e { chain = ch })
    heard : (height : ℕ) → Step e (record e { consensus = update_height e.consensus height })

  pub data Reach (e : Engine Db) : Engine Db → Type 0 where
    start : Reach e e
    later : {f g : Engine Db} → Reach e f → Step f g → Reach e g
