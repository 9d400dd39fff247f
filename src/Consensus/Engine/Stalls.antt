-- ===== src/Consensus/Engine/Stalls.antt =====
-- The engine (consensus/engine.go) after a commit that fails, and at votes and proposals of other blocks.
use abcfe.Base.{
  ℕ, ◌+◌, [], Option, none, some, true, add64, ◌≡◌, ◌≢◌, refl, sym, subst, arith, u64_mod, ◌<◌,
}
use abcfe.Core.Types.{Hash, Block, Config}
use abcfe.Core.Errors.{Error, ok, err}
use abcfe.Core.Crypto.{Crypto}
use abcfe.Core.Store.{LevelDb}
use abcfe.Core.Validate.{validate_block, validate_genesis_block}
use abcfe.Core.Chain.{Chain, add_block, settle, update_chain_state}
use abcfe.Consensus.Validators.{Validator, get_active_validators}
use abcfe.Consensus.Votes.{VoteSet}
use abcfe.Consensus.Commit.{proposer_validator}
use abcfe.Consensus.Selection.{Seeds}
use abcfe.Consensus.State.{update_height, increment_round}
use abcfe.Consensus.Engine.{
  Engine, Env, seal, proposer_at, stop_round_timer, start_round_timer, cast_vote,
  commit_block_with_signatures,
}
use abcfe.Consensus.Engine.Handlers.{
  has_proposed, has_prevotes, run_turn, run_round, accept_proposal, handle_proposal,
}
use abcfe.Consensus.Engine.Safety.{cons_of}

module _ (cfg : Config) (c : Crypto) (ldb : LevelDb) (seeds : Seeds) where
  open ldb use {Db}

  -- The next height has a proposed block and vote sets.
  pub record IsWaiting (e : Engine Db) : Type 0 where
    pub height : e.consensus.current_height ≡ add64 e.chain.latest_height 1
    pub proposed : has_proposed e (add64 e.chain.latest_height 1) ≡ true
    pub votes : has_prevotes e (add64 e.chain.latest_height 1) ≡ true
    pub active : get_active_validators e.consensus.validator_set ≢ []

  IsWaiting-run_round :
      (env : Env Db) (e : Engine Db) → IsWaiting e → run_round cfg c ldb seeds env e ≡ e
  unfolding run_round run_turn
  IsWaiting-run_round env e w =
      let (v, rest, active) = cons_of (get_active_validators e.consensus.validator_set) w.active in
      ground (arith, active, w.height, w.proposed, w.votes)

  -- When the final check of a commit fails, on a proposed block of the next height with vote sets for
  -- it, no timer runs any more and no round changes anything, whatever the clock says.
  pub commit_block_with_signatures-stalls :
      (env later : Env Db) (blk : Block) (e : Engine Db) (x : Error)
      → IsWaiting e
      → blk.header.height ≡ add64 e.chain.latest_height 1
      → validate_block cfg c ldb e.chain.db
          (some (proposer_validator c e.consensus.validator_set))
          env.now
          (seal e.precommits blk)
          true
        ≡ err x
      → ((commit_block_with_signatures cfg c ldb seeds env blk e).round_timer ≡ none)
        × (run_round cfg c ldb seeds later (commit_block_with_signatures cfg c ldb seeds env blk e)
            ≡ commit_block_with_signatures cfg c ldb seeds env blk e)
  unfolding commit_block_with_signatures stop_round_timer increment_round
  commit_block_with_signatures-stalls env later blk e x w h bad =
      let same : (commit_block_with_signatures cfg c ldb seeds env blk e).consensus.validator_set
          ≡ e.consensus.validator_set =
        ground (arith, bad) in
      let e' = commit_block_with_signatures cfg c ldb seeds env blk e in
      (
        ground (arith, bad),
        IsWaiting-run_round later e' (record {
          height = ground (arith, bad, w.height);
          proposed = ground (arith, bad, h, w.proposed);
          votes = ground (arith, bad, w.votes);
          active = subst (λ w'. get_active_validators w' ≢ []) (sym same) w.active;
        }),
      )

  seal-height : (o : Option VoteSet) (blk : Block) → (seal o blk).header.height ≡ blk.header.height
  seal-height o blk = ground arith

  seal-validate_genesis_block :
      (o : Option VoteSet) (blk : Block)
      → validate_genesis_block c (seal o blk) ≡ validate_genesis_block c blk
  unfolding validate_genesis_block
  seal-validate_genesis_block none blk = refl
  seal-validate_genesis_block (some vs) blk = refl

  add_block-zero :
      (ch ch' : Chain Db) (blk : Block)
      → add_block ldb ch blk ≡ (ch', ok tt)
      → blk.header.height ≡ 0
      → ch'.latest_height ≡ 0
  unfolding add_block settle update_chain_state
  add_block-zero ch ch' blk h zero = ground (arith, h, zero)

  -- A block of height 0 with the contents of a genesis block, in a proposal for the next height by
  -- the proposer of the round, becomes the proposed block of a node. When a node that has collected
  -- whatever precommits commits it and `AddBlock` succeeds, its latest height is 0.
  pub handle_proposal-genesis :
      (env : Env Db) (height round : ℕ) (hash : Hash) (blk : Block) (e f : Engine Db)
      (p : Validator) (ch : Chain Db)
      → height ≡ e.chain.latest_height + 1
      → height < u64_mod
      → proposer_at cfg c ldb seeds e height round ≡ some p
      → blk.proposer ≡ p.address
      → blk.header.height ≡ 0
      → validate_genesis_block c blk ≡ ok tt
      → add_block ldb f.chain (seal f.precommits blk) ≡ (ch, ok tt)
      → ((handle_proposal cfg c ldb seeds env height round hash blk e).proposed_block ≡ some blk)
        × ((commit_block_with_signatures cfg c ldb seeds env blk f).chain.latest_height ≡ 0)
  unfolding handle_proposal accept_proposal start_round_timer cast_vote commit_block_with_signatures
      validate_block update_height
  handle_proposal-genesis env height round hash blk e f p ch h small sel mine zero genesis done = (
    ground (arith, h, small, sel, mine, zero, genesis),
    ground (
      arith,
      seal-height f.precommits blk,
      seal-validate_genesis_block f.precommits blk,
      zero,
      genesis,
      add_block-zero f.chain ch (seal f.precommits blk) done,
      done,
    ),
  )
