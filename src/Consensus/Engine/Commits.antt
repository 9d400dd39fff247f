-- ===== src/Consensus/Engine/Commits.antt =====
-- The engine (consensus/engine.go) when precommits of enough validators have arrived.
use abcfe.Base.{
  ℕ, ◌+◌, ◌<◌, none, some, true, false, add64, ◌≡◌, ◌≢◌, refl, sym, subst, arith, u64_mod, inl, inr,
  Option-cases,
}
use abcfe.Base.Assoc.{lookup}
use abcfe.Base.Int.{ℤ}
use abcfe.Core.Types.{Block, Config}
use abcfe.Core.Errors.{ok, Result-cases}
use abcfe.Core.Crypto.{Crypto}
use abcfe.Core.Store.{LevelDb, Batch}
use abcfe.Core.Utxo.Invariant.{IsIndexed}
use abcfe.Core.Validate.{
  validate_block, validate_commit, validate_prev_hash, validate_merkle_root, validate_block_hash,
  validate_proposer, validate_proposer_signature,
}
use abcfe.Core.Validate.Accepted.{validate_block-Passes, Passes-validate_block}
use abcfe.Core.Chain.{Chain, add_block, block_batch, settle, update_chain_state, state_puts}
use abcfe.Core.Chain.Progress.{add_block-total}
use abcfe.Consensus.Validators.{
  Validator, ValidatorSet, voter, get_validator, validate_block_signature,
}
use abcfe.Consensus.Votes.{
  Vote, VoteSet, precommit, add_vote, has_two_thirds_majority, IsTally, add_vote-IsTally,
}
use abcfe.Consensus.Commit.{proposer_validator}
use abcfe.Consensus.Selection.{Seeds}
use abcfe.Consensus.State.{update_height}
use abcfe.Consensus.Engine.{Engine, Env, seal, stop_round_timer, commit_block_with_signatures}
use abcfe.Consensus.Engine.Handlers.{count_precommit, handle_vote}
use abcfe.Consensus.Engine.Endorsed.{
  AllEndorse, power, add_vote-AllEndorse, validate_commit_signatures-majority,
}

module _ (cfg : Config) (c : Crypto) (ldb : LevelDb) (seeds : Seeds) where
  open ldb use {Db}

  -- A block that is proposed passes the final check once enough precommits seal it.
  seal-valid :
      (db : Db) (now : ℤ) (vs : ValidatorSet) (blk : Block) (height round : ℕ) (s : VoteSet)
      → blk.header.height ≢ 0
      → validate_block cfg c ldb db (some (proposer_validator c vs)) now blk false ≡ ok tt
      → IsTally (power c vs blk.header.hash) height round precommit s
      → AllEndorse c vs blk.header.hash s.votes
      → has_two_thirds_majority s vs.total_voting_power ≡ true
      → validate_block cfg c ldb db (some (proposer_validator c vs)) now (seal (some s) blk) true
        ≡ ok tt
  unfolding validate_prev_hash validate_merkle_root validate_block_hash validate_proposer
      validate_proposer_signature validate_commit proposer_validator
  seal-valid db now vs blk height round s n valid t m h =
      let (prev, p) =
        validate_block-Passes cfg c ldb db (some (proposer_validator c vs)) now blk false n valid in
      Passes-validate_block cfg c ldb db (some (proposer_validator c vs)) now (seal (some s) blk)
        true prev n
        (record {
          stored = p.stored;
          prev_hash = p.prev_hash;
          merkle = p.merkle;
          hash = p.hash;
          height = p.height;
          time = p.time;
          proposer = p.proposer;
          signed = p.signed;
          commit =
              rw (validate_commit_signatures-majority c vs blk.header.hash height round s t m h)
                refl;
          count = p.count;
          ids = p.ids;
          refs = p.refs;
          txs = p.txs;
        })

  -- What a committed block leaves.
  pub record IsCommitted (blk : Block) (e : Engine Db) : Type 0 where
    pub height : e.chain.latest_height ≡ blk.header.height
    pub hash : e.chain.latest_block_hash ≡ some blk.header.hash
    pub next : e.consensus.current_height ≡ add64 blk.header.height 1
    pub cleared : (e.proposed_block ≡ none) × (e.precommits ≡ none)

  settle-advances :
      (ch ch' : Chain Db) (blk : Block)
      → ch.latest_height < blk.header.height
      → settle ldb ch blk ≡ (ch', ok tt)
      → (ch'.latest_height ≡ blk.header.height) × (ch'.latest_block_hash ≡ some blk.header.hash)
  unfolding settle update_chain_state
  settle-advances ch ch' blk lt h =
      elim (Option-cases (ldb.write ch.db (state_puts blk.header.height blk.header.hash))) [
        | inl e ↦ ground (arith, h, lt, e)
        | inr (db', e) ↦ ground (arith, h, lt, e)
      ]

  settled :
      (ch ch' : Chain Db) (blk : Block)
      → ch.latest_height < blk.header.height
      → add_block ldb ch blk ≡ (ch', ok tt)
      → (ch'.latest_height ≡ blk.header.height) × (ch'.latest_block_hash ≡ some blk.header.hash)
  unfolding add_block
  settled ch ch' blk lt h = elim (Result-cases (block_batch ldb ch.db blk)) [
    | inr (x, e) ↦ ground (arith, h, e)
    | inl (batch, e) ↦ elim (Option-cases (ldb.write ch.db batch)) [
      | inl e' ↦ ground (arith, h, e, e')
      | inr (db', e') ↦
          settle-advances (record ch { db = db' }) ch' blk lt (ground (arith, h, e, e'))
    ]
  ]

  commit_sealed :
      (env : Env Db) (e : Engine Db) (blk : Block) (ch' : Chain Db)
      → validate_block cfg c ldb e.chain.db
          (some (proposer_validator c e.consensus.validator_set))
          env.now
          (seal e.precommits blk)
          true
        ≡ ok tt
      → add_block ldb e.chain (seal e.precommits blk) ≡ (ch', ok tt)
      → ch'.latest_height ≡ blk.header.height
      → ch'.latest_block_hash ≡ some blk.header.hash
      → IsCommitted blk (commit_block_with_signatures cfg c ldb seeds env blk e)
  unfolding commit_block_with_signatures stop_round_timer update_height
  commit_sealed env e blk ch' valid added l1 l2 = record {
    height = ground (arith, valid, added, l1);
    hash = ground (arith, valid, added, l2);
    next = ground (arith, valid, added);
    cleared = (ground (arith, valid, added), ground (arith, valid, added));
  }

  -- A block of the next height is proposed, and the precommits for it are by active validators that
  -- signed it, each with his power.
  pub record IsDeciding (e : Engine Db) (s : VoteSet) (blk : Block) : Type 0 where
    pub precommits : e.precommits ≡ some s
    pub proposed : e.proposed_block ≡ some blk
    pub next : blk.header.height ≡ e.chain.latest_height + 1
    pub fits : blk.header.height < u64_mod
    pub tally :
        IsTally
          (power c e.consensus.validator_set blk.header.hash)
          blk.header.height
          e.consensus.current_round
          precommit
          s
    pub endorsed : AllEndorse c e.consensus.validator_set blk.header.hash s.votes

  pub count_precommit-commits :
      (writes : (db : Db) (b : Batch) → (db' : Db) × (ldb.write db b ≡ some db')) (env : Env Db)
      (e : Engine Db) (s : VoteSet) (blk : Block) (v : Vote) (w : Validator)
      → IsIndexed (ldb.get e.chain.db)
      → IsDeciding e s blk
      → validate_block cfg c ldb e.chain.db
          (some (proposer_validator c e.consensus.validator_set))
          env.now
          blk
          false
        ≡ ok tt
      → voter e.consensus.validator_set v.voter_id ≡ some w
      → validate_block_signature c w blk.header.hash v.signature ≡ true
      → has_two_thirds_majority
          (add_vote s v w.voting_power).0
          e.consensus.validator_set.total_voting_power
        ≡ true
      → IsCommitted blk (
          count_precommit cfg c ldb seeds env v w.voting_power
            e.consensus.validator_set.total_voting_power e)
  unfolding count_precommit
  count_precommit-commits writes env e s blk v w index d valid member signed enough =
      let vs = e.consensus.validator_set in
      let s' = (add_vote s v w.voting_power).0 in
      let e' : Engine Db = record e { precommits = some s' } in
      let n : blk.header.height ≢ 0 = λ z. omega (arith, d.next, z) in
      let t : IsTally (power c vs blk.header.hash) blk.header.height e.consensus.current_round
          precommit s' =
        add_vote-IsTally (power c vs blk.header.hash) blk.header.height e.consensus.current_round
          precommit s s' v (ground (arith, member)) d.tally in
      let m =
        add_vote-AllEndorse c vs blk.header.hash s v w.voting_power (w, member, refl, signed)
          d.endorsed in
      let sealed =
        seal-valid e.chain.db env.now vs blk blk.header.height e.consensus.current_round s' n valid
          t m enough in
      let (ch', added) =
        add_block-total cfg c ldb writes e.chain (some (proposer_validator c vs)) env.now
          (seal (some s') blk) true index n sealed in
      let (l1, l2) = settled e.chain ch' (seal (some s') blk) (omega (arith, d.next)) added in
      rw d.precommits (rw enough (rw d.proposed (commit_sealed env e' blk ch' sealed added l1 l2)))

  -- When the precommit that `HandleVote` takes in is for the proposed block of the next height, by
  -- an active validator that signed it, those before it are such votes too, and they have more than
  -- two thirds of the power with it, the block is committed: the chain ends with it, the engine is at
  -- the height after it, and its round is cleared. This holds of a block that `ValidateBlock` accepts
  -- without the check of the commit, a chain whose index is in order, and a database that takes
  -- every write.
  pub handle_vote-commits :
      (writes : (db : Db) (b : Batch) → (db' : Db) × (ldb.write db b ≡ some db')) (env : Env Db)
      (e : Engine Db) (s : VoteSet) (blk : Block) (v : Vote) (w : Validator)
      → IsIndexed (ldb.get e.chain.db)
      → IsDeciding e s blk
      → validate_block cfg c ldb e.chain.db
          (some (proposer_validator c e.consensus.validator_set))
          env.now
          blk
          false
        ≡ ok tt
      → (v.height ≡ blk.header.height)
        × (v.round ≡ e.consensus.current_round)
        × (v.vote_type ≡ precommit)
        × (v.block_hash ≡ blk.header.hash)
      → voter e.consensus.validator_set v.voter_id ≡ some w
      → validate_block_signature c w blk.header.hash v.signature ≡ true
      → has_two_thirds_majority
          (add_vote s v w.voting_power).0
          e.consensus.validator_set.total_voting_power
        ≡ true
      → IsCommitted blk (handle_vote cfg c ldb seeds env v e)
  unfolding handle_vote get_validator
  handle_vote-commits writes env e s blk v w index d valid (h, r, t, b) member signed enough =
      let done =
        count_precommit-commits writes env e s blk v w index d valid member signed enough in
      let reaches : handle_vote cfg c ldb seeds env v e
          ≡ count_precommit cfg c ldb seeds env v w.voting_power
              e.consensus.validator_set.total_voting_power e =
        elim (Option-cases (lookup v.voter_id e.consensus.validator_set.validators)) [
          | inl l ↦ ground (arith, member, l)
          | inr (w', l) ↦ ground (arith, member, l, h, r, t, b, signed, d.next, d.fits)
        ] in
      subst (IsCommitted blk) (sym reaches) done
