-- ===== src/Consensus/Engine/History.antt =====
-- The chain over the steps of the engine (consensus/engine.go), in every order of them.
use abcfe.Base.{
  [], ◌++◌, none, some, ◌==◌, ◌≡◌, ◌≢◌, refl, sym, subst, ap, ==_iff, ◌∙◌, arith, inl, inr, ◌⊎◌,
  Bool-cases,
}
use abcfe.Core.Types.{Block, Config}
use abcfe.Core.Crypto.{Crypto}
use abcfe.Core.Store.{LevelDb}
use abcfe.Core.Chain.{Chain, add_block, get_block_by_hash}
use abcfe.Core.Chain.Stored.{Stores, add_block-Stores}
use abcfe.Core.Mempool.{Mempool}
use abcfe.Core.Errors.{ok}
use abcfe.Consensus.Validators.{ValidatorSet, get_active_validators}
use abcfe.Consensus.Commit.Quorum.{IsWeighed, Quorum}
use abcfe.Consensus.Commit.Blocks.{validate_block-Quorum}
use abcfe.Consensus.Selection.{Seeds}
use abcfe.Consensus.State.{update_height}
use abcfe.Consensus.Engine.{Engine}
use abcfe.Consensus.Engine.Steps.{
  Grown, here, pooled, added, Step, round, proposal, vote, own_vote, timeout, outside, heard, Reach,
  start, later,
}
use abcfe.Consensus.Engine.Safety.{IsSound, run_round-IsSound, handle_proposal-IsSound}
use abcfe.Consensus.Engine.Safety.Events.{
  handle_vote-IsSound, run_cast-IsSound, handle_round_timeout-IsSound,
}

module _ (cfg : Config) (c : Crypto) (ldb : LevelDb) (seeds : Seeds) where
  open ldb use {Db}

  pub Grown-trans :
      {vs : ValidatorSet} {ch ch' ch'' : Chain Db}
      → Grown cfg c ldb seeds vs ch ch'
      → Grown cfg c ldb seeds vs ch' ch''
      → Grown cfg c ldb seeds vs ch ch''
  Grown-trans g here = g
  Grown-trans g (pooled h m) = pooled (Grown-trans g h) m
  Grown-trans g (added h env blk r v a) = added (Grown-trans g h) env blk r v a

  module _ (vs : ValidatorSet) (ch : Chain Db) (active : get_active_validators vs ≢ []) where
    Step-IsSound :
        {e f : Engine Db}
        → Step cfg c ldb seeds e f
        → IsSound cfg c ldb seeds vs ch e
        → IsSound cfg c ldb seeds vs ch f
    unfolding update_height
    Step-IsSound {e} (round env) s =
        run_round-IsSound cfg c ldb seeds vs ch env e
          (subst (λ w. get_active_validators w ≢ []) (sym s.same) active) s
    Step-IsSound {e} (proposal env height r hash blk) s =
        handle_proposal-IsSound cfg c ldb seeds vs ch env height r hash blk e s
    Step-IsSound {e} (vote env v) s = handle_vote-IsSound cfg c ldb seeds vs ch env v e s
    Step-IsSound {e} (own_vote env before after k q) s =
        run_cast-IsSound cfg c ldb seeds vs ch env k (record e { casts = before ++ after })
          (record { same = s.same; grown = s.grown })
    Step-IsSound {e} (timeout env height r g) s =
        handle_round_timeout-IsSound cfg c ldb seeds vs ch env height r
          (record e { round_timer = none }) (record { same = s.same; grown = s.grown })
          (Grown-trans s.grown
            (subst (λ w. Grown cfg c ldb seeds w e.chain (env.sync e.chain)) s.same g))
    Step-IsSound {e} (heard height) s = record { same = ground (arith, s.same); grown = s.grown }
    Step-IsSound {e} (outside ch' g) s = record {
      same = s.same;
      grown = Grown-trans s.grown (subst (λ w. Grown cfg c ldb seeds w e.chain ch') s.same g);
    }

    Reach-IsSound :
        {e f : Engine Db}
        → Reach cfg c ldb seeds e f
        → IsSound cfg c ldb seeds vs ch e
        → IsSound cfg c ldb seeds vs ch f
    Reach-IsSound start s = s
    Reach-IsSound (later r st) s = Step-IsSound st (Reach-IsSound r s)

  -- The chain's last hash is that of a block that is stored under it, and that block is signed by a
  -- quorum or is of height 0.
  pub record SignedTip (vs : ValidatorSet) (ch : Chain Db) : Type 0 where
    pub blk : Block
    pub named : ch.latest_block_hash ≡ some blk.header.hash
    pub stored : get_block_by_hash ldb ch.db blk.header.hash ≡ ok blk
    pub signed : (blk.header.height ≡ 0) ⊎ Quorum c vs blk.header.hash

  -- The last hash is the one of before, or that of such a block.
  abbrev Tip : ValidatorSet → Chain Db → Chain Db → Type 0
  Tip vs ch ch' = (ch'.latest_block_hash ≡ ch.latest_block_hash) ⊎ SignedTip vs ch'

  pooled-Tip :
      (vs : ValidatorSet) (ch ch' : Chain Db) (m : Mempool)
      → Tip vs ch ch'
      → Tip vs ch (record ch' { mempool = m })
  pooled-Tip vs ch ch' m (inl same) = inl same
  pooled-Tip vs ch ch' m (inr q) =
      inr (record { blk = q.blk; named = q.named; stored = q.stored; signed = q.signed })

  -- A block that is added either becomes the last one or leaves it stored, unless it has its hash
  -- and takes its place.
  Stores-Tip :
      (vs : ValidatorSet) (ch ch' ch'' : Chain Db) (blk : Block)
      → (blk.header.height ≡ 0) ⊎ Quorum c vs blk.header.hash
      → Stores ldb ch' blk ch''
      → Tip vs ch ch'
      → Tip vs ch ch''
  Stores-Tip vs ch ch' ch'' blk signed s t = elim s.named [
    | inr new ↦ inr (record { blk = blk; named = new; stored = s.found_by_hash; signed = signed })
    | inl old ↦ elim t [
      | inl same ↦ inl (old ∙ same)
      | inr q ↦ elim (Bool-cases (blk.header.hash == q.blk.header.hash)) [
        | inr other ↦ inr (record {
          blk = q.blk;
          named = old ∙ q.named;
          stored = s.others q.blk.header.hash other ∙ q.stored;
          signed = q.signed;
        })
        | inl again ↦ inr (record {
          blk = blk;
          named =
              old ∙ q.named ∙ ap some (sym ((==_iff blk.header.hash q.blk.header.hash).0 again));
          stored = s.found_by_hash;
          signed = signed;
        })
      ]
    ]
  ]

  Grown-Tip :
      (vs : ValidatorSet) {ch ch' : Chain Db}
      → IsWeighed vs
      → Grown cfg c ldb seeds vs ch ch'
      → Tip vs ch ch'
  Grown-Tip vs w here = inl refl
  Grown-Tip vs {ch} w (pooled {ch'} g m) = pooled-Tip vs ch ch' m (Grown-Tip vs w g)
  Grown-Tip vs {ch} w (added {ch'} {ch''} g env blk r v a) =
      let signed : (blk.header.height ≡ 0) ⊎ Quorum c vs blk.header.hash =
        elim (Bool-cases (blk.header.height == 0)) [
          | inl z ↦ inl (ground (arith, z))
          | inr z ↦
              inr
                (validate_block-Quorum c vs blk cfg ldb ch'.db env.now (λ y. ground (arith, z, y)) w
                  v).1
        ] in
      subst (Tip vs ch) (ap (λ p. p.0) a) (elim (add_block-Stores ldb ch' blk) [
        | inl same ↦ subst (Tip vs ch) (sym same) (Grown-Tip vs w g)
        | inr s ↦ Stores-Tip vs ch ch' (add_block ldb ch' blk).0 blk signed s (Grown-Tip vs w g)
      ])

  -- However the rounds, the messages of the peers, the own votes and the timeouts of an engine with
  -- a weighed set of validators interleave, its latest block hash is the one that it started with,
  -- or that of a block which its database holds under it, and which different active validators
  -- with more than two thirds of the power signed or which is of height 0. Here the chain changes
  -- beside the engine only by the mempool and by blocks that `ValidateBlock` accepts with the check
  -- of the commit.
  pub Reach-tip :
      {e f : Engine Db}
      → get_active_validators e.consensus.validator_set ≢ []
      → IsWeighed e.consensus.validator_set
      → Reach cfg c ldb seeds e f
      → (f.chain.latest_block_hash ≡ e.chain.latest_block_hash)
        ⊎ SignedTip e.consensus.validator_set f.chain
  Reach-tip {e} active w r =
      Grown-Tip e.consensus.validator_set w
        (Reach-IsSound e.consensus.validator_set e.chain active r
          (record { same = refl; grown = here })).grown
