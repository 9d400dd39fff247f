-- ===== src/App/Blocks.antt =====
-- What the block handler of app/app.go adds to the chain.
use abcfe.Base.{
  ℕ, zero, suc, ◌≤◌, ◌<◌, [], ◌∷◌, some, true, ◌==◌, ◌&&◌, ltb, leb, length, add64, ◌≡◌, ◌⊎◌, refl,
  sym, subst, ◌∙◌, arith, inl, inr, Option-cases, Bool-cases,
}
use abcfe.Base.Assoc.{Dict, lookup, erase}
use abcfe.Core.Types.{Block, Config}
use abcfe.Core.Errors.{Result-cases}
use abcfe.Core.Crypto.{Crypto}
use abcfe.Core.Store.{LevelDb}
use abcfe.Core.Validate.{validate_block}
use abcfe.Core.Chain.{add_block}
use abcfe.Consensus.Commit.{proposer_validator}
use abcfe.Consensus.Selection.{Seeds}
use abcfe.Consensus.State.{update_height}
use abcfe.Consensus.Engine.{Env}
use abcfe.Consensus.Engine.Steps.{Grown, here, added}
use abcfe.Consensus.Engine.History.{Grown-trans}
use abcfe.App.{
  App, Gossip, sync_height, gossip, hold_block, import_block, drain, take_block, handle_block,
}

erase-le : {V : Type 0} (k : ℕ) (d : Dict V) → length (erase k d) ≤ length d
erase-le k [] = omega arith
erase-le k ((j, v) ∷ d) = ground (arith, erase-le k d)

-- Taking a kept block away leaves fewer.
erase-lt :
    {V : Type 0} (k : ℕ) (v : V) (d : Dict V) → lookup k d ≡ some v → length (erase k d) < length d
erase-lt k v [] h = cc
erase-lt k v ((j, w) ∷ d) h = ground (arith, erase-le k d, erase-lt k v d)

module _ (cfg : Config) (c : Crypto) (ldb : LevelDb) (seeds : Seeds) where
  open ldb use {Db}

  -- The consensus is the same but for its height, and the chain has grown.
  pub record Follows (a b : App Db) : Type 0 where
    pub consensus :
        (b.consensus ≡ a.consensus) ⊎ ((h : ℕ) × (b.consensus ≡ update_height a.consensus h))
    pub same : b.consensus.validator_set ≡ a.consensus.validator_set
    pub grown : Grown cfg c ldb seeds a.consensus.validator_set a.chain b.chain

  Follows-trans : {a b d : App Db} → Follows a b → Follows b d → Follows a d
  unfolding update_height
  Follows-trans {a} {b} {d} f g = record {
    consensus = ground (arith, f.consensus, g.consensus);
    same = g.same ∙ f.same;
    grown =
        Grown-trans cfg c ldb seeds f.grown
          (subst (λ w. Grown cfg c ldb seeds w b.chain d.chain) f.same g.grown);
  }

  still : (a b : App Db) → (b.consensus ≡ a.consensus) × (b.chain ≡ a.chain) → Follows a b
  still a b (s, e) = record {
    consensus = inl s;
    same = ground (arith, s);
    grown = subst (λ ch. Grown cfg c ldb seeds a.consensus.validator_set a.chain ch) (sym e) here;
  }

  sync_height-still : (blk : Block) (a : App Db) → Follows a (sync_height blk a)
  unfolding sync_height update_height
  sync_height-still blk a = record {
    consensus = inr (add64 blk.header.height 1, refl);
    same = refl;
    grown = here;
  }

  import_block-Follows :
      (env : Env Db) (blk : Block) (a : App Db) → Follows a (import_block cfg c ldb env blk a).1
  unfolding import_block
  import_block-Follows env blk a =
      elim (Result-cases (
        validate_block cfg c ldb a.chain.db (some (proposer_validator c a.consensus.validator_set))
          env.now blk true)) [
            | inl (u, v) ↦
                let r = (add_block ldb a.chain blk).1 in
                let e : (import_block cfg c ldb env blk a).1.chain ≡ (add_block ldb a.chain blk).0 =
                  ground (arith, v) in
                record {
                  consensus = ground (arith, v);
                  same = ground (arith, v);
                  grown =
                      subst (λ ch. Grown cfg c ldb seeds a.consensus.validator_set a.chain ch)
                        (sym e) (added here env blk r v refl);
                }
            | inr (x, v) ↦ still a _ (ground (arith, v))
          ]

  import_block-pending :
      (env : Env Db) (blk : Block) (a : App Db)
      → (import_block cfg c ldb env blk a).1.pending ≡ a.pending
  unfolding import_block
  import_block-pending env blk a = ground arith

  -- With more fuel than blocks that are kept, the loop ends.
  drain-Follows :
      (env : Env Db) (fuel : ℕ) (blk : Block) (a : App Db)
      → length a.pending < fuel
      → (b : App Db) × (drain cfg c ldb env fuel blk a ≡ some b) × Follows a b
  unfolding drain sync_height
  drain-Follows env zero blk a lt = absurd (omega (arith, lt))
  drain-Follows env (suc fuel) blk a lt =
      let next = add64 blk.header.height 1 in
      elim (Option-cases (lookup next a.pending)) [
        | inl gone ↦ (a, ground (arith, gone), still a a (refl, refl))
        | inr (b, e) ↦
            let a' : App Db = record a { pending = erase next a.pending } in
            let before : Follows a a' = still a a' (refl, refl) in
            let step = Follows-trans before (import_block-Follows env b a') in
            let kept = import_block-pending env b a' in
            let imported = (import_block cfg c ldb env b a').1 in
            let fewer : length (sync_height b imported).pending < fuel =
              subst (λ p. length p < fuel) (sym kept)
                (omega (arith, lt, erase-lt next b a.pending e)) in
            elim (Bool-cases (import_block cfg c ldb env b a').0) [
              | inl done ↦
                  let (z, ez, fz) = drain-Follows env fuel b (sync_height b imported) fewer in
                  (
                    z,
                    ground (arith, e, done, ez),
                    Follows-trans step (Follows-trans (sync_height-still b imported) fz),
                  )
              | inr failed ↦ (imported, ground (arith, e, failed), step)
            ]
      ]

  -- The block handler ends on every block and state: its loop has enough fuel. It leaves the consensus
  -- as it is or changes it by an `UpdateHeight`, and each block that it adds to the chain has passed
  -- `ValidateBlock` with the check of the commit just before.
  pub handle_block-Follows :
      (env : Env Db) (blk : Block) (a : App Db)
      → (b : App Db) × (handle_block cfg c ldb env blk a ≡ some b) × Follows a b
  unfolding handle_block take_block hold_block sync_height
  handle_block-Follows env blk a =
      let step = import_block-Follows env blk a in
      let imported = (import_block cfg c ldb env blk a).1 in
      elim (Bool-cases (a.chain.latest_height == 0 && blk.header.height == 0)) [
        | inl first ↦ (imported, ground (arith, first), step)
        | inr other ↦ elim (Bool-cases (leb blk.header.height a.chain.latest_height)) [
          | inl old ↦ (a, ground (arith, other, old), still a a (refl, refl))
          | inr new ↦ elim (Bool-cases (ltb (add64 a.chain.latest_height 1) blk.header.height)) [
            | inl early ↦ (
              hold_block blk a,
              ground (arith, other, new, early),
              still a (hold_block blk a) (ground arith),
            )
            | inr next ↦ elim (Bool-cases (import_block cfg c ldb env blk a).0) [
              | inr failed ↦ (imported, ground (arith, other, new, next, failed), step)
              | inl done ↦
                  let a'' = gossip (Gossip.new_block blk) (sync_height blk imported) in
                  let (z, ez, fz) =
                    drain-Follows env (suc (length a''.pending)) blk a'' (omega arith) in
                  let before : Follows imported a'' =
                    Follows-trans (sync_height-still blk imported)
                      (still (sync_height blk imported) a'' (refl, refl)) in
                  (
                    z,
                    ground (arith, other, new, next, done, ez),
                    Follows-trans step (Follows-trans before fz),
                  )
            ]
          ]
        ]
      ]
