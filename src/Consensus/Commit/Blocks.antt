-- ===== src/Consensus/Commit/Blocks.antt =====
-- What `ValidateBlock` (core/validate.go) accepts when consensus/ is the validator that it asks.
use abcfe.Base.{some, true, ◌≡◌, ◌≢◌, refl, arith, inl, inr, Option-cases}
use abcfe.Base.Int.{ℤ}
use abcfe.Core.Types.{Block, Config}
use abcfe.Core.Errors.{ok, err}
use abcfe.Core.Crypto.{Crypto}
use abcfe.Core.Store.{LevelDb}
use abcfe.Core.Validate.{Check, validate_block, validate_commit, validate_proposer_signature}
use abcfe.Core.Validate.Accepted.{validate_block-Passes}
use abcfe.Consensus.Validators.{ValidatorSet, voter, check_proposer, check_proposer_signature}
use abcfe.Consensus.Commit.{validate_commit_signatures, proposer_validator, passes}
use abcfe.Consensus.Commit.Quorum.{IsWeighed, Signed, Quorum, validate_commit_signatures-Quorum}

module _ (c : Crypto) (vs : ValidatorSet) (blk : Block) where
  proposer-Signed :
      validate_proposer_signature blk (some (proposer_validator c vs)) ≡ ok tt
      → Signed c vs blk.header.hash blk.proposer
  unfolding validate_proposer_signature proposer_validator check_proposer check_proposer_signature
  proposer-Signed h = elim (Option-cases (voter vs blk.proposer)) [
    | inl e ↦ ground (arith, h, e)
    | inr (v, e) ↦ record {
      validator = v;
      member = e;
      signature = blk.signature;
      valid = ground (arith, h, e);
    }
  ]

  passes-eq-ok : (r : Check) → passes r ≡ true → r ≡ ok tt
  passes-eq-ok (ok tt) h = refl
  passes-eq-ok (err e) h = cc

  commit_checked :
      validate_commit blk true (some (proposer_validator c vs)) ≡ ok tt
      → validate_commit_signatures c vs blk.header.hash blk.commit_signatures ≡ ok tt
  unfolding validate_commit proposer_validator
  commit_checked h =
      passes-eq-ok (validate_commit_signatures c vs blk.header.hash blk.commit_signatures)
        (ground (arith, h))

  -- A block above height 0 that `ValidateBlock` accepts with the check of the commit, of a weighed
  -- set of validators, is signed by its proposer, who is an active validator, and by different
  -- active validators with more than two thirds of the power of all.
  pub validate_block-Quorum :
      (cfg : Config) (ldb : LevelDb) (db : ldb.Db) (now : ℤ)
      → blk.header.height ≢ 0
      → IsWeighed vs
      → validate_block cfg c ldb db (some (proposer_validator c vs)) now blk true ≡ ok tt
      → Signed c vs blk.header.hash blk.proposer × Quorum c vs blk.header.hash
  validate_block-Quorum cfg ldb db now n w h =
      let (prev, p) =
        validate_block-Passes cfg c ldb db (some (proposer_validator c vs)) now blk true n h in
      (
        proposer-Signed p.signed,
        validate_commit_signatures-Quorum c vs blk.header.hash blk.commit_signatures w
            (commit_checked p.commit),
      )
