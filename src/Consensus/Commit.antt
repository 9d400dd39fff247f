-- ===== src/Consensus/Commit.antt =====
-- `ValidateCommitSignatures` of consensus/consensus.go.
pub mod Quorum
pub mod Blocks
use abcfe.Base.{
  ℕ, List, [], ◌∷◌, Option, none, some, Bool, true, false, not, ltb, if◌then◌else◌, add64, mul64,
  contains,
}
use abcfe.Core.Types.{Hash, Address, CommitSignature}
use abcfe.Core.Errors.{
  Result, ok, err, guard, ◌>>=◌, ◌>>◌, bad_commit_signature, insufficient_commits,
}
use abcfe.Core.Crypto.{Crypto}
use abcfe.Core.Validate.{Check, ProposerValidator}
use abcfe.Consensus.Validators.{
  Validator, ValidatorSet, voter, validate_block_signature, check_proposer,
  check_proposer_signature,
}

module _ (c : Crypto) (vs : ValidatorSet) (hash : Hash) where
  -- The loop over the signatures: the validators seen and the power voted so far.
  unfoldable pub count_commits : List Address → ℕ → List CommitSignature → Result ℕ
  count_commits seen voted [] = ok voted
  count_commits seen voted (s ∷ ss) =
      if contains s.validator_address seen
      then count_commits seen voted ss
      else elim (voter vs s.validator_address) [
        | none ↦ count_commits seen voted ss
        | some v ↦ do
          guard (validate_block_signature c v hash s.signature) bad_commit_signature
          count_commits (s.validator_address ∷ seen) (add64 voted v.voting_power) ss
      ]

  -- `ValidateCommitSignatures`
  unfoldable pub validate_commit_signatures : List CommitSignature → Check
  unfolding count_commits
  validate_commit_signatures sigs = elim vs.validators [
    | [] ↦ ok tt
    | _ ∷ _ ↦ do
      voted ← count_commits [] 0 sigs
      guard (ltb (mul64 vs.total_voting_power 2) (mul64 voted 3)) insufficient_commits
  ]

abbrev pub passes : Check → Bool
passes (ok _) = true
passes (err _) = false

-- The consensus as the `ProposerValidator` that core/ asks.
unfoldable pub proposer_validator : Crypto → ValidatorSet → ProposerValidator
proposer_validator c vs = record {
  validate_proposer_signature = check_proposer_signature c vs;
  is_valid_proposer = check_proposer vs;
  validate_commit_signatures = λ hash sigs. passes (validate_commit_signatures c vs hash sigs);
}
