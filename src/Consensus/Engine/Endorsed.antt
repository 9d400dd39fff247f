-- ===== src/Consensus/Engine/Endorsed.antt =====
-- The votes of a vote set (consensus/type.go) as a commit: `ValidateCommitSignatures` of
-- consensus/consensus.go on them.
use abcfe.Base.{
  ℕ, ◌+◌, ◌%◌, ◌<◌, List, [], ◌∷◌, some, true, false, add64, ◌≡◌, refl, ap, arith, u64_mod, All,
  NoRepeat, contains, inl, inr, Option-cases, Bool-cases, ◌==◌,
}
use abcfe.Base.Assoc.{Dict, lookup, insert, keys, values}
use abcfe.Core.Types.{Hash, Address}
use abcfe.Core.Errors.{ok}
use abcfe.Core.Crypto.{Crypto}
use abcfe.Consensus.Validators.{Validator, ValidatorSet, voter, validate_block_signature}
use abcfe.Consensus.Votes.{
  Vote, VoteSet, precommit, add_vote, has_two_thirds_majority, tally, IsTally, matches,
}
use abcfe.Consensus.Commit.{count_commits, validate_commit_signatures}
use abcfe.Consensus.Commit.Quorum.{power_at}
use abcfe.Consensus.Engine.{to_commit_signatures}

module _ (c : Crypto) (vs : ValidatorSet) (hash : Hash) where
  -- The active validator at the address signed the block.
  abbrev pub Endorses : Address → Vote → Type 0
  Endorses a v =
      (w : Validator) × (voter vs a ≡ some w)
      × (v.voter_id ≡ a)
      × (validate_block_signature c w hash v.signature ≡ true)

  abbrev pub AllEndorse : Dict Vote → Type 0
  AllEndorse [] = Unit
  AllEndorse ((a, v) ∷ d) = Endorses a v × AllEndorse d

  abbrev pub power : Address → ℕ
  power a = power_at (voter vs a)

  insert-AllEndorse :
      (v : Vote) (d : Dict Vote)
      → Endorses v.voter_id v
      → AllEndorse d
      → AllEndorse (insert v.voter_id v d)
  insert-AllEndorse v [] h m = (h, tt)
  insert-AllEndorse v ((a, w) ∷ d) h m = elim (Bool-cases (a == v.voter_id)) [
    | inl same ↦ rw same (h, m.1)
    | inr other ↦ rw other (m.0, insert-AllEndorse v d h m.1)
  ]

  pub add_vote-AllEndorse :
      (s : VoteSet) (v : Vote) (n : ℕ)
      → Endorses v.voter_id v
      → AllEndorse s.votes
      → AllEndorse (add_vote s v n).0.votes
  unfolding add_vote
  add_vote-AllEndorse s v n h m = elim (Bool-cases (matches s v)) [
    | inr e ↦ rw e m
    | inl e ↦ elim (Option-cases (lookup v.voter_id s.votes)) [
      | inr (w, l) ↦ rw e (rw l m)
      | inl l ↦ rw e (rw l (insert-AllEndorse v s.votes h m))
    ]
  ]

  Apart-cons :
      (a : Address) (seen bs : List Address)
      → contains a bs ≡ false
      → All (λ b. contains b seen ≡ false) bs
      → All (λ b. contains b (a ∷ seen) ≡ false) bs
  Apart-cons a seen [] n h = tt
  Apart-cons a seen (b ∷ bs) n h = ground (arith, n, h, Apart-cons a seen bs)

  Apart-nil : (bs : List Address) → All (λ b. contains b [] ≡ false) bs
  Apart-nil [] = tt
  Apart-nil (b ∷ bs) = (refl, Apart-nil bs)

  -- The votes of a set count their voters' power.
  count_commits-AllEndorse :
      (seen : List Address) (voted : ℕ) (d : Dict Vote)
      → voted < u64_mod
      → NoRepeat (keys d)
      → All (λ b. contains b seen ≡ false) (keys d)
      → AllEndorse d
      → count_commits c vs hash seen voted (to_commit_signatures (values d))
        ≡ ok ((voted + tally power (keys d)) % u64_mod)
  unfolding count_commits
  count_commits-AllEndorse seen voted [] lt once apart m = ap ok (omega (arith, lt))
  count_commits-AllEndorse seen voted ((a, v) ∷ d) lt once apart m =
      let (w, member, same, signed) = m.0 in
      let rest =
        count_commits-AllEndorse (a ∷ seen) (add64 voted w.voting_power) d (omega arith) once.1
          (Apart-cons a seen (keys d) once.0 apart.1) m.1 in
      ground (arith, same, apart.0, member, signed, rest)

  pub validate_commit_signatures-majority :
      (height round : ℕ) (s : VoteSet)
      → IsTally power height round precommit s
      → AllEndorse s.votes
      → has_two_thirds_majority s vs.total_voting_power ≡ true
      → validate_commit_signatures c vs hash (to_commit_signatures (values s.votes)) ≡ ok tt
  unfolding validate_commit_signatures has_two_thirds_majority
  validate_commit_signatures-majority height round s t m h =
      let e =
        count_commits-AllEndorse [] 0 s.votes (omega arith) t.once (Apart-nil (keys s.votes)) m in
      ground (arith, e, t.sum, h)
