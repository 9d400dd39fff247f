-- ===== src/Consensus/Commit/Quorum.antt =====
-- What `ValidateCommitSignatures` (consensus/consensus.go) accepts.
use abcfe.Base.{
  ℕ, ◌+◌, ◌*◌, ◌%◌, ◌<◌, ◌≤◌, List, [], ◌∷◌, ◌++◌, Option, none, some, true, false, ◌==◌, ◌||◌, ltb,
  add64, mul64, u64_mod, ◌≡◌, ◌≢◌, refl, arith, All, NoRepeat, contains, inl, inr, ◌⊎◌,
  Option-cases, Bool-cases, subst, sym, ==_iff,
}
use abcfe.Base.Assoc.{Dict, lookup, erase, lookup-erase}
use abcfe.Core.Types.{Hash, Address, Signature, CommitSignature}
use abcfe.Core.Errors.{ok, Result-cases}
use abcfe.Core.Crypto.{Crypto}
use abcfe.Consensus.Validators.{
  Validator, ValidatorSet, voter, validate_block_signature, total_power,
}
use abcfe.Consensus.Commit.{count_commits, validate_commit_signatures}

-- The power of the validators at some addresses.
abbrev pub power_at : Option Validator → ℕ
power_at none = 0
power_at (some v) = v.voting_power

abbrev pub power_of : Dict Validator → List Address → ℕ
power_of d [] = 0
power_of d (a ∷ as') = power_at (lookup a d) + power_of d as'

power_of-erase :
    (a : Address) (d : Dict Validator) (as' : List Address)
    → contains a as' ≡ false
    → power_of (erase a d) as' ≡ power_of d as'
power_of-erase a d [] h = refl
power_of-erase a d (b ∷ bs) h = ground (arith, lookup-erase a b d, power_of-erase a d bs)

total_power-erase :
    (a : Address) (d : Dict Validator)
    → power_at (lookup a d) + total_power (erase a d) ≤ total_power d
total_power-erase a [] = omega arith
total_power-erase a ((b, v) ∷ d) = ground (arith, total_power-erase a d, erased_le d)
  where
    erased_le : (e : Dict Validator) → total_power (erase a e) ≤ total_power e
    erased_le [] = omega arith
    erased_le ((b, v) ∷ e) = ground (arith, erased_le e)

-- Different addresses have at most the whole power.
pub power_of-le :
    (d : Dict Validator) (as' : List Address) → NoRepeat as' → power_of d as' ≤ total_power d
power_of-le d [] h = omega arith
power_of-le d (a ∷ as') h =
    ground
      (arith, total_power-erase a d, power_of-erase a d as' h.0, power_of-le (erase a d) as' h.1)

power_of-append :
    (d : Dict Validator) (as' bs : List Address)
    → power_of d (as' ++ bs) ≡ power_of d as' + power_of d bs
power_of-append d [] bs = omega arith
power_of-append d (a ∷ as') bs = omega (arith, power_of-append d as' bs)

contains-append :
    (a : Address) (as' bs : List Address)
    → contains a (as' ++ bs) ≡ (contains a as' || contains a bs)
contains-append a [] bs = refl
contains-append a (b ∷ as') bs = ground (arith, contains-append a as' bs)

-- Two lists share an address, or are one list without repetition together.
shared_or_apart :
    (as' bs : List Address)
    → NoRepeat as'
    → NoRepeat bs
    → ((a : Address) × (contains a as' ≡ true) × (contains a bs ≡ true)) ⊎ NoRepeat (as' ++ bs)
shared_or_apart [] bs h k = inr k
shared_or_apart (a ∷ as') bs h k = elim (Bool-cases (contains a bs)) [
  | inl e ↦ inl (a, ground arith, e)
  | inr e ↦ elim (shared_or_apart as' bs h.1 k) [
    | inl (b, e', e'') ↦ inl (b, ground (arith, e'), e'')
    | inr apart ↦ inr (ground (arith, contains-append a as' bs, h.0, e), apart)
  ]
]

-- The validator at the address is active and signed the block.
pub record Signed (c : Crypto) (vs : ValidatorSet) (hash : Hash) (a : Address) : Type 0 where
  pub validator : Validator
  pub member : voter vs a ≡ some validator
  pub signature : Signature
  pub valid : validate_block_signature c validator hash signature ≡ true

-- The power recorded of the set is that of its validators, and three times it fits in 64 bits.
pub record IsWeighed (vs : ValidatorSet) : Type 0 where
  pub inhabited : vs.validators ≢ []
  pub total : vs.total_voting_power ≡ total_power vs.validators
  pub fits : 3 * total_power vs.validators < u64_mod

-- Different validators that signed the block hold more than two thirds of the power.
pub record Quorum (c : Crypto) (vs : ValidatorSet) (hash : Hash) : Type 0 where
  pub signers : List Address
  pub distinct : NoRepeat signers
  pub signed : All (Signed c vs hash) signers
  pub majority : 2 * total_power vs.validators < 3 * power_of vs.validators signers

All-contains :
    (P : Address → Type 0) (as' : List Address) (a : Address)
    → All P as'
    → contains a as' ≡ true
    → P a
All-contains P [] a h e = cc
All-contains P (b ∷ bs) a h e = elim (Bool-cases (a == b)) [
  | inl t ↦ subst P (sym ((==_iff a b).0 t)) h.0
  | inr f ↦ All-contains P bs a h.1 (ground (arith, e, f))
]

module _ (c : Crypto) (vs : ValidatorSet) (hash : Hash) where
  add_power :
      (a : Address) (v : Validator) (seen : List Address) (voted : ℕ)
      → voter vs a ≡ some v
      → voted ≡ power_of vs.validators seen % u64_mod
      → add64 voted v.voting_power ≡ power_of vs.validators (a ∷ seen) % u64_mod
  add_power a v seen voted o e = elim (Option-cases (lookup a vs.validators)) [
    | inl l ↦ ground (arith, o, l)
    | inr (w, l) ↦ ground (arith, o, l, e)
  ]

  count_commits-Signed :
      (seen : List Address) (voted : ℕ) (sigs : List CommitSignature) {n : ℕ}
      → NoRepeat seen
      → All (Signed c vs hash) seen
      → voted ≡ power_of vs.validators seen % u64_mod
      → count_commits c vs hash seen voted sigs ≡ ok n
      → (signers : List Address) × NoRepeat signers
        × All (Signed c vs hash) signers
        × (n ≡ power_of vs.validators signers % u64_mod)
  unfolding count_commits
  count_commits-Signed seen voted [] d g e h = (seen, d, g, ground arith)
  count_commits-Signed seen voted (s ∷ ss) d g e h =
      elim (Bool-cases (contains s.validator_address seen)) [
        | inl t ↦ count_commits-Signed seen voted ss d g e (ground (arith, t))
        | inr t ↦ elim (Option-cases (voter vs s.validator_address)) [
          | inl o ↦ count_commits-Signed seen voted ss d g e (ground (arith, t, o))
          | inr (v, o) ↦
              let ok_sig : validate_block_signature c v hash s.signature ≡ true =
                ground (arith, t, o) in
              count_commits-Signed (s.validator_address ∷ seen) (add64 voted v.voting_power) ss
                (t, d)
                (record { validator = v; member = o; signature = s.signature; valid = ok_sig }, g)
                (add_power s.validator_address v seen voted o e) (ground (arith, t, o))
        ]
      ]

  nonempty_accepts :
      (sigs : List CommitSignature)
      → vs.validators ≢ []
      → validate_commit_signatures c vs hash sigs ≡ ok tt
      → (n : ℕ) × (count_commits c vs hash [] 0 sigs ≡ ok n)
        × (ltb (mul64 vs.total_voting_power 2) (mul64 n 3) ≡ true)
  unfolding validate_commit_signatures
  nonempty_accepts sigs ne h = elim (Result-cases (count_commits c vs hash [] 0 sigs)) [
    | inl (n, e) ↦ (n, e, ground (arith, e, ne))
    | inr (x, e) ↦ ground (arith, e, ne)
  ]

  -- A commit is accepted of a weighed set of validators only if different active validators with
  -- more than two thirds of the power of all signed the block.
  pub validate_commit_signatures-Quorum :
      (sigs : List CommitSignature)
      → IsWeighed vs
      → validate_commit_signatures c vs hash sigs ≡ ok tt
      → Quorum c vs hash
  validate_commit_signatures-Quorum sigs w h =
      let (n, e, m) = nonempty_accepts sigs w.inhabited h in
      let (signers, d, g, sum) = count_commits-Signed [] 0 sigs tt tt (ground arith) e in
      record {
        signers = signers;
        distinct = d;
        signed = g;
        majority = ground (arith, m, sum, w.total, w.fits, power_of-le vs.validators signers d);
      }

-- Of a weighed set of validators, two blocks whose commits are both accepted have a common signer:
-- an active validator who signed the one and the other.
pub commits_share_signer :
    (c : Crypto) (vs : ValidatorSet) (hash hash' : Hash) (sigs sigs' : List CommitSignature)
    → IsWeighed vs
    → validate_commit_signatures c vs hash sigs ≡ ok tt
    → validate_commit_signatures c vs hash' sigs' ≡ ok tt
    → (a : Address) × Signed c vs hash a × Signed c vs hash' a
commits_share_signer c vs hash hash' sigs sigs' w h h' =
    let q = validate_commit_signatures-Quorum c vs hash sigs w h in
    let q' = validate_commit_signatures-Quorum c vs hash' sigs' w h' in
    elim (shared_or_apart q.signers q'.signers q.distinct q'.distinct) [
      | inl (a, e, e') ↦ (
        a,
        All-contains (Signed c vs hash) q.signers a q.signed e,
        All-contains (Signed c vs hash') q'.signers a q'.signed e',
      )
      | inr apart ↦ absurd (
          omega (
            arith,
            power_of-le vs.validators (q.signers ++ q'.signers) apart,
            power_of-append vs.validators q.signers q'.signers,
            q.majority,
            q'.majority,
          ))
    ]
