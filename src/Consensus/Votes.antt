-- ===== src/Consensus/Votes.antt =====
-- The vote sets of consensus/type.go.
use abcfe.Base.{
  ℕ, ◌+◌, ◌*◌, ◌%◌, ◌<◌, List, [], ◌∷◌, none, some, Bool, true, false, not, ◌==◌, ◌&&◌, ltb,
  if◌then◌else◌, add64, mul64, u64_mod, ◌≡◌, refl, arith, ◌↔◌, NoRepeat, subst, sym, inl, inr,
  Option-cases, Bool-cases,
}
use abcfe.Base.Assoc.{Dict, lookup, insert, keys, insert-NoRepeat}
use abcfe.Base.Int.{ℤ}
use abcfe.Core.Types.{Hash, Address, Signature}

pub data VoteType : Type 0 where
  prevote precommit : VoteType

abbrev pub vote_type_eq : VoteType → VoteType → Bool
vote_type_eq prevote prevote = true
vote_type_eq precommit precommit = true
vote_type_eq _ _ = false

pub record Vote : Type 0 where
  pub height : ℕ
  pub round : ℕ
  pub vote_type : VoteType
  pub block_hash : Hash
  pub voter_id : Address
  pub signature : Signature
  pub timestamp : ℤ

pub record VoteSet : Type 0 where
  pub height : ℕ
  pub round : ℕ
  pub vote_type : VoteType
  pub votes : Dict Vote
  pub voted_power : ℕ

-- `NewVoteSet`
unfoldable pub new_vote_set : ℕ → ℕ → VoteType → VoteSet
new_vote_set height round type = record {
  height = height;
  round = round;
  vote_type = type;
  votes = [];
  voted_power = 0;
}

-- The vote is for the height, the round and the step of the set.
abbrev pub matches : VoteSet → Vote → Bool
matches vs v =
    vs.height == v.height && (vs.round == v.round && vote_type_eq vs.vote_type v.vote_type)

-- `AddVote`
unfoldable pub add_vote : VoteSet → Vote → ℕ → VoteSet × Bool
add_vote vs v power =
    if not (matches vs v) then (vs, false) else elim (lookup v.voter_id vs.votes) [
      | some _ ↦ (vs, false)
      | none ↦ (
        record vs {
          votes = insert v.voter_id v vs.votes;
          voted_power = add64 vs.voted_power power;
        },
        true,
      )
    ]

-- `HasTwoThirdsMajority`
unfoldable pub has_two_thirds_majority : VoteSet → ℕ → Bool
has_two_thirds_majority vs total = ltb (mul64 total 2) (mul64 vs.voted_power 3)

-- `AddVote` for each vote in turn, with the power that its voter has.
unfoldable pub add_votes : (Address → ℕ) → VoteSet → List Vote → VoteSet
add_votes power vs [] = vs
add_votes power vs (v ∷ votes) = add_votes power (add_vote vs v (power v.voter_id)).0 votes

abbrev pub tally : (Address → ℕ) → List Address → ℕ
tally power [] = 0
tally power (a ∷ as') = power a + tally power as'

abbrev pub AllMatch : ℕ → ℕ → VoteType → Dict Vote → Type 0
AllMatch height round type [] = Unit
AllMatch height round type ((a, v) ∷ d) =
    (a ≡ v.voter_id)
    × (v.height ≡ height)
    × (v.round ≡ round)
    × (v.vote_type ≡ type)
    × AllMatch height round type d

-- Every voter stands once in the set, with a vote of his for its height, round and step, and the
-- power of the set is the voters', modulo 2^64.
pub record IsTally (power : Address → ℕ) (height round : ℕ) (type : VoteType) (vs : VoteSet)
    : Type 0 where
  pub for : (vs.height ≡ height) × (vs.round ≡ round) × (vs.vote_type ≡ type)
  pub once : NoRepeat (keys vs.votes)
  pub own : AllMatch height round type vs.votes
  pub sum : vs.voted_power ≡ tally power (keys vs.votes) % u64_mod

vote_type_eq-≡ : (s t : VoteType) → vote_type_eq s t ≡ true → s ≡ t
vote_type_eq-≡ prevote prevote h = refl
vote_type_eq-≡ precommit precommit h = refl
vote_type_eq-≡ prevote precommit h = cc
vote_type_eq-≡ precommit prevote h = cc

insert-AllMatch :
    (height round : ℕ) (type : VoteType) (v : Vote) (d : Dict Vote)
    → v.height ≡ height
    → v.round ≡ round
    → v.vote_type ≡ type
    → AllMatch height round type d
    → AllMatch height round type (insert v.voter_id v d)
insert-AllMatch height round type v [] h r t m = ground (arith, h, r, t)
insert-AllMatch height round type v ((a, w) ∷ d) h r t m =
    ground (arith, h, r, t, insert-AllMatch height round type v d h r t m.4)

insert-tally :
    (power : Address → ℕ) (v : Vote) (d : Dict Vote)
    → lookup v.voter_id d ≡ none
    → tally power (keys (insert v.voter_id v d)) ≡ tally power (keys d) + power v.voter_id
insert-tally power v [] h = omega arith
insert-tally power v ((a, w) ∷ d) h = ground (arith, insert-tally power v d)

module _ (power : Address → ℕ) (height round : ℕ) (type : VoteType) where
  pub add_vote-IsTally :
      (vs vs' : VoteSet) (v : Vote)
      → (add_vote vs v (power v.voter_id)).0 ≡ vs'
      → IsTally power height round type vs
      → IsTally power height round type vs'
  unfolding add_vote
  add_vote-IsTally vs vs' v h inv = elim (Bool-cases (matches vs v)) [
    | inr e ↦ subst (IsTally power height round type) (ground (arith, h, e)) inv
    | inl e ↦ elim (Option-cases (lookup v.voter_id vs.votes)) [
      | inr (w, l) ↦ subst (IsTally power height round type) (ground (arith, h, e, l)) inv
      | inl l ↦
          let (eh, er, et) = inv.for in
          let votes' : vs'.votes ≡ insert v.voter_id v vs.votes = ground (arith, h, e, l) in
          record {
            for = ground (arith, h, e, l, eh, er, et);
            once =
                subst (λ d. NoRepeat (keys d)) (sym votes')
                  (insert-NoRepeat v.voter_id v vs.votes inv.once);
            own = subst (AllMatch height round type) (sym votes') (
                insert-AllMatch height round type v vs.votes (ground (arith, e, eh))
                  (ground (arith, e, er))
                  (ground (arith, e, et, vote_type_eq-≡ vs.vote_type v.vote_type)) inv.own);
            sum = ground (arith, h, e, l, votes', inv.sum, insert-tally power v vs.votes l);
          }
    ]
  ]

  add_votes-IsTally :
      (vs : VoteSet) (votes : List Vote)
      → IsTally power height round type vs
      → IsTally power height round type (add_votes power vs votes)
  unfolding add_votes
  add_votes-IsTally vs [] inv = inv
  add_votes-IsTally vs (v ∷ votes) inv =
      add_votes-IsTally (add_vote vs v (power v.voter_id)).0 votes
        (add_vote-IsTally vs (add_vote vs v (power v.voter_id)).0 v refl inv)

  -- Votes arrive at a new vote set, any number in any order. When twice the total and three times
  -- the power of the voters in the set are below 2^64, the set holds each voter once, with a vote of
  -- his for its height, round and step, and `HasTwoThirdsMajority` says whether the voters have more
  -- than two thirds of the total.
  add_votes-majority :
      (votes : List Vote) (total : ℕ)
      → 2 * total < u64_mod
      → 3 * tally power (keys (add_votes power (new_vote_set height round type) votes).votes)
        < u64_mod
      → IsTally power height round type (add_votes power (new_vote_set height round type) votes)
        × ((has_two_thirds_majority (add_votes power (new_vote_set height round type) votes) total
              ≡ true)
            ↔ (2 * total
                < 3
                  * tally power
                      (keys (add_votes power (new_vote_set height round type) votes).votes)))
  unfolding has_two_thirds_majority new_vote_set
  add_votes-majority votes total small small' =
      let inv =
        add_votes-IsTally (new_vote_set height round type) votes
          (record { for = (refl, refl, refl); once = tt; own = tt; sum = ground arith }) in
      (inv, ground (arith, inv.sum, small, small'))
