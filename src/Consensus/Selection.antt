-- ===== src/Consensus/Selection.antt =====
-- consensus/selection.go. The validators come from a Go map in an order that is left open; sorting by
-- the hex text of a fixed-length address is sorting by its number. `Uint64` of the first bytes of
-- the SHA-256 of a seed is a parameter for each of the three seeds.
pub mod Weighted
pub mod Present
use abcfe.Base.{
  ℕ, zero, suc, ◌+◌, ◌%◌, List, [], ◌∷◌, Option, none, some, Bool, true, false, ◌==◌, ltb, leb,
  length, get_elem?, if◌then◌else◌, add64,
}
use abcfe.Core.Types.{Hash, Address}
use abcfe.Consensus.Validators.{Validator, ValidatorSet, get_active_validators}

pub record Seeds : Type 0 where
  -- of the previous hash, the height and the round: `SelectProposerVRF`
  pub vrf : Hash → ℕ → ℕ → ℕ
  -- of the previous hash and the height: `SelectProposerHybrid`
  pub base : Hash → ℕ → ℕ
  -- of the height and the previous hash: `SelectProposerWeighted`
  pub weighted : ℕ → Hash → ℕ

-- `sort.Slice` by address
abbrev pub insert_by_address : Validator → List Validator → List Validator
insert_by_address v [] = v ∷ []
insert_by_address v (w ∷ ws) =
    if leb v.address w.address then v ∷ w ∷ ws else w ∷ insert_by_address v ws

abbrev pub sort_by_address : List Validator → List Validator
sort_by_address [] = []
sort_by_address (v ∷ vs) = insert_by_address v (sort_by_address vs)

abbrev pub head : List Validator → Option Validator
head [] = none
head (v ∷ vs) = some v

-- The loop over the cumulative power: the first validator above the target.
unfoldable pub pick : ℕ → ℕ → List Validator → Option Validator
pick target cumulative [] = none
pick target cumulative (v ∷ vs) =
    let cumulative' = add64 cumulative v.voting_power in
    if ltb target cumulative' then some v else pick target cumulative' vs

-- The loop with its fallback, the first validator.
unfoldable pub pick_or_first : ℕ → List Validator → Option Validator
unfolding pick
pick_or_first target vs = elim (pick target 0 vs) [ some v ↦ some v | none ↦ head vs ]

-- `SelectProposer`
unfoldable pub select_proposer : ValidatorSet → ℕ → ℕ → Option Validator
unfolding get_active_validators
select_proposer vs height round = elim (sort_by_address (get_active_validators vs)) [
  | [] ↦ none
  | v ∷ rest ↦ get_elem? (v ∷ rest) (add64 height round % length (v ∷ rest))
]

-- `SelectProposerVRF`
unfoldable pub select_proposer_vrf : Seeds → ValidatorSet → ℕ → ℕ → Hash → Option Validator
unfolding get_active_validators pick_or_first
select_proposer_vrf seeds vs height round prev = elim (sort_by_address (get_active_validators vs)) [
  | [] ↦ none
  | v ∷ rest ↦
      if vs.total_voting_power == 0
      then get_elem? (v ∷ rest) (seeds.vrf prev height round % length (v ∷ rest))
      else pick_or_first (seeds.vrf prev height round % vs.total_voting_power) (v ∷ rest)
]

-- `SelectProposerHybrid`
unfoldable pub select_proposer_hybrid : Seeds → ValidatorSet → ℕ → ℕ → Hash → Option Validator
unfolding get_active_validators select_proposer_vrf
select_proposer_hybrid seeds vs height round prev =
    elim (sort_by_address (get_active_validators vs)) [
      | [] ↦ none
      | v ∷ rest ↦
          if round == 0
          then select_proposer_vrf seeds vs height round prev
          else get_elem? (v ∷ rest)
              (add64 (seeds.base prev height % length (v ∷ rest)) round % length (v ∷ rest))
    ]

-- `SelectProposerWeighted`, which does not sort: a run-time panic is `none`, at a total of 0.
unfoldable pub select_proposer_weighted :
    Seeds → ValidatorSet → ℕ → Hash → Option (Option Validator)
unfolding get_active_validators pick_or_first
select_proposer_weighted seeds vs height prev = elim (get_active_validators vs) [
  | [] ↦ some none
  | v ∷ rest ↦
      if vs.total_voting_power == 0
      then none
      else some (pick_or_first (seeds.weighted height prev % vs.total_voting_power) (v ∷ rest))
]

-- `IsProposer`
unfoldable pub is_proposer : ValidatorSet → Address → ℕ → ℕ → Bool
unfolding select_proposer
is_proposer vs a height round = elim (select_proposer vs height round) [
  | none ↦ false
  | some v ↦ v.address == a
]

-- The loop of `GetNextProposers`, of `count` heights.
unfoldable pub get_next_proposers : ValidatorSet → ℕ → ℕ → List (Option Validator)
unfolding select_proposer
get_next_proposers vs height zero = []
get_next_proposers vs height (suc n) =
    select_proposer vs height 0 ∷ get_next_proposers vs (add64 height 1) n

-- `SelectProposerByMode` of consensus.go
pub data Mode : Type 0 where
  vrf_mode hybrid_mode roundrobin_mode : Mode

unfoldable pub select_proposer_by_mode :
    Mode → Seeds → ValidatorSet → ℕ → ℕ → Hash → Option Validator
unfolding select_proposer select_proposer_vrf select_proposer_hybrid
select_proposer_by_mode vrf_mode seeds vs height round prev =
    select_proposer_vrf seeds vs height round prev
select_proposer_by_mode hybrid_mode seeds vs height round prev =
    select_proposer_hybrid seeds vs height round prev
select_proposer_by_mode roundrobin_mode seeds vs height round prev = select_proposer vs height round
