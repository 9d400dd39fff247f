-- ===== src/Core/Merkle.antt =====
-- `calculateMerkleRoot` and `buildMerkleTree` of core/transaction.go.
pub mod Binding
use abcfe.Base.{ℕ, zero, suc, ◌+◌, ◌≤◌, List, [], ◌∷◌, Option, none, some, ◌≡◌, refl, arith, length}
use abcfe.Core.Types.{Hash, Transaction}
use abcfe.Core.Crypto.{Crypto}

-- The IDs of the transactions, in order.
abbrev pub ids_of : List Transaction → List Hash
ids_of [] = []
ids_of (t ∷ ts) = t.id ∷ ids_of ts

module _ (c : Crypto) where
  open c use {hash_pair}

  -- The next level: an odd list has its last hash doubled.
  unfoldable pub next_level : List Hash → List Hash
  next_level [] = []
  next_level (x ∷ []) = hash_pair x x ∷ []
  next_level (x ∷ y ∷ hs) = hash_pair x y ∷ next_level hs

  -- The recursion on fuel; `none` if the fuel runs out, or for the empty list, on which the source
  -- would not return and which it never passes.
  unfoldable pub build_merkle_tree : ℕ → List Hash → Option Hash
  build_merkle_tree fuel [] = none
  build_merkle_tree fuel (x ∷ []) = some x
  build_merkle_tree zero (x ∷ y ∷ hs) = none
  build_merkle_tree (suc fuel) (x ∷ y ∷ hs) = build_merkle_tree fuel (next_level (x ∷ y ∷ hs))

  unfoldable pub root_of : List Hash → Option Hash
  unfolding build_merkle_tree next_level
  root_of hs = build_merkle_tree (length hs) hs

  -- `calculateMerkleRoot`
  unfoldable pub calculate_merkle_root : List Transaction → Hash
  unfolding root_of
  calculate_merkle_root [] = 0
  calculate_merkle_root (t ∷ ts) = elim (root_of (ids_of (t ∷ ts))) [ none ↦ 0 | some r ↦ r ]
