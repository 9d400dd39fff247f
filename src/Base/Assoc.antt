-- ===== src/Base/Assoc.antt =====
-- A Go map with a numeric key, as an association list. Its order stands for the order in which
-- a `range` visits the map, which Go leaves open; the theorems hold for every list.
use Prim.Native.Nat.{ℕ}
use mathlib.Core.Path.{◌≡◌, refl}
use mathlib.Core.Bool.{Bool, true, false, ◌||◌}
use mathlib.Core.Option.{Option, none, some}
use mathlib.Core.List.{List, [], ◌∷◌}
use native.Mathlib.Omega.{arith}
use abcfe.Base.Tests.{◌==◌, if◌then◌else◌}
use abcfe.Base.Lists.{contains, NoRepeat}

abbrev pub Dict {ℓ} : Type ℓ → Type ℓ
Dict V = List (ℕ × V)

module _ {ℓ} {V : Type ℓ} where
  abbrev pub lookup : ℕ → Dict V → Option V
  lookup k [] = none
  lookup k ((j, v) ∷ d) = if j == k then some v else lookup k d

  abbrev pub has_key : ℕ → Dict V → Bool
  has_key k [] = false
  has_key k ((j, v) ∷ d) = if j == k then true else has_key k d

  -- `d[k] = v`
  abbrev pub insert : ℕ → V → Dict V → Dict V
  insert k v [] = (k, v) ∷ []
  insert k v ((j, w) ∷ d) = if j == k then (k, v) ∷ d else (j, w) ∷ insert k v d

  -- `delete(d, k)`
  abbrev pub erase : ℕ → Dict V → Dict V
  erase k [] = []
  erase k ((j, w) ∷ d) = if j == k then erase k d else (j, w) ∷ erase k d

  abbrev pub keys : Dict V → List ℕ
  keys [] = []
  keys ((j, v) ∷ d) = j ∷ keys d

  abbrev pub values : Dict V → List V
  values [] = []
  values ((j, v) ∷ d) = v ∷ values d

  pub lookup-insert :
      (k j : ℕ) (v : V) (d : Dict V)
      → lookup j (insert k v d) ≡ (if k == j then some v else lookup j d)
  lookup-insert k j v [] = refl
  lookup-insert k j v ((i, w) ∷ d) = ground (arith, lookup-insert k j v d)

  pub lookup-erase :
      (k j : ℕ) (d : Dict V) → lookup j (erase k d) ≡ (if k == j then none else lookup j d)
  lookup-erase k j [] = ground arith
  lookup-erase k j ((i, w) ∷ d) = ground (arith, lookup-erase k j d)

  pub contains-keys : (k : ℕ) (d : Dict V) → contains k (keys d) ≡ has_key k d
  contains-keys k [] = refl
  contains-keys k ((i, w) ∷ d) = ground (arith, contains-keys k d)

  pub contains-keys-none : (k : ℕ) (d : Dict V) → lookup k d ≡ none → contains k (keys d) ≡ false
  contains-keys-none k [] h = refl
  contains-keys-none k ((i, w) ∷ d) h = ground (arith, contains-keys-none k d)

  pub contains-erase :
      (k j : ℕ) (d : Dict V) → contains j (keys d) ≡ false → contains j (keys (erase k d)) ≡ false
  contains-erase k j [] h = refl
  contains-erase k j ((i, w) ∷ d) h = ground (arith, contains-erase k j d)

  pub erase-NoRepeat : (k : ℕ) (d : Dict V) → NoRepeat (keys d) → NoRepeat (keys (erase k d))
  erase-NoRepeat k [] h = tt
  erase-NoRepeat k ((i, w) ∷ d) h = ground (arith, erase-NoRepeat k d h.1, contains-erase k i d h.0)

  pub contains-insert :
      (k j : ℕ) (v : V) (d : Dict V)
      → contains j (keys (insert k v d)) ≡ (j == k || contains j (keys d))
  contains-insert k j v [] = refl
  contains-insert k j v ((i, w) ∷ d) = ground (arith, contains-insert k j v d)

  pub insert-NoRepeat :
      (k : ℕ) (v : V) (d : Dict V) → NoRepeat (keys d) → NoRepeat (keys (insert k v d))
  insert-NoRepeat k v [] h = (refl, tt)
  insert-NoRepeat k v ((i, w) ∷ d) h =
      ground (arith, insert-NoRepeat k v d h.1, contains-insert k i v d)
