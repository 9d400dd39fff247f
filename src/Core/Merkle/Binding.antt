-- ===== src/Core/Merkle/Binding.antt =====
-- What a Merkle root (core/transaction.go) says of the transactions under it.
use abcfe.Base.{
  ℕ, zero, suc, ◌+◌, ◌≤◌, ◌*◌, List, [], ◌∷◌, ◌++◌, some, ◌≡◌, ◌≢◌, ◌∙◌, refl, ap, sym, ◌⊎◌, inl,
  inr, arith, length, ◌==◌, Bool-cases, ==_iff, length-append,
}
use abcfe.Core.Types.{Hash, Transaction}
use abcfe.Core.Crypto.{Crypto}
use abcfe.Core.Merkle.{ids_of, next_level, build_merkle_tree, root_of, calculate_merkle_root}

module _ (c : Crypto) where
  open c use {hash_pair}

  next_level-shorter :
      (x y : Hash) (hs : List Hash) → length (next_level c (x ∷ y ∷ hs)) ≤ suc (length hs)
  unfolding next_level
  next_level-shorter x y [] = omega arith
  next_level-shorter x y (z ∷ []) = omega arith
  next_level-shorter x y (z ∷ w ∷ hs) = omega (arith, next_level-shorter z w hs)

  -- A non-empty list has a root: the fuel, its length, is enough.
  build_merkle_tree-total :
      (fuel : ℕ) (x : Hash) (hs : List Hash)
      → length hs ≤ fuel
      → (r : Hash) × (build_merkle_tree c fuel (x ∷ hs) ≡ some r)
  unfolding build_merkle_tree next_level
  build_merkle_tree-total fuel x [] h = (x, ground arith)
  build_merkle_tree-total zero x (y ∷ hs) h = absurd (omega arith)
  build_merkle_tree-total (suc fuel) x (y ∷ hs) h =
      build_merkle_tree-total fuel (hash_pair x y) (next_level c hs) (rest hs (omega arith))
    where
      rest : (ks : List Hash) → length ks ≤ fuel → length (next_level c ks) ≤ fuel
      rest [] k = omega arith
      rest (z ∷ []) k = k
      rest (z ∷ w ∷ ks) k = omega (arith, next_level-shorter z w ks)

  -- More fuel than enough changes nothing.
  build_merkle_tree-fuel :
      (f g : ℕ) (hs : List Hash)
      → length hs ≤ f
      → length hs ≤ g
      → build_merkle_tree c f hs ≡ build_merkle_tree c g hs
  unfolding build_merkle_tree
  build_merkle_tree-fuel f g [] h k = ground arith
  build_merkle_tree-fuel f g (x ∷ []) h k = ground arith
  build_merkle_tree-fuel zero g (x ∷ y ∷ hs) h k = absurd (omega arith)
  build_merkle_tree-fuel (suc f) zero (x ∷ y ∷ hs) h k = absurd (omega arith)
  build_merkle_tree-fuel (suc f) (suc g) (x ∷ y ∷ hs) h k =
      build_merkle_tree-fuel f g (next_level c (x ∷ y ∷ hs))
        (omega (arith, next_level-shorter x y hs)) (omega (arith, next_level-shorter x y hs))

  -- Two different pairs of hashes with one SHA-256.
  pub record Collision : Type 0 where
    pub left : Hash
    pub right : Hash
    pub left' : Hash
    pub right' : Hash
    pub differ : (left ≢ left') ⊎ (right ≢ right')
    pub same : hash_pair left right ≡ hash_pair left' right'

  pair_or_collision :
      (a b a' b' : Hash) → hash_pair a b ≡ hash_pair a' b' → ((a ≡ a') × (b ≡ b')) ⊎ Collision
  pair_or_collision a b a' b' h = elim (Bool-cases (a == a')) [
    | inr ne ↦ inr (record {
      left = a;
      right = b;
      left' = a';
      right' = b';
      differ = inl (λ e. ground (arith, ne));
      same = h;
    })
    | inl eq ↦ elim (Bool-cases (b == b')) [
      | inr ne ↦ inr (record {
        left = a;
        right = b;
        left' = a';
        right' = b';
        differ = inr (λ e. ground (arith, ne));
        same = h;
      })
      | inl eq' ↦ inl ((==_iff a a').0 eq, (==_iff b b').0 eq')
    ]
  ]

  next_level-injective :
      (hs ks : List Hash)
      → length hs ≡ length ks
      → next_level c hs ≡ next_level c ks
      → (hs ≡ ks) ⊎ Collision
  unfolding next_level
  next_level-injective [] [] n h = inl refl
  next_level-injective [] (y ∷ ks) n h = absurd (omega arith)
  next_level-injective (x ∷ hs) [] n h = absurd (omega arith)
  next_level-injective (x ∷ []) (y ∷ []) n h = elim (pair_or_collision x x y y (ground arith)) [
    | inl e ↦ inl (ground (arith, e))
    | inr k ↦ inr k
  ]
  next_level-injective (x ∷ []) (y ∷ z ∷ ks) n h = absurd (omega arith)
  next_level-injective (x ∷ w ∷ hs) (y ∷ []) n h = absurd (omega arith)
  next_level-injective (x ∷ w ∷ hs) (y ∷ z ∷ ks) n h =
      elim (pair_or_collision x w y z (ground arith)) [
        | inr k ↦ inr k
        | inl e ↦ elim (next_level-injective hs ks (omega arith) (ground arith)) [
          | inl e' ↦ inl (ground (arith, e, e'))
          | inr k ↦ inr k
        ]
      ]

  length-next_level :
      (hs ks : List Hash)
      → length hs ≡ length ks
      → length (next_level c hs) ≡ length (next_level c ks)
  unfolding next_level
  length-next_level [] [] n = refl
  length-next_level [] (y ∷ ks) n = absurd (omega arith)
  length-next_level (x ∷ hs) [] n = absurd (omega arith)
  length-next_level (x ∷ []) (y ∷ []) n = refl
  length-next_level (x ∷ []) (y ∷ z ∷ ks) n = absurd (omega arith)
  length-next_level (x ∷ w ∷ hs) (y ∷ []) n = absurd (omega arith)
  length-next_level (x ∷ w ∷ hs) (y ∷ z ∷ ks) n =
      omega (arith, length-next_level hs ks (omega arith))

  build_merkle_tree-injective :
      (fuel : ℕ) (hs ks : List Hash) {r : Hash}
      → length hs ≡ length ks
      → build_merkle_tree c fuel hs ≡ some r
      → build_merkle_tree c fuel ks ≡ some r
      → (hs ≡ ks) ⊎ Collision
  unfolding build_merkle_tree
  build_merkle_tree-injective fuel [] ks n h k = cc
  build_merkle_tree-injective fuel (x ∷ []) [] n h k = absurd (omega arith)
  build_merkle_tree-injective fuel (x ∷ []) (y ∷ []) n h k = inl (ground arith)
  build_merkle_tree-injective fuel (x ∷ []) (y ∷ z ∷ ks) n h k = absurd (omega arith)
  build_merkle_tree-injective fuel (x ∷ w ∷ hs) [] n h k = absurd (omega arith)
  build_merkle_tree-injective fuel (x ∷ w ∷ hs) (y ∷ []) n h k = absurd (omega arith)
  build_merkle_tree-injective zero (x ∷ w ∷ hs) (y ∷ z ∷ ks) n h k = cc
  build_merkle_tree-injective (suc fuel) (x ∷ w ∷ hs) (y ∷ z ∷ ks) n h k =
      elim (build_merkle_tree-injective fuel (next_level c (x ∷ w ∷ hs)) (next_level c (y ∷ z ∷ ks))
        (length-next_level (x ∷ w ∷ hs) (y ∷ z ∷ ks) n) h k) [
          | inr col ↦ inr col
          | inl e ↦ next_level-injective (x ∷ w ∷ hs) (y ∷ z ∷ ks) n e
        ]

  length-ids_of : (ts : List Transaction) → length (ids_of ts) ≡ length ts
  length-ids_of [] = refl
  length-ids_of (t ∷ ts) = ap suc (length-ids_of ts)

  -- Two blocks with as many transactions and the same Merkle root have the same transaction IDs in
  -- the same order, unless two different pairs of hashes with one SHA-256 are at hand.
  pub calculate_merkle_root-binds :
      (ts us : List Transaction)
      → length ts ≡ length us
      → calculate_merkle_root c ts ≡ calculate_merkle_root c us
      → (ids_of ts ≡ ids_of us) ⊎ Collision
  unfolding calculate_merkle_root root_of
  calculate_merkle_root-binds [] [] n h = inl refl
  calculate_merkle_root-binds [] (u ∷ us) n h = absurd (omega arith)
  calculate_merkle_root-binds (t ∷ ts) [] n h = absurd (omega arith)
  calculate_merkle_root-binds (t ∷ ts) (u ∷ us) n h =
      let hs = ids_of (t ∷ ts) in
      let ks = ids_of (u ∷ us) in
      let same : length hs ≡ length ks = omega (arith, length-ids_of ts, length-ids_of us) in
      let (r, e) = build_merkle_tree-total (length hs) t.id (ids_of ts) (omega arith) in
      let (s, f) = build_merkle_tree-total (length ks) u.id (ids_of us) (omega arith) in
      let rs : r ≡ s = ground (arith, e, f) in
      let f' : build_merkle_tree c (length hs) ks ≡ some r =
        build_merkle_tree-fuel (length hs) (length ks) ks (omega arith) (omega arith)
        ∙ (f ∙ ap some (sym rs)) in
      build_merkle_tree-injective (length hs) hs ks same e f'

  next_level-doubled :
      (k : ℕ) (hs : List Hash) (x : Hash)
      → length hs ≡ 2 * k
      → next_level c (hs ++ x ∷ []) ≡ next_level c (hs ++ x ∷ x ∷ [])
  unfolding next_level
  next_level-doubled k [] x h = refl
  next_level-doubled k (y ∷ []) x h = absurd (omega arith)
  next_level-doubled zero (y ∷ z ∷ hs) x h = absurd (omega arith)
  next_level-doubled (suc k) (y ∷ z ∷ hs) x h =
      ap (λ l. hash_pair y z ∷ l) (next_level-doubled k hs x (omega arith))

  -- The root does not say how many transactions there are: a list of odd length, three or more, has
  -- the root of the list with its last entry once more.
  pub root_of-doubled :
      (k : ℕ) (hs : List Hash) (x : Hash)
      → length hs ≡ 2 * k + 2
      → root_of c (hs ++ x ∷ []) ≡ root_of c (hs ++ x ∷ x ∷ [])
  unfolding root_of build_merkle_tree
  root_of-doubled k [] x h = absurd (omega arith)
  root_of-doubled k (y ∷ []) x h = absurd (omega arith)
  root_of-doubled k (y ∷ z ∷ hs) x h =
      let level = next_level-doubled (suc k) (y ∷ z ∷ hs) x (omega arith) in
      let short = next_level-shorter y z (hs ++ x ∷ []) in
      let n = length-append hs (x ∷ []) in
      let m = length-append hs (x ∷ x ∷ []) in
      let g : ℕ = suc (length (hs ++ x ∷ x ∷ [])) in
      build_merkle_tree-fuel (suc (length (hs ++ x ∷ []))) g (next_level c (y ∷ z ∷ (hs ++ x ∷ [])))
        (omega (arith, short)) (omega (arith, short, n, m))
      ∙ ap (build_merkle_tree c g) level
