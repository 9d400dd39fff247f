-- ===== src/Wallet/Linked.antt =====
-- How the keys of one wallet hang together: `DeriveAccountKey` of common/crypto/keys.go.
use native.Mathlib.Nat.{add-mul-mod_self_left, div-add-mod, mod-lt}
use abcfe.Base.{
  ℕ, ◌+◌, ◌-◌, ◌*◌, ◌/◌, ◌%◌, ◌<◌, ◌∷◌, some, ◌≡◌, refl, sym, ap, subst, ◌∙◌, arith, inl, inr,
  Option-cases,
}
use abcfe.Core.Types.{Bytes}
use abcfe.Core.Errors.{Result, ok, or_fail, ◌>>=◌, key_missing, key_not_marshalled}
use abcfe.Core.Crypto.{Crypto}
use abcfe.Wallet.Keys.{
  PrivateKey, Curve, derive_account_key, private_key_to_bytes, bytes_to_private_key,
}
use abcfe.Wallet.Manager.{Account, MnemonicWallet, account_path, derive_account}

-- What is subtracted modulo `n` comes off again.
shift_mod : (m s t n : ℕ) → 0 < n → ((m + s) % n + (n - s % n) + t) % n ≡ (m + t) % n
shift_mod m s t n h =
    sym (add-mul-mod_self_left ((m + s) % n + (n - s % n) + t) n ((m + s) / n))
    ∙ ap (λ x. x % n)
        (balance m s t n ((m + s) / n) ((m + s) % n) (s / n) (s % n) (div-add-mod (m + s) n)
          (div-add-mod s n) (mod-lt s h))
    ∙ add-mul-mod_self_left (m + t) n (s / n + 1)
  where
    balance :
        (m s t n a r b q : ℕ)
        → n * a + r ≡ m + s
        → n * b + q ≡ s
        → q < n
        → r + (n - q) + t + n * a ≡ m + t + n * (b + 1)
    balance m s t n a r b q e e' lt = omega (arith, e, e', lt)

module _ {PublicKey : Type 0} (curve : Curve PublicKey) where
  open curve use {order, order_pos, base_mult, sha256, marshal_ec, parse_ec}

  -- From the key at one path, the key at another.
  unfoldable pub sibling : PrivateKey PublicKey → Bytes → Bytes → PrivateKey PublicKey
  sibling key from to =
      let d = (key.d + (order - sha256 from % order) + sha256 to) % order in
      record { d = d; public_key = base_mult d }

  sibling-derive_account_key :
      (master : PrivateKey PublicKey) (from to : Bytes)
      → sibling (derive_account_key curve master from) from to ≡ derive_account_key curve master to
  unfolding sibling derive_account_key
  sibling-derive_account_key master from to =
      ap (λ d. record { d = d; public_key = base_mult d })
        (shift_mod master.d (sha256 from) (sha256 to) order order_pos)

module _ (c : Crypto) (curve : Curve c.PublicKey) where
  open c use {PublicKey}

  -- From the bytes of one account's private key and two indices, those of another account's.
  unfoldable pub private_key_from : Bytes → ℕ → ℕ → Result Bytes
  private_key_from bytes i j = do
    parsed ← bytes_to_private_key curve bytes
    key ← or_fail parsed key_missing
    or_fail (private_key_to_bytes curve (sibling curve key (account_path i) (account_path j)))
        key_not_marshalled

  derive_account-private_key :
      (w : MnemonicWallet) (i : ℕ) (a : Account) (master : PrivateKey PublicKey)
      → bytes_to_private_key curve w.master_key ≡ ok (some master)
      → derive_account c curve w i ≡ ok a
      → private_key_to_bytes curve (derive_account_key curve master (account_path i))
        ≡ some a.private_key
  unfolding derive_account
  derive_account-private_key w i a master m h =
      let key = derive_account_key curve master (account_path i) in
      elim (Option-cases (private_key_to_bytes curve key)) [
        | inl e ↦ ground (arith, h, m, e)
        | inr (bytes, e) ↦ elim (Option-cases (curve.marshal_pkix key.public_key)) [
          | inl e' ↦ ground (arith, h, m, e, e')
          | inr (public, e') ↦ ground (arith, h, m, e, e')
        ]
      ]

  parse_own :
      (master : PrivateKey PublicKey) (path bytes : Bytes)
      → 0 < (derive_account_key curve master path).d
      → private_key_to_bytes curve (derive_account_key curve master path) ≡ some bytes
      → bytes_to_private_key curve bytes ≡ ok (some (derive_account_key curve master path))
  unfolding derive_account_key private_key_to_bytes bytes_to_private_key
  parse_own master path bytes n h =
      let (b, bs, e, e') =
        curve.parse-marshal (derive_account_key curve master path) n
          (mod-lt (master.d + curve.sha256 path) curve.order_pos) refl in
      let same : b ∷ bs ≡ bytes = ground (arith, h, e) in
      subst (λ x. bytes_to_private_key curve x ≡ ok (some (derive_account_key curve master path)))
        same (rw e' refl)

  -- Whoever has the private key of one account of a wallet can compute that of every other account,
  -- without the mnemonic, the seed or the master key, unless the key is 0.
  pub derive_account-exposes :
      (w : MnemonicWallet) (i j : ℕ) (a b : Account) (master : PrivateKey PublicKey)
      → bytes_to_private_key curve w.master_key ≡ ok (some master)
      → 0 < (derive_account_key curve master (account_path i)).d
      → derive_account c curve w i ≡ ok a
      → derive_account c curve w j ≡ ok b
      → private_key_from a.private_key i j ≡ ok b.private_key
  unfolding private_key_from
  derive_account-exposes w i j a b master m n h h' =
      let parsed =
        parse_own master (account_path i) a.private_key n
          (derive_account-private_key w i a master m h) in
      rw parsed (
        rw (sibling-derive_account_key curve master (account_path i) (account_path j))
          (rw (derive_account-private_key w j b master m h') refl))
