-- ===== src/Wallet/Keys.antt =====
-- common/crypto/keys.go, over what the standard library computes on the curve P-256.
use abcfe.Base.{ℕ, ◌+◌, ◌%◌, ◌<◌, [], ◌∷◌, Option, none, some, ◌≡◌}
use abcfe.Core.Types.{Bytes}
use abcfe.Core.Errors.{Result, ok, or_fail, ◌>>=◌, bad_key}

-- `ecdsa.PrivateKey`: the number and the point.
pub record PrivateKey (PublicKey : Type 0) : Type 0 where
  pub d : ℕ
  pub public_key : PublicKey

-- What the code relies on of crypto/elliptic, crypto/sha256 and crypto/x509: a key in range that
-- is marshalled is parsed again, and its bytes are not none. Nothing is assumed of the hash.
pub record Curve (PublicKey : Type 0) : Type 0 where
  pub order : ℕ
  pub order_pos : 0 < order
  pub base_mult : ℕ → PublicKey
  pub sha256 : Bytes → ℕ
  pub marshal_ec : PrivateKey PublicKey → Option Bytes
  pub parse_ec : Bytes → Option (PrivateKey PublicKey)
  pub marshal_pkix : PublicKey → Option Bytes
  pub parse-marshal :
      (key : PrivateKey PublicKey)
      → 0 < key.d
      → key.d < order
      → key.public_key ≡ base_mult key.d
      → (b : ℕ) × (bs : Bytes) × (marshal_ec key ≡ some (b ∷ bs)) × (parse_ec (b ∷ bs) ≡ some key)

module _ {PublicKey : Type 0} (curve : Curve PublicKey) where
  open curve use {order, base_mult, sha256, marshal_ec, parse_ec}

  -- `DeriveMasterKey`, which never fails
  unfoldable pub derive_master_key : Bytes → PrivateKey PublicKey
  derive_master_key seed = record { d = sha256 seed; public_key = base_mult (sha256 seed) }

  -- `DeriveAccountKey`, which never fails
  unfoldable pub derive_account_key : PrivateKey PublicKey → Bytes → PrivateKey PublicKey
  derive_account_key master path =
      let new_d = (master.d + sha256 path) % order in
      record { d = new_d; public_key = base_mult new_d }

  -- `PrivateKeyToBytes` of a key that is not nil
  unfoldable pub private_key_to_bytes : PrivateKey PublicKey → Option Bytes
  private_key_to_bytes key = marshal_ec key

  -- `BytesToPrivateKey`: no bytes are the nil key, without an error.
  unfoldable pub bytes_to_private_key : Bytes → Result (Option (PrivateKey PublicKey))
  bytes_to_private_key [] = ok none
  bytes_to_private_key (b ∷ bs) = do key ← or_fail (parse_ec (b ∷ bs)) bad_key; ok (some key)
