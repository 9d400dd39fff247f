-- ===== src/Core/Crypto.antt =====
-- common/crypto/ and common/utils/crypto.go. SHA-256, JSON, X.509 and ECDSA are the standard
-- library's, and Keccak is golang.org/x/crypto's: they are the fields of `Crypto`, of which nothing
-- is assumed here. What the repository's wrappers add to them is defined below.
use abcfe.Base.{ℕ, ◌+◌, ◌-◌, ◌/◌, ◌%◌, ◌^◌, [], ◌∷◌, Option, none, Bool, ◌==◌, ◌&&◌, leb}
use abcfe.Core.Types.{Hash, Address, Signature, Bytes, Transaction, BlockHeader}

pub record Crypto : Type 1 where
  pub PublicKey : Type 0
  -- `utils.Hash`: SHA-256 of the JSON encoding.
  pub hash_tx : Transaction → Hash
  pub hash_header : BlockHeader → Hash
  -- `sha256.Sum256` of two hashes, one after the other.
  pub hash_pair : Hash → Hash → Hash
  -- `x509.ParsePKIXPublicKey` and the test that the key is an ECDSA key.
  pub parse_pkix : Bytes → Option PublicKey
  -- the last 20 bytes of the Keccak-256 of the compressed key
  pub key_address : PublicKey → Address
  -- `ecdsa.VerifyASN1` of a signature with a given number of bytes
  pub verify_asn1 : PublicKey → Hash → ℕ → ℕ → Bool

-- `sig[i]` of the 72 bytes of a signature.
unfoldable pub signature_byte : Signature → ℕ → ℕ
signature_byte sig i = sig / 256 ^ (71 - i) % 256

module _ (c : Crypto) where
  open c use {PublicKey, parse_pkix, key_address, verify_asn1}

  -- `BytesToPublicKey`
  unfoldable pub bytes_to_public_key : Bytes → Option PublicKey
  bytes_to_public_key [] = none
  bytes_to_public_key (b ∷ bs) = parse_pkix (b ∷ bs)

  -- `PublicKeyToAddress`, which never fails
  unfoldable pub public_key_to_address : PublicKey → Address
  public_key_to_address key = key_address key

  -- `VerifySignature` at a key that is not nil: the DER header gives the length.
  unfoldable pub verify_signature : PublicKey → Hash → Signature → Bool
  unfolding signature_byte
  verify_signature key h sig =
      let sig_len = 2 + signature_byte sig 1 in
      signature_byte sig 0 == 0x30
      && leb sig_len 72
      && verify_asn1 key h sig_len (sig / 256 ^ (72 - sig_len))
