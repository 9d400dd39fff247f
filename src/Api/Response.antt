-- ===== src/Api/Response.antt =====
-- What a handler of api/rest/handler.go answers, and the texts of a request that it reads.
use abcfe.Base.{
  ℕ, ◌+◌, ◌*◌, ◌-◌, ◌^◌, [], ◌∷◌, Option, none, some, ◌==◌, leb, if◌then◌else◌, length,
}
use abcfe.Base.Int.{ℤ}
use abcfe.Core.Types.{Hash, Signature, Bytes}
use abcfe.Core.Errors.{Error, Result, ok, err}
use abcfe.Core.Genesis.{Hex, drop_prefix}

-- The status codes of net/http that are sent.
pub data Status : Type 0 where
  status_ok bad_request status_not_found internal_server_error : Status

-- `RestResp`: the data, or the error.
pub record Response (A : Type 0) : Type 0 where
  pub status : Status
  pub body : Result A

-- `sendResp` of data
abbrev pub send : {A : Type 0} → A → Response A
send a = record { status = status_ok; body = ok a }

-- `sendResp` of an error
abbrev pub send_error : {A : Type 0} → Status → Error → Response A
send_error s e = record { status = s; body = err e }

-- `if err != nil { sendResp(w, status, nil, err); return }` after a call.
abbrev pub or_send : {A B : Type 0} → Result A → Status → (A → Response B) → Response B
or_send (ok a) s next = next a
or_send (err e) s next = send_error s e

-- The number that bytes write.
abbrev pub big_endian : ℕ → Bytes → ℕ
big_endian acc [] = acc
big_endian acc (b ∷ bs) = big_endian (acc * 256 + b) bs

-- `strconv.ParseUint` to base 10 and 64 bits, and `strconv.Atoi`.
pub record Numerals : Type 0 where
  pub parse_uint : Bytes → Option ℕ
  pub atoi : Bytes → Option ℤ

-- `StringToHash` (common/utils/converter.go)
unfoldable pub string_to_hash : Hex → Bytes → Option Hash
string_to_hash hex s = elim (hex.decode (drop_prefix s)) [
  | none ↦ none
  | some bytes ↦ if length bytes == 32 then some (big_endian 0 bytes) else none
]

-- `StringToSignature`: the bytes stand at the start of the array.
unfoldable pub string_to_signature : Hex → Bytes → Option Signature
string_to_signature hex s = elim (hex.decode (drop_prefix s)) [
  | none ↦ none
  | some bytes ↦
      if leb (length bytes) 72 then some (big_endian 0 bytes * 256 ^ (72 - length bytes)) else none
]
