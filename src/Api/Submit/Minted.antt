-- ===== src/Api/Submit/Minted.antt =====
-- Requests with no inputs: `SubmitSignedTx` of api/rest/handler.go with `ValidateTransaction`.
use abcfe.Base.{ℕ, List, [], ◌∷◌, none, some, Bool, false, ltb, ◌&&◌, length, ◌≡◌, ◌≢◌, refl, arith}
use abcfe.Base.Assoc.{lookup, insert}
use abcfe.Core.Types.{Bytes, TxOutput, Transaction, Config, bytes_eq_self}
use abcfe.Core.Errors.{ok}
use abcfe.Core.Crypto.{Crypto}
use abcfe.Core.Store.{LevelDb}
use abcfe.Core.Mempool.{new_transaction}
use abcfe.Core.Genesis.{Hex}
use abcfe.Core.Chain.{Chain}
use abcfe.Core.Validate.{sum_outputs, validate_transaction, validate_tx_hash, validate_coinbase_tx}
use abcfe.Core.Validate.Sums.{sum_outputs-total}
use abcfe.Core.Transfer.{validate_tx_signatures}
use abcfe.Api.Response.{status_ok}
use abcfe.Api.Submit.{
  SubmitSignedTxReq, parse_signatures, parse_inputs, parse_outputs, sign_parsed,
  convert_signed_tx_req_to_tx, pool_and_send, submit_signed_tx,
}

-- A limit on a size is 0, which is none, or it is kept.
abbrev pub too_long : ℕ → Bytes → Bool
too_long max s = ltb 0 max && ltb max (length s)

module _ (cfg : Config) (c : Crypto) (ldb : LevelDb) (hex : Hex) where
  open ldb use {Db}

  -- What a request with no inputs is hashed as.
  abbrev pub unsigned_of : SubmitSignedTxReq → List TxOutput → Transaction
  unsigned_of req outs = record {
    version = req.version;
    network_id = cfg.network_id;
    id = 0;
    timestamp = req.timestamp;
    inputs = [];
    outputs = outs;
    memo = req.memo;
    payload = req.payload;
  }

  abbrev pub minted : SubmitSignedTxReq → List TxOutput → Transaction
  minted req outs = record (unsigned_of req outs) { id = c.hash_tx (unsigned_of req outs) }

  convert-minted :
      (req : SubmitSignedTxReq) (outs : List TxOutput)
      → req.inputs ≡ []
      → parse_outputs hex req.outputs ≡ ok outs
      → convert_signed_tx_req_to_tx c hex cfg.network_id req ≡ ok (minted req outs)
  unfolding convert_signed_tx_req_to_tx parse_signatures parse_inputs sign_parsed
  convert-minted req outs e o = ground (arith, e, o)

  validate_transaction-minted :
      (db : Db) (req : SubmitSignedTxReq) (outs : List TxOutput)
      → sum_outputs 0 outs ≢ 0
      → too_long cfg.max_memo_size req.memo ≡ false
      → too_long cfg.max_data_size req.payload ≡ false
      → validate_transaction cfg c ldb db (minted req outs) ≡ ok tt
  unfolding validate_transaction validate_tx_hash validate_coinbase_tx
  validate_transaction-minted db req [] n m p = absurd (n zero_sum)
    where
      zero_sum : sum_outputs 0 [] ≡ 0
      zero_sum = omega (arith, sum_outputs-total 0 [])
  validate_transaction-minted db req (o ∷ os) n m p =
      ground (arith, bytes_eq_self cfg.network_id, n, m, p)

  -- Anyone may have a transaction with no inputs, and so without a signature, that pays out what he
  -- likes: whatever the outputs of a request, if they parse, their sum in 64 bits is not zero, memo
  -- and data are not too long and the ID is not in the mempool, `SubmitSignedTx` answers 200 and puts
  -- the transaction with these outputs into the mempool, and `ValidateTransaction` accepts it.
  pub submit_signed_tx-mints :
      (has_p2p : Bool) (ch : Chain Db) (req : SubmitSignedTxReq) (outs : List TxOutput)
      → req.inputs ≡ []
      → parse_outputs hex req.outputs ≡ ok outs
      → sum_outputs 0 outs ≢ 0
      → too_long cfg.max_memo_size req.memo ≡ false
      → too_long cfg.max_data_size req.payload ≡ false
      → lookup (c.hash_tx (unsigned_of req outs)) ch.mempool ≡ none
      → (tx : Transaction) × (tx.inputs ≡ [])
        × (tx.outputs ≡ outs)
        × ((submit_signed_tx cfg c ldb hex has_p2p ch (some req)).response.status ≡ status_ok)
        × ((submit_signed_tx cfg c ldb hex has_p2p ch (some req)).chain.mempool
            ≡ insert tx.id (record { tx = tx; fee = 0 }) ch.mempool)
        × (validate_transaction cfg c ldb ch.db tx ≡ ok tt)
  unfolding submit_signed_tx pool_and_send new_transaction validate_tx_signatures
  submit_signed_tx-mints has_p2p ch req outs e o n m p new =
      let conv = convert-minted req outs e o in
      (
        minted req outs,
        refl,
        refl,
        ground (arith, conv, new),
        ground (arith, conv, new),
        validate_transaction-minted ch.db req outs n m p,
      )
