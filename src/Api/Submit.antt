-- ===== src/Api/Submit.antt =====
-- The handlers of api/rest/handler.go that take transactions and make blocks.
pub mod Taken
pub mod Minted
use abcfe.Base.{
  ℕ, zero, suc, List, [], ◌∷◌, Option, none, some, Bool, true, false, ◌==◌, ◌&&◌, if◌then◌else◌,
  add64, length, get_elem?,
}
use abcfe.Base.Int.{ℤ, pos, negsuc}
use abcfe.Core.Types.{
  Hash, Address, Signature, Bytes, TxInput, TxOutput, TxType, general, Transaction, Block, Config,
}
use abcfe.Core.Errors.{
  Result, ok, err, or_fail, ◌>>=◌, invalid_request, not_initialized, invalid_account_index,
  no_blocks,
}
use abcfe.Core.Crypto.{Crypto}
use abcfe.Core.Store.{LevelDb}
use abcfe.Core.Store.Text.{hash_to_string}
use abcfe.Core.Mempool.{Mempool, new_transaction}
use abcfe.Core.Genesis.{Hex, string_to_address}
use abcfe.Core.Chain.{Chain, add_block}
use abcfe.Core.Propose.{set_block}
use abcfe.Core.Transfer.{Order, Signer, submit_tx, create_signed_tx, validate_tx_signatures}
use abcfe.Wallet.Manager.{Account, MnemonicWallet, WalletManager, in_range, account_at}
use abcfe.Api.Response.{
  Response, bad_request, internal_server_error, send, send_error, or_send, string_to_hash,
  string_to_signature,
}

pub record SubmitTxReq : Type 0 where
  pub from : Bytes
  pub to : Bytes
  pub amount : ℕ
  pub fee : ℕ
  pub memo : Bytes
  pub payload : Bytes

pub record SignedTxInput : Type 0 where
  pub tx_id : Bytes
  pub output_index : ℕ
  pub signature : Bytes
  pub public_key : Bytes

-- The type is a `uint8`; one that is no constant of core/type.go is left out.
pub record TxOutputReq : Type 0 where
  pub address : Bytes
  pub amount : ℕ
  pub tx_type : TxType

pub record SubmitSignedTxReq : Type 0 where
  pub version : Bytes
  pub timestamp : ℤ
  pub inputs : List SignedTxInput
  pub outputs : List TxOutputReq
  pub memo : Bytes
  pub payload : Bytes

pub record SendTxReq : Type 0 where
  pub account_index : ℤ
  pub to : Bytes
  pub amount : ℕ
  pub fee : ℕ
  pub memo : Bytes
  pub payload : Bytes

-- What a handler leaves: the chain with its mempool, the transaction that goes to the peers, and the
-- answer.
pub record Outcome (Db A : Type 0) : Type 0 where
  pub chain : Chain Db
  pub broadcast : Option Transaction
  pub response : Response A

-- The minimum fee where none is asked for.
abbrev pub fee_of : Config → ℕ → ℕ
fee_of cfg fee = if fee == 0 then cfg.min_fee else fee

-- The first loop of `convertSignedTxReqToTx`: the signatures and the keys.
unfoldable pub parse_signatures : Hex → List SignedTxInput → Result (List (Signature × Bytes))
parse_signatures hex [] = ok []
parse_signatures hex (i ∷ is) = do
  s ← or_fail (string_to_signature hex i.signature) invalid_request
  key ← or_fail (hex.decode i.public_key) invalid_request
  rest ← parse_signatures hex is
  ok ((s, key) ∷ rest)

-- The second loop: the inputs without their signatures. There are as many keys.
unfoldable pub parse_inputs :
    Hex → List (Signature × Bytes) → List SignedTxInput → Result (List TxInput)
parse_inputs hex _ [] = ok []
parse_inputs hex [] (i ∷ is) = ok []
parse_inputs hex ((s, key) ∷ ks) (i ∷ is) = do
  id ← or_fail (string_to_hash hex i.tx_id) invalid_request
  rest ← parse_inputs hex ks is
  ok (record { tx_id = id; output_index = i.output_index; signature = 0; public_key = key } ∷ rest)

-- The third loop: the outputs.
unfoldable pub parse_outputs : Hex → List TxOutputReq → Result (List TxOutput)
parse_outputs hex [] = ok []
parse_outputs hex (o ∷ os) = do
  a ← or_fail (string_to_address hex o.address) invalid_request
  rest ← parse_outputs hex os
  ok (record { address = a; amount = o.amount; tx_type = o.tx_type } ∷ rest)

-- The last loop: the signatures go into the inputs.
unfoldable pub sign_parsed : List (Signature × Bytes) → List TxInput → List TxInput
sign_parsed ks [] = []
sign_parsed [] (i ∷ is) = i ∷ is
sign_parsed ((s, key) ∷ ks) (i ∷ is) = record i { signature = s } ∷ sign_parsed ks is

-- `convertSignedTxReqToTx`
unfoldable pub convert_signed_tx_req_to_tx :
    Crypto → Hex → Bytes → SubmitSignedTxReq → Result Transaction
convert_signed_tx_req_to_tx c hex network req = do
  keys ← parse_signatures hex req.inputs
  inputs ← parse_inputs hex keys req.inputs
  outputs ← parse_outputs hex req.outputs
  let tx : Transaction = record {
    version = req.version;
    network_id = network;
    id = 0;
    timestamp = req.timestamp;
    inputs = inputs;
    outputs = outputs;
    memo = req.memo;
    payload = req.payload;
  }
  ok (record tx { id = c.hash_tx tx; inputs = sign_parsed keys inputs })

-- What `SendTxWithWallet` answers.
pub record Sent : Type 0 where
  pub tx_id : Bytes
  pub from : Address
  pub to : Bytes

module _ (cfg : Config) (c : Crypto) (ldb : LevelDb) (hex : Hex) where
  open ldb use {Db}

  abbrev pub refuse : {A : Type 0} → Chain Db → Response A → Outcome Db A
  refuse ch r = record { chain = ch; broadcast = none; response = r }

  -- Into the mempool, then to the peers if there is a P2P service, and the answer.
  unfoldable pub pool_and_send : {A : Type 0} → Bool → Chain Db → Transaction → A → Outcome Db A
  pool_and_send has_p2p ch tx answer = elim (new_transaction ch.mempool tx) [
    | err e ↦ refuse ch (send_error internal_server_error e)
    | ok m ↦ record {
      chain = record ch { mempool = m };
      broadcast = if has_p2p then some tx else none;
      response = send answer;
    }
  ]

  -- `SubmitTransferTx`, of a request that the JSON decoder may have refused
  unfoldable pub submit_transfer_tx : ℤ → Chain Db → Option SubmitTxReq → Outcome Db Bool
  submit_transfer_tx now ch none = refuse ch (send_error bad_request invalid_request)
  submit_transfer_tx now ch (some req) = elim (string_to_address hex req.from) [
    | none ↦ refuse ch (send_error bad_request invalid_request)
    | some from ↦ elim (string_to_address hex req.to) [
      | none ↦ refuse ch (send_error bad_request invalid_request)
      | some to ↦
          let o : Order = record {
            from = from;
            to = to;
            amount = req.amount;
            fee = fee_of cfg req.fee;
            memo = req.memo;
            payload = req.payload;
            tx_type = general;
          } in
          elim (submit_tx cfg c ldb ch.db ch.mempool now o) [
            | err e ↦ refuse ch (send_error internal_server_error e)
            | ok m ↦ refuse (record ch { mempool = m }) (send true)
          ]
    ]
  ]

  -- `SubmitSignedTx`
  unfoldable pub submit_signed_tx : Bool → Chain Db → Option SubmitSignedTxReq → Outcome Db Bytes
  unfolding pool_and_send
  submit_signed_tx has_p2p ch none = refuse ch (send_error bad_request invalid_request)
  submit_signed_tx has_p2p ch (some req) =
      elim (convert_signed_tx_req_to_tx c hex cfg.network_id req) [
        | err e ↦ refuse ch (send_error bad_request e)
        | ok tx ↦ elim (validate_tx_signatures cfg c ldb ch.db tx.id tx.inputs) [
          | err e ↦ refuse ch (send_error bad_request e)
          | ok _ ↦ pool_and_send has_p2p ch tx (hash_to_string tx.id)
        ]
      ]

  -- `SendTxWithWallet`, with the signing that a private key allows
  unfoldable pub send_tx_with_wallet :
      (Bytes → Signer) → ℤ → Bool → WalletManager → Chain Db → Option SendTxReq → Outcome Db Sent
  send_tx_with_wallet signer now has_p2p wm ch none =
      refuse ch (send_error bad_request invalid_request)
  send_tx_with_wallet signer now has_p2p wm ch (some req) = elim wm.wallet [
    | none ↦ refuse ch (send_error internal_server_error not_initialized)
    | some w ↦
        if in_range w.accounts req.account_index
        then elim (account_at w.accounts req.account_index) [
          | err e ↦ refuse ch (send_error bad_request e)
          | ok a ↦ elim (string_to_address hex req.to) [
            | none ↦ refuse ch (send_error bad_request invalid_request)
            | some to ↦
                let o : Order = record {
                  from = a.address;
                  to = to;
                  amount = req.amount;
                  fee = fee_of cfg req.fee;
                  memo = req.memo;
                  payload = req.payload;
                  tx_type = general;
                } in
                elim (create_signed_tx cfg c ldb ch.db ch.mempool now o (signer a.private_key)
                  a.public_key) [
                    | err e ↦ refuse ch (send_error internal_server_error e)
                    | ok tx ↦
                        pool_and_send has_p2p ch tx
                          (record { tx_id = hash_to_string tx.id; from = a.address; to = req.to })
                  ]
          ]
        ]
        else refuse ch (send_error bad_request invalid_account_index)
  ]

  -- `ComposeAndAddBlock`: a block of no proposer, which is added unchecked. Where there is no latest
  -- block, its hash is the empty string, which is no hash.
  unfoldable pub compose_and_add_block : ℤ → Chain Db → Outcome Db Bool
  compose_and_add_block now ch = elim ch.latest_block_hash [
    | none ↦ refuse ch (send_error internal_server_error invalid_request)
    | some prev ↦
        let (blk, m) = set_block cfg c ldb ch.db ch.mempool prev (add64 ch.latest_height 1) 0 now in
        let (ch', r) = add_block ldb (record ch { mempool = m }) blk in
        elim r [
          | err e ↦ refuse ch' (send_error internal_server_error e)
          | ok _ ↦ refuse ch' (send true)
        ]
  ]
