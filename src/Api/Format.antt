-- ===== src/Api/Format.antt =====
-- The bodies of the answers of api/rest/handler.go: the types of types.go, and the functions that
-- fill them in.
use abcfe.Base.{ℕ, suc, List, [], ◌∷◌, Bool}
use abcfe.Base.Int.{ℤ}
use abcfe.Base.Text.{hex_text}
use abcfe.Core.Types.{
  Hash, Signature, Bytes, TxInput, TxOutput, TxType, Transaction, CommitSignature, Block, Utxo,
  Config,
}
use abcfe.Core.Errors.{ok, err}
use abcfe.Core.Crypto.{Crypto}
use abcfe.Core.Store.{LevelDb}
use abcfe.Core.Store.Text.{hash_to_string, address_to_string}
use abcfe.Core.Validate.{calculate_tx_fee}
use abcfe.Core.Received.{AddressTxInfo, is_spent}

unfoldable pub signature_to_string : Signature → Bytes
signature_to_string s = hex_text 144 s

pub record TxInputResp : Type 0 where
  pub tx_id : Bytes
  pub output_index : ℕ
  pub signature : Bytes
  pub public_key : Bytes

pub record TxOutputResp : Type 0 where
  pub address : Bytes
  pub amount : ℕ
  pub tx_type : TxType
  pub spent : Bool

pub record TxResp : Type 0 where
  pub id : Bytes
  pub version : Bytes
  pub timestamp : ℤ
  pub inputs : List TxInputResp
  pub outputs : List TxOutputResp
  pub memo : Bytes
  pub fee : ℕ

pub record CommitSignatureResp : Type 0 where
  pub validator_address : Bytes
  pub signature : Bytes

pub record BlockHeaderResp : Type 0 where
  pub hash : Bytes
  pub prev_hash : Bytes
  pub version : Bytes
  pub height : ℕ
  pub merkle_root : Bytes
  pub timestamp : ℤ

pub record BlockResp : Type 0 where
  pub header : BlockHeaderResp
  pub transactions : List TxResp
  pub proposer : Bytes
  pub signature : Bytes
  pub commit_signatures : List CommitSignatureResp

pub record UtxoResp : Type 0 where
  pub tx_id : Bytes
  pub output_index : ℕ
  pub amount : ℕ
  pub address : Bytes
  pub height : ℕ

pub record AddressTxResp : Type 0 where
  pub tx_id : Bytes
  pub amount : ℕ
  pub timestamp : ℤ
  pub height : ℕ
  pub spent : Bool
  pub index : ℕ

-- `formatTxInputsResp`
unfoldable pub format_tx_inputs_resp : List TxInput → List TxInputResp
format_tx_inputs_resp [] = []
format_tx_inputs_resp (i ∷ is) =
    record {
      tx_id = hash_to_string i.tx_id;
      output_index = i.output_index;
      signature = signature_to_string i.signature;
      public_key = i.public_key;
    }
    ∷ format_tx_inputs_resp is

-- `formatUtxoResp`
unfoldable pub format_utxo_resp : List Utxo → List UtxoResp
format_utxo_resp [] = []
format_utxo_resp (u ∷ us) =
    record {
      tx_id = hash_to_string u.tx_id;
      output_index = u.output_index;
      amount = u.tx_out.amount;
      address = address_to_string u.tx_out.address;
      height = u.height;
    }
    ∷ format_utxo_resp us

-- `formatAddressTxInfos`
unfoldable pub format_address_tx_infos : List AddressTxInfo → List AddressTxResp
format_address_tx_infos [] = []
format_address_tx_infos (a ∷ as') =
    record {
      tx_id = hash_to_string a.tx_id;
      amount = a.amount;
      timestamp = a.timestamp;
      height = a.height;
      spent = a.spent;
      index = a.index;
    }
    ∷ format_address_tx_infos as'

-- The commit signatures of `formatBlockResp`.
unfoldable pub format_commit_signatures : List CommitSignature → List CommitSignatureResp
format_commit_signatures [] = []
format_commit_signatures (s ∷ ss) =
    record {
      validator_address = address_to_string s.validator_address;
      signature = signature_to_string s.signature;
    }
    ∷ format_commit_signatures ss

module _ (cfg : Config) (c : Crypto) (ldb : LevelDb) (db : ldb.Db) where
  -- `formatTxOutputsRespWithSpent`, from an index on
  unfoldable pub format_tx_outputs_resp_with_spent : Hash → ℕ → List TxOutput → List TxOutputResp
  format_tx_outputs_resp_with_spent id index [] = []
  format_tx_outputs_resp_with_spent id index (o ∷ os) =
      record {
        address = address_to_string o.address;
        amount = o.amount;
        tx_type = o.tx_type;
        spent = is_spent cfg c ldb db id index;
      }
      ∷ format_tx_outputs_resp_with_spent id (suc index) os

  -- `formatTxResp`: where the fee cannot be computed it is shown as 0.
  unfoldable pub format_tx_resp : Transaction → TxResp
  format_tx_resp tx = record {
    id = hash_to_string tx.id;
    version = tx.version;
    timestamp = tx.timestamp;
    inputs = format_tx_inputs_resp tx.inputs;
    outputs = format_tx_outputs_resp_with_spent tx.id 0 tx.outputs;
    memo = tx.memo;
    fee = elim (calculate_tx_fee cfg c ldb db tx) [ err _ ↦ 0 | ok fee ↦ fee ];
  }

  -- `formatTxsResp`
  unfoldable pub format_txs_resp : List Transaction → List TxResp
  format_txs_resp [] = []
  format_txs_resp (t ∷ ts) = format_tx_resp t ∷ format_txs_resp ts

  -- `formatBlockResp`, which never fails
  unfoldable pub format_block_resp : Block → BlockResp
  format_block_resp b = record {
    header = record {
      hash = hash_to_string b.header.hash;
      prev_hash = hash_to_string b.header.prev_hash;
      version = b.header.version;
      height = b.header.height;
      merkle_root = hash_to_string b.header.merkle_root;
      timestamp = b.header.timestamp;
    };
    transactions = format_txs_resp b.transactions;
    proposer = address_to_string b.proposer;
    signature = signature_to_string b.signature;
    commit_signatures = format_commit_signatures b.commit_signatures;
  }
