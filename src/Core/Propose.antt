-- ===== src/Core/Propose.antt =====
-- `SetBlock`, `createCoinbaseTx` and `SignBlock` of core/block.go.
pub mod Selected
pub mod Repeats
use abcfe.Base.{
  ℕ, zero, suc, ◌+◌, ◌/◌, ◌%◌, List, [], ◌∷◌, ◌++◌, Option, none, some, Bool, false, ◌==◌, ◌||◌,
  ltb, if◌then◌else◌, add64,
}
use abcfe.Base.Int.{ℤ}
use abcfe.Base.Text.{codes, decimal}
use abcfe.Core.Types.{
  Hash, Address, Signature, Bytes, TxInput, coinbase, Transaction, BlockHeader, Block, Config,
}
use abcfe.Core.Errors.{ok, err}
use abcfe.Core.Crypto.{Crypto}
use abcfe.Core.Store.{AddrUtxoSet, LevelDb}
use abcfe.Core.Mempool.{Mempool, get_txs, del_tx}
use abcfe.Core.Merkle.{calculate_merkle_root}
use abcfe.Core.Utxo.{has_ref, ref_of}
use abcfe.Core.Validate.{validate_transaction, calculate_tx_fee}

unfoldable pub coinbase_memo : ℕ → ℕ → ℕ → Bytes
unfolding decimal
coinbase_memo height reward fees =
    codes "Block "
    ++ (decimal height
        ++ (codes " Coinbase: reward=" ++ (decimal reward ++ (codes ", fees=" ++ decimal fees))))

-- What the loop of `SetBlock` keeps and drops, and the fees of what it keeps.
pub record Selection : Type 0 where
  pub valid : List Transaction
  pub invalid : List Hash
  pub fees : ℕ

-- An input that an earlier transaction of the block uses.
abbrev pub any_used : AddrUtxoSet → List TxInput → Bool
any_used used [] = false
any_used used (i ∷ is) = has_ref (ref_of i) used || any_used used is

abbrev pub mark_used : AddrUtxoSet → List TxInput → AddrUtxoSet
mark_used used [] = used
mark_used used (i ∷ is) = mark_used (ref_of i ∷ used) is

-- The loop that removes the invalid transactions from the mempool.
unfoldable pub del_ids : Mempool → List Hash → Mempool
unfolding del_tx
del_ids m [] = m
del_ids m (id ∷ ids) = del_ids (del_tx m id) ids

module _ (cfg : Config) (c : Crypto) (ldb : LevelDb) where
  open ldb use {Db}

  -- `createCoinbaseTx`
  unfoldable pub create_coinbase_tx : Address → ℕ → ℕ → ℤ → Transaction
  unfolding coinbase_memo
  create_coinbase_tx proposer height fees time =
      let tx : Transaction = record {
        version = cfg.transaction_version;
        network_id = cfg.network_id;
        id = 0;
        timestamp = time;
        inputs = [];
        outputs =
            record { address = proposer; amount = add64 cfg.block_reward fees; tx_type = coinbase }
            ∷ [];
        memo = coinbase_memo height cfg.block_reward fees;
        payload = [];
      } in
      record tx { id = c.hash_tx tx }

  -- One round of the loop: the fee of a transaction that is kept.
  unfoldable pub admit : Db → AddrUtxoSet → Transaction → Option ℕ
  admit db used t = elim (validate_transaction cfg c ldb db t) [
    | err _ ↦ none
    | ok _ ↦
        if any_used used t.inputs
        then none
        else elim (calculate_tx_fee cfg c ldb db t) [ err _ ↦ none | ok fee ↦ some fee ]
  ]

  unfoldable pub select : Db → AddrUtxoSet → ℕ → List Transaction → Selection
  unfolding admit
  select db used fees [] = record { valid = []; invalid = []; fees = fees }
  select db used fees (t ∷ ts) = elim (admit db used t) [
    | none ↦ let s = select db used fees ts in record s { invalid = t.id ∷ s.invalid }
    | some fee ↦
        let s = select db (mark_used used t.inputs) (add64 fees fee) ts in
        record s { valid = t ∷ s.valid }
  ]

  -- The transactions of the block: the coinbase transaction stands first, where there is a proposer.
  unfoldable pub block_txs : Selection → ℕ → Address → ℤ → List Transaction
  unfolding create_coinbase_tx
  block_txs s height proposer time =
      if proposer == 0 then s.valid else create_coinbase_tx proposer height s.fees time ∷ s.valid

  -- The block over these transactions, with its hash.
  unfoldable pub assemble : Hash → ℕ → Address → ℤ → List Transaction → Block
  assemble prev_hash height proposer time txs =
      let header : BlockHeader = record {
        hash = 0;
        prev_hash = prev_hash;
        version = cfg.protocol_version;
        height = height;
        merkle_root = calculate_merkle_root c txs;
        timestamp = time;
      } in
      record {
        header = record header { hash = c.hash_header header };
        transactions = txs;
        proposer = proposer;
        signature = 0;
        commit_signatures = [];
      }

  -- `SetBlock`: the block, and the mempool without what was found invalid.
  unfoldable pub set_block : Db → Mempool → Hash → ℕ → Address → ℤ → Block × Mempool
  unfolding select block_txs assemble del_ids
  set_block db m prev_hash height proposer time =
      let s = select db [] 0 (get_txs m) in
      (
        assemble prev_hash height proposer time (block_txs s height proposer time),
        del_ids m s.invalid,
      )

-- `SignBlock`
unfoldable pub sign_block : Block → Signature → Block
sign_block blk sig = record blk { signature = sig }
