-- ===== src/App.antt =====
-- app/app.go: what the node does with the blocks and transactions that its peers send. A handler is
-- one step here; the engine may in fact run between two of its calls. The node has a consensus and a
-- P2P service, which `New` gives it.
pub mod Blocks
pub mod Genesis
pub mod Run
pub mod Tests
use abcfe.Base.{
  ℕ, zero, suc, ◌-◌, List, [], ◌∷◌, Option, none, some, Bool, true, false, ◌==◌, ◌&&◌, ltb, leb,
  if◌then◌else◌, length, add64, sub64,
}
use abcfe.Base.Assoc.{Dict, lookup, insert, erase}
use abcfe.Core.Types.{Transaction, Block, Config}
use abcfe.Core.Errors.{Result, ok, err}
use abcfe.Core.Crypto.{Crypto}
use abcfe.Core.Store.{LevelDb}
use abcfe.Core.Mempool.{new_transaction}
use abcfe.Core.Validate.{validate_block, validate_transaction}
use abcfe.Core.Chain.{Chain, add_block}
use abcfe.Consensus.Commit.{proposer_validator}
use abcfe.Consensus.Selection.{Seeds}
use abcfe.Consensus.State.{Consensus, update_height}
use abcfe.Consensus.Engine.{Env}

-- What is sent to all peers, and the request to one of them.
pub data Gossip : Type 0 where
  new_block : Block → Gossip
  new_tx : Transaction → Gossip
  get_blocks : (peer first last : ℕ) → Gossip

-- `pending` holds the blocks that came too early, by their heights.
pub record App (Db : Type 0) : Type 0 where
  pub chain : Chain Db
  pub consensus : Consensus
  pub pending : Dict Block
  pub peers : List ℕ
  pub sent : List Gossip  -- the last one first

module _ {Db : Type 0} where
  -- `app.Consensus.UpdateHeight` to the height after a block's.
  unfoldable pub sync_height : Block → App Db → App Db
  unfolding update_height
  sync_height blk a = record a { consensus = update_height a.consensus (add64 blk.header.height 1) }

  abbrev pub gossip : Gossip → App Db → App Db
  gossip g a = record a { sent = g ∷ a.sent }

  -- A block that does not follow the latest one is kept, and those in between are asked for.
  unfoldable pub hold_block : Block → App Db → App Db
  hold_block blk a =
      let a' : App Db = record a { pending = insert blk.header.height blk a.pending } in
      elim a.peers [
        | [] ↦ a'
        | p ∷ _ ↦
            gossip (get_blocks p (add64 a.chain.latest_height 1) (sub64 blk.header.height 1)) a'
      ]

module _ (cfg : Config) (c : Crypto) (ldb : LevelDb) where
  open ldb use {Db}

  -- `ValidateBlock` and then `AddBlock`, and whether both succeed.
  unfoldable pub import_block : Env Db → Block → App Db → Bool × App Db
  import_block env blk a =
      elim (validate_block cfg c ldb a.chain.db
        (some (proposer_validator c a.consensus.validator_set)) env.now blk true) [
          | err _ ↦ (false, a)
          | ok _ ↦
              let (ch, r) = add_block ldb a.chain blk in
              elim r [
                | err _ ↦ (false, record a { chain = ch })
                | ok _ ↦ (true, record a { chain = ch })
              ]
        ]

  -- The loop over the blocks that are kept, after this one was added; `none` is out of fuel.
  unfoldable pub drain : Env Db → ℕ → Block → App Db → Option (App Db)
  unfolding import_block sync_height
  drain env zero blk a = none
  drain env (suc fuel) blk a =
      let next = add64 blk.header.height 1 in
      elim (lookup next a.pending) [
        | none ↦ some a
        | some b ↦
            let (added, a') = import_block env b (record a { pending = erase next a.pending }) in
            elim added [ false ↦ some a' | true ↦ drain env fuel b (sync_height b a') ]
      ]

  -- A block that follows the latest one.
  unfoldable pub take_block : Env Db → Block → App Db → Option (App Db)
  unfolding drain import_block sync_height
  take_block env blk a =
      let (added, a') = import_block env blk a in
      elim added [
        | false ↦ some a'
        | true ↦
            let a'' = gossip (new_block blk) (sync_height blk a') in
            drain env (suc (length a''.pending)) blk a''
      ]

  -- The block handler of `New`
  unfoldable pub handle_block : Env Db → Block → App Db → Option (App Db)
  unfolding import_block hold_block take_block
  handle_block env blk a =
      let height = a.chain.latest_height in
      if height == 0 && blk.header.height == 0
      then some (import_block env blk a).1
      else if leb blk.header.height height
      then some a
      else if ltb (add64 height 1) blk.header.height
      then some (hold_block blk a)
      else take_block env blk a

  -- The transaction handler of `New`
  unfoldable pub handle_tx : Transaction → App Db → App Db
  handle_tx tx a = elim (validate_transaction cfg c ldb a.chain.db tx) [
    | err _ ↦ a
    | ok _ ↦ elim (new_transaction a.chain.mempool tx) [
      | err _ ↦ a
      | ok m ↦ gossip (new_tx tx) (record a { chain = record (a.chain) { mempool = m } })
    ]
  ]
