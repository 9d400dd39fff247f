-- ===== src/Core/Tests/Blocks.antt =====
-- The properties of validation and of `AddBlock`, applied to the small chain.
use abcfe.Base.{ℕ, List, none, some, true, false, ◌≡◌, refl, ◌⊎◌, arith}
use abcfe.Base.Int.{pos, ◌+ℤ◌}
use abcfe.Core.Types.{Block, Utxo}
use abcfe.Core.Errors.{ok, err, write_failed}
use abcfe.Core.Store.{Key, utxo_key, Read, Batch, put_all}
use abcfe.Core.Crypto.{bytes_to_public_key, public_key_to_address, verify_signature}
use abcfe.Core.Merkle.{calculate_merkle_root}
use abcfe.Core.Chain.{Chain, add_block, block_batch, load_chain_db, get_block_by_hash, del_txs}
use abcfe.Core.Chain.Added.{add_block-table, add_block-IsIndexed, add_block-error, advances}
use abcfe.Core.Chain.Restart.{get_block-add_block, load_chain_db-add_block}
use abcfe.Core.Chain.Progress.{add_block-total}
use abcfe.Core.Utxo.Update.{table_after}
use abcfe.Core.Utxo.Invariant.{IsIndexed, IsFresh}
use abcfe.Core.Validate.{
  validate_prev_hash, validate_merkle_root, validate_block_hash, validate_height_continuity,
  validate_timestamp, validate_proposer, validate_proposer_signature, validate_commit,
  validate_tx_count, validate_duplicate_tx, validate_duplicate_utxo, validate_transactions,
  validate_on_top, validate_tx_input_signature, validate_transaction, validate_transfer,
  validate_block, get_block_by_height, calculate_tx_fee,
}
use abcfe.Core.Validate.Sums.{Transfers, validate_transaction-Transfers}
use abcfe.Core.Validate.Minting.{validate_transfer-wraps, with_outputs}
use abcfe.Core.Validate.Accepted.{Accepted, validate_block-Accepted}
use abcfe.Core.Tests.{
  settings, toy, memory, fragile, fragile_write, pays, payment, reward, genesis, first, nowhere,
  empty_chain, started, started_lem,
}

nowhere-IsIndexed : IsIndexed nowhere
nowhere-IsIndexed = record { typed = λ a. tt; listed = λ q u e un. cc; owned = λ a q h. cc }

genesis-IsFresh : IsFresh nowhere genesis.transactions
genesis-IsFresh = record { distinct = ground arith; unseen = λ q h. refl }

pub started-IsIndexed : IsIndexed started.db
started-IsIndexed =
    add_block-IsIndexed memory empty_chain started genesis started_lem nowhere-IsIndexed
      genesis-IsFresh

abbrev grown : Chain (Key → Read)
grown = (add_block memory started first).0

grown_lem : add_block memory started first ≡ (grown, ok tt)
unfolding started add_block
grown_lem = refl

payment_lem : validate_transaction settings toy memory started.db payment ≡ ok tt
unfolding started add_block validate_transaction validate_tx_input_signature bytes_to_public_key
    public_key_to_address verify_signature
payment_lem = refl

reward_lem : validate_transaction settings toy memory started.db reward ≡ ok tt
unfolding validate_transaction
reward_lem = refl

first_lem : validate_block settings toy memory started.db none (pos 12) first false ≡ ok tt
unfolding started add_block validate_block get_block_by_height validate_on_top validate_prev_hash
    validate_merkle_root calculate_merkle_root validate_block_hash validate_height_continuity
    validate_timestamp ◌+ℤ◌ validate_proposer validate_proposer_signature validate_commit
    validate_tx_count validate_duplicate_tx validate_duplicate_utxo validate_transactions
    validate_transaction validate_tx_input_signature bytes_to_public_key public_key_to_address
    verify_signature
first_lem = refl

add_block-table_example :
    grown.db (utxo_key 500 0) ≡ table_after first 500 0 (started.db (utxo_key 500 0))
add_block-table_example = add_block-table memory started grown first 500 0 grown_lem

first-IsFresh : IsFresh started.db first.transactions
unfolding started add_block
first-IsFresh = record { distinct = ground arith; unseen = λ q h. ground (arith, h) }

add_block-IsIndexed_example : IsIndexed grown.db
add_block-IsIndexed_example =
    add_block-IsIndexed memory started grown first grown_lem started-IsIndexed first-IsFresh

abbrev stuck : Chain (Key → Read)
stuck = (add_block fragile started first).0

stuck_lem : add_block fragile started first ≡ (stuck, err write_failed)
unfolding started add_block
stuck_lem = refl

add_block-error_example :
    (stuck ≡ started)
    ⊎ ((write_failed ≡ write_failed)
        × (advances started.latest_height first ≡ true)
        × (stuck.latest_height ≡ first.header.height)
        × (stuck.latest_block_hash ≡ some first.header.hash)
        × (stuck.mempool ≡ del_txs started.mempool first.transactions)
        × ((batch : Batch) × (block_batch fragile started.db first ≡ ok batch)
            × (fragile_write started.db batch ≡ some stuck.db)))
add_block-error_example = add_block-error fragile started stuck first write_failed stuck_lem

get_block-add_block_example :
    (get_block_by_height settings toy memory grown.db 1 ≡ ok first)
    × (get_block_by_hash memory grown.db 9001 ≡ ok first)
get_block-add_block_example = get_block-add_block memory started grown first settings toy grown_lem

started_height : advances started.latest_height first ≡ true
unfolding started add_block
started_height = refl

load_chain_db-add_block_example : load_chain_db memory grown ≡ (grown, ok tt)
load_chain_db-add_block_example =
    load_chain_db-add_block memory started grown first grown_lem started_height

add_block-total_example : (ch : Chain (Key → Read)) × (add_block memory started first ≡ (ch, ok tt))
add_block-total_example =
    add_block-total settings toy memory (λ db b. ((λ k. put_all b k (db k)), refl)) started none
      (pos 12) first false started-IsIndexed (λ e. ground (arith, e)) first_lem

validate_block-Accepted_example :
    (prev : Block) × Accepted settings toy memory started.db (pos 12) first prev
validate_block-Accepted_example =
    validate_block-Accepted settings toy memory started.db none (pos 12) first false
      (λ e. ground (arith, e)) first_lem

validate_transaction-Transfers_example :
    (us : List Utxo) × Transfers settings toy memory started.db payment us
validate_transaction-Transfers_example =
    validate_transaction-Transfers settings toy memory started.db payment (λ e. ground (arith, e))
      payment_lem

abbrev half : ℕ
half = 9223372036854775808

validate_transfer-wraps_example :
    (validate_transfer settings toy memory started.db
        (with_outputs payment (pays 9 half) (pays 9 half))
      ≡ validate_transfer settings toy memory started.db payment)
    × (calculate_tx_fee settings toy memory started.db
          (with_outputs payment (pays 9 half) (pays 9 half))
        ≡ calculate_tx_fee settings toy memory started.db payment)
validate_transfer-wraps_example =
    validate_transfer-wraps settings toy memory started.db payment (pays 9 half) (pays 9 half)
      (omega arith)
