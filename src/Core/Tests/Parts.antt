-- ===== src/Core/Tests/Parts.antt =====
-- The properties of the Merkle tree, the mempool, the outputs and the duplicate checks, applied to
-- the small chain.
use abcfe.Core.Store.{tx_input_key, utxo_key, key_eq}
use abcfe.Core.Store.Text.{key_text}
use abcfe.Core.Store.Text.Distinct.{key_eq-key_text}
use abcfe.Base.{List, [], ◌∷◌, true, ◌≡◌, ◌↔◌, refl, ◌⊎◌}
use abcfe.Base.Assoc.{values}
use abcfe.Core.Types.{Utxo}
use abcfe.Core.Errors.{ok}
use abcfe.Core.Store.{utxo_list_key, of_utxo_list, found}
use abcfe.Core.Mempool.{Mempool, get_txs}
use abcfe.Core.Mempool.Priority.{Picks, get_txs-Picks}
use abcfe.Core.Merkle.{ids_of}
use abcfe.Core.Merkle.Binding.{Collision, calculate_merkle_root-binds}
use abcfe.Core.Chain.{add_block}
use abcfe.Base.{arith, ◌%◌, u64_mod, false}
use abcfe.Core.Account.{get_balance}
use abcfe.Core.Account.Balance.{get_balance-total}
use abcfe.Core.Utxo.Balance.{total_amount, Answers}
use abcfe.Core.Tests.{toy, memory, payment, reward, started}
use abcfe.Core.Tests.Blocks.{started-IsIndexed}

calculate_merkle_root-binds_example :
    (ids_of (reward ∷ payment ∷ []) ≡ ids_of (reward ∷ payment ∷ [])) ⊎ Collision toy
calculate_merkle_root-binds_example =
    calculate_merkle_root-binds toy (reward ∷ payment ∷ []) (reward ∷ payment ∷ []) refl refl

abbrev waiting : Mempool
waiting = (501, record { tx = payment; fee = 1 }) ∷ (510, record { tx = reward; fee = 4 }) ∷ []

get_txs-Picks_example : Picks (values waiting) (get_txs waiting)
get_txs-Picks_example = get_txs-Picks waiting

owned_list :
    started.db (utxo_list_key 7) ≡ found (of_utxo_list (record { tx = 500; index = 0 } ∷ []))
unfolding started add_block
owned_list = refl

get_balance-total_example :
    (us : List Utxo) × Answers memory started.db [] 7 false us
    × (get_balance memory started.db [] 7 ≡ ok (total_amount us % u64_mod))
get_balance-total_example =
    get_balance-total memory started.db [] 7 (record { tx = 500; index = 0 } ∷ []) started-IsIndexed
      owned_list

key_eq-key_text_example :
    (key_eq (utxo_key 500 0) (tx_input_key 500 0) ≡ true)
    ↔ (key_text (utxo_key 500 0) ≡ key_text (tx_input_key 500 0))
key_eq-key_text_example =
    key_eq-key_text (utxo_key 500 0) (tx_input_key 500 0) (omega arith, omega arith)
      (omega arith, omega arith)
