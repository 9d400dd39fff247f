-- ===== src/Core/Tests/Proposals.antt =====
-- The properties of `SetBlock`, applied to the small chain.
use abcfe.Base.{◌↔◌, arith}
use abcfe.Core.Errors.{ok}
use abcfe.Core.Validate.{validate_duplicate_utxo}
use abcfe.Core.Propose.{select}
use abcfe.Core.Mempool.{get_txs}
use abcfe.Core.Propose.Repeats.{OwnDistinct, set_block-OwnDistinct}
use abcfe.Base.{ℕ, zero, suc, ◌+◌, ◌*◌, [], ◌∷◌, ◌≡◌, refl, arith, length}
use abcfe.Base.Int.{pos}
use abcfe.Core.Types.{Bytes, max_txs_per_block}
use abcfe.Core.Errors.{err, too_many_txs}
use abcfe.Core.Mempool.{Mempool, get_txs}
use abcfe.Core.Validate.{validate_tx_count, validate_transaction, calculate_tx_fee}
use abcfe.Core.Propose.{set_block, select}
use abcfe.Core.Propose.Selected.{Proposes, set_block-Proposes, set_block-overfull}
use abcfe.Core.Tests.{settings, toy, memory, funding, payment, reward, started}

abbrev waiting_txs : Mempool
waiting_txs = (501, record { tx = payment; fee = 0 }) ∷ (510, record { tx = reward; fee = 0 }) ∷ []

set_block-Proposes_example :
    Proposes settings toy memory started.db 9000 1 3
      (pos 10)
      (set_block settings toy memory started.db waiting_txs 9000 1 3 (pos 10)).0
set_block-Proposes_example =
    set_block-Proposes settings toy memory started.db waiting_txs 9000 1 3 (pos 10)
      (λ e. ground (arith, e))

abbrev nines : ℕ → Bytes
nines zero = []
nines (suc n) = 9 ∷ nines n

-- Transactions without inputs, apart by their memos.
abbrev crowd : ℕ → Mempool
crowd zero = []
crowd (suc n) =
    (500 + 10 * n, record { tx = record funding { id = 500 + 10 * n; memo = nines n }; fee = 0 })
    ∷ crowd n

crowd_full :
    length (select settings toy memory started.db [] 0 (get_txs (crowd 100))).valid
    ≡ max_txs_per_block
unfolding select get_txs validate_transaction calculate_tx_fee
crowd_full = refl

set_block-overfull_example :
    validate_tx_count
      (set_block settings toy memory started.db (crowd 100) 9000 1 3 (pos 10)).0.transactions
    ≡ err too_many_txs
set_block-overfull_example =
    set_block-overfull settings toy memory started.db (crowd 100) 9000 1 3 (pos 10)
      (λ e. ground (arith, e)) crowd_full

set_block-OwnDistinct_example :
    (validate_duplicate_utxo
        (set_block settings toy memory started.db waiting_txs 9000 1 3 (pos 10)).0.transactions
      ≡ ok tt)
    ↔ OwnDistinct (select settings toy memory started.db [] 0 (get_txs waiting_txs)).valid
set_block-OwnDistinct_example =
    set_block-OwnDistinct settings toy memory started.db waiting_txs 9000 1 3 (pos 10)
      (λ e. ground (arith, e))
