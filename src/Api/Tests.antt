-- ===== src/Api/Tests.antt =====
-- Requests to the node of the small chain, on which the properties of api/ are applied.
use abcfe.Base.{ℕ, refl, ◌+◌, ◌<◌, List, [], ◌∷◌, none, some, true, false, ◌≡◌, ◌⊎◌, arith}
use abcfe.Base.Assoc.{lookup, insert}
use abcfe.Base.Int.{pos}
use abcfe.Core.Types.{general, TxOutput, Transaction}
use abcfe.Core.Errors.{ok}
use abcfe.Core.Genesis.{string_to_address}
use abcfe.Core.Chain.{add_block}
use abcfe.Core.Validate.{sum_outputs, validate_transaction}
use abcfe.Core.Tests.{settings, toy, memory, started}
use abcfe.Core.Tests.Transfers.{hex}
use abcfe.Api.Response.{status_ok}
use abcfe.Api.Pages.{blocks_at, limit_of, total_pages}
use abcfe.Api.Pages.Heights.{down, up}
use abcfe.Api.Pages.Cover.{blocks_of_pages, get_blocks-all}
use abcfe.Api.Submit.{SubmitSignedTxReq, parse_outputs, submit_signed_tx}
use abcfe.Api.Submit.Taken.{IsRefused, IsTaken, submit_signed_tx-IsTaken}
use abcfe.Api.Submit.Minted.{submit_signed_tx-mints}

abbrev nine : List ℕ
nine = 9 ∷ 0 ∷ 0 ∷ 0 ∷ 0 ∷ 0 ∷ 0 ∷ 0 ∷ 0 ∷ 0 ∷ 0 ∷ 0 ∷ 0 ∷ 0 ∷ 0 ∷ 0 ∷ 0 ∷ 0 ∷ 0 ∷ 0 ∷ []

-- A million for address 9.
abbrev wish : SubmitSignedTxReq
wish = record {
  version = 2 ∷ [];
  timestamp = pos 30;
  inputs = [];
  outputs = record { address = nine; amount = 1000000; tx_type = general } ∷ [];
  memo = 7 ∷ 7 ∷ [];
  payload = [];
}

abbrev granted : TxOutput
granted = record { address = 9; amount = 1000000; tx_type = general }

granted_lem : parse_outputs hex wish.outputs ≡ ok (granted ∷ [])
unfolding parse_outputs string_to_address
granted_lem = refl

sum_lem : sum_outputs 0 (granted ∷ []) ≡ 1000000
unfolding sum_outputs
sum_lem = refl

new_lem : lookup 520 started.mempool ≡ none
unfolding started add_block
new_lem = refl

submit_signed_tx-mints_example :
    (tx : Transaction) × (tx.inputs ≡ [])
    × (tx.outputs ≡ granted ∷ [])
    × ((submit_signed_tx settings toy memory hex true started (some wish)).response.status
        ≡ status_ok)
    × ((submit_signed_tx settings toy memory hex true started (some wish)).chain.mempool
        ≡ insert tx.id (record { tx = tx; fee = 0 }) started.mempool)
    × (validate_transaction settings toy memory started.db tx ≡ ok tt)
submit_signed_tx-mints_example =
    submit_signed_tx-mints settings toy memory hex true started wish (granted ∷ []) refl granted_lem
      (λ e. ground (arith, e, sum_lem)) refl refl new_lem

submit_signed_tx-IsTaken_example :
    IsRefused settings toy memory hex started
      (submit_signed_tx settings toy memory hex true started (some wish))
    ⊎ IsTaken settings toy memory hex true wish started
        (submit_signed_tx settings toy memory hex true started (some wish))
submit_signed_tx-IsTaken_example =
    submit_signed_tx-IsTaken settings toy memory hex true started wish

low : started.latest_height + 101 < 9223372036854775808
unfolding started add_block
low = omega arith

get_blocks-all_example :
    (blocks_of_pages settings toy memory started
        (some (pos 1))
        true
        0
        (total_pages started.latest_height (limit_of (some (pos 1))))
      ≡ blocks_at settings toy memory started.db (down (started.latest_height + 1)))
    × (blocks_of_pages settings toy memory started
          (some (pos 1))
          false
          0
          (total_pages started.latest_height (limit_of (some (pos 1))))
        ≡ blocks_at settings toy memory started.db (up (started.latest_height + 1) 0))
get_blocks-all_example = get_blocks-all settings toy memory started (some (pos 1)) low
