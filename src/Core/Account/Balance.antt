-- ===== src/Core/Account/Balance.antt =====
-- What `GetBalance` (core/account.go) answers when the lists of core/utxo.go are an index.
use abcfe.Base.{◌%◌, List, ◌≡◌, false, arith, u64_mod}
use abcfe.Core.Types.{Address, Utxo}
use abcfe.Core.Errors.{ok}
use abcfe.Core.Store.{utxo_list_key, AddrUtxoSet, of_utxo_list, found, LevelDb}
use abcfe.Core.Mempool.{Mempool}
use abcfe.Core.Utxo.{cal_balance_utxo}
use abcfe.Core.Utxo.Balance.{
  Answers, get_utxo_list-Answers, total_amount, add_balance-eq, All-unspent,
}
use abcfe.Core.Utxo.Invariant.{IsIndexed}
use abcfe.Core.Account.{get_balance}

-- On a database whose lists are an index, `GetBalance` of an address that has a list succeeds: it is
-- the sum, modulo 2^64, of a list that holds, each once, exactly the stored outputs of the address
-- that are not spent, those that the mempool claims among them.
pub get_balance-total :
    (ldb : LevelDb) (db : ldb.Db) (m : Mempool) (a : Address) (l : AddrUtxoSet)
    → IsIndexed (ldb.get db)
    → ldb.get db (utxo_list_key a) ≡ found (of_utxo_list l)
    → (us : List Utxo) × Answers ldb db m a false us
      × (get_balance ldb db m a ≡ ok (total_amount us % u64_mod))
unfolding get_balance cal_balance_utxo
get_balance-total ldb db m a l inv e =
    let (us, h, answers) = get_utxo_list-Answers ldb db m a false l inv e in
    let sum = add_balance-eq 0 us (All-unspent ldb db m a false us answers.all) (omega arith) in
    (us, answers, ground (arith, h, sum))
