-- ===== src/Core/Account.antt =====
-- core/account.go. Accounts and the lists of their transactions stand under prefixes of their own, so
-- they are a dictionary each. Each read and each write of an operation is told whether it succeeds.
pub mod Balance
use abcfe.Base.{ℕ, List, [], ◌∷◌, ◌++◌, Option, none, some, Bool, true, false, if◌then◌else◌}
use abcfe.Base.Assoc.{Dict, lookup, insert}
use abcfe.Base.Int.{ℤ}
use abcfe.Core.Types.{Hash, Address, Utxo}
use abcfe.Core.Errors.{Result, ok, err, ◌>>=◌, db_failure, write_failed}
use abcfe.Core.Store.{LevelDb}
use abcfe.Core.Mempool.{Mempool}
use abcfe.Core.Utxo.{get_utxo_list, cal_balance_utxo}
use abcfe.Core.Validate.{Check}

pub data AccountStatus : Type 0 where
  normal staking validating proposing jailed : AccountStatus

pub record Account : Type 0 where
  pub address : Address
  pub status : AccountStatus
  pub balance : ℕ  -- uint64
  pub created_at : ℤ
  pub updated_at : ℤ

pub record Accounts : Type 0 where
  pub accounts : Dict Account
  pub txs : Dict (List Hash)
  pub received : Dict (List Hash)
  pub sent : Dict (List Hash)

-- Whether a read and the writes of an operation succeed: the first write is that of `CreateAccount`.
pub record Io : Type 0 where
  pub read : Bool
  pub create : Bool
  pub write : Bool

-- `GetAccount`
unfoldable pub get_account : Io → Accounts → Address → Result (Option Account)
get_account io s a = if io.read then ok (lookup a s.accounts) else err db_failure

-- `saveAccount`
unfoldable pub save_account : Bool → Account → Accounts → Accounts × Check
save_account written account s =
    if written
    then (record s { accounts = insert account.address account s.accounts }, ok tt)
    else (s, err write_failed)

-- `CreateAccount`
unfoldable pub create_account : Io → ℤ → Address → Accounts → Accounts × Result Account
unfolding save_account
create_account io now a s =
    let account : Account = record {
      address = a;
      status = normal;
      balance = 0;
      created_at = now;
      updated_at = now;
    } in
    let (s', r) = save_account io.create account s in (s', r >>= λ _. ok account)

-- `GetOrCreateAccount`
unfoldable pub get_or_create_account : Io → ℤ → Address → Accounts → Accounts × Result Account
unfolding get_account create_account
get_or_create_account io now a s = elim (get_account io s a) [
  | err e ↦ (s, err e)
  | ok none ↦ create_account io now a s
  | ok (some account) ↦ (s, ok account)
]

-- One more hash on the list of an address.
unfoldable pub append_tx : Io → Address → Hash → Dict (List Hash) → Dict (List Hash) × Check
append_tx io a h d =
    let old : List Hash = elim (lookup a d) [ none ↦ [] | some l ↦ l ] in
    if io.read
    then (if io.write then (insert a (old ++ h ∷ []) d, ok tt) else (d, err write_failed))
    else (d, err db_failure)

-- `AddAccountTx`, `AddAccountTxReceived`, `AddAccountTxSent`
unfoldable pub add_account_tx : Io → Address → Hash → Accounts → Accounts × Check
unfolding append_tx
add_account_tx io a h s = let (d, r) = append_tx io a h s.txs in (record s { txs = d }, r)

unfoldable pub add_account_tx_received : Io → Address → Hash → Accounts → Accounts × Check
unfolding append_tx
add_account_tx_received io a h s =
    let (d, r) = append_tx io a h s.received in (record s { received = d }, r)

unfoldable pub add_account_tx_sent : Io → Address → Hash → Accounts → Accounts × Check
unfolding append_tx
add_account_tx_sent io a h s = let (d, r) = append_tx io a h s.sent in (record s { sent = d }, r)

-- `GetAccountTxList`, `GetAccountReceivedTxList` and `GetAccountSentTxList`, of their dictionaries
unfoldable pub get_tx_list : Io → Address → Dict (List Hash) → Result (List Hash)
get_tx_list io a d =
    if io.read then ok (elim (lookup a d) [ none ↦ [] | some l ↦ l ]) else err db_failure

-- `UpdateAccountStatus`
unfoldable pub update_account_status :
    Io → ℤ → Address → AccountStatus → Accounts → Accounts × Check
unfolding get_or_create_account save_account
update_account_status io now a status s =
    let (s', r) = get_or_create_account io now a s in
    elim r [
      | err e ↦ (s', err e)
      | ok account ↦ save_account io.write (record account { status = status; updated_at = now }) s'
    ]

module _ (ldb : LevelDb) where
  open ldb use {Db}

  -- `GetBalance`
  unfoldable pub get_balance : Db → Mempool → Address → Result ℕ
  get_balance db m a = do us ← get_utxo_list ldb db m a false; ok (cal_balance_utxo us)

  -- `UpdateAccountBalance`
  unfoldable pub update_account_balance :
      Db → Mempool → Io → ℤ → Address → Accounts → Accounts × Check
  unfolding get_or_create_account get_balance save_account
  update_account_balance db m io now a s =
      let (s', r) = get_or_create_account io now a s in
      elim r [
        | err e ↦ (s', err e)
        | ok account ↦ elim (get_balance db m a) [
          | err e ↦ (s', err e)
          | ok n ↦ save_account io.write (record account { balance = n; updated_at = now }) s'
        ]
      ]
