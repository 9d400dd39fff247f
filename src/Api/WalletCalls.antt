-- ===== src/Api/WalletCalls.antt =====
-- The handlers of api/rest/handler.go on the wallet.
use abcfe.Base.{ℕ, List, [], ◌∷◌, none, some}
use abcfe.Core.Types.{Bytes}
use abcfe.Core.Errors.{ok, err, not_initialized}
use abcfe.Core.Crypto.{Crypto}
use abcfe.Core.Store.Text.{address_to_string}
use abcfe.Wallet.Keys.{Curve}
use abcfe.Wallet.Manager.{Account, WalletManager, WalletStorage, Format, add_account, save_wallet}
use abcfe.Api.Response.{Response, internal_server_error, send, send_error}

pub record WalletAccountResp : Type 0 where
  pub index : ℕ
  pub address : Bytes
  pub path : Bytes

abbrev pub account_resp : Account → WalletAccountResp
account_resp a = record { index = a.index; address = address_to_string a.address; path = a.path }

unfoldable pub account_resps : List Account → List WalletAccountResp
account_resps [] = []
account_resps (a ∷ as') = account_resp a ∷ account_resps as'

-- `GetWalletAccounts`
unfoldable pub get_wallet_accounts : WalletManager → Response (List WalletAccountResp)
get_wallet_accounts wm = elim wm.wallet [
  | none ↦ send_error internal_server_error not_initialized
  | some w ↦ send (account_resps w.accounts)
]

-- `CreateNewAccount`: an account that cannot be saved stays in the wallet.
unfoldable pub create_new_account :
    {Text : Type 0} (c : Crypto)
    → Curve c.PublicKey
    → Format Text
    → (storage : WalletStorage Text) → storage.Files
    → WalletManager
    → storage.Files × WalletManager × Response WalletAccountResp
create_new_account c curve format storage fs wm = elim wm.wallet [
  | none ↦ (fs, wm, send_error internal_server_error not_initialized)
  | some w ↦
      let (wm', r) = add_account c curve wm in
      elim r [
        | err e ↦ (fs, wm', send_error internal_server_error e)
        | ok a ↦
            let (fs', saved) = save_wallet format storage fs wm' in
            elim saved [
              | err e ↦ (fs', wm', send_error internal_server_error e)
              | ok _ ↦ (fs', wm', send (account_resp a))
            ]
      ]
]
