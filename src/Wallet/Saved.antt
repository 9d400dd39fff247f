-- ===== src/Wallet/Saved.antt =====
-- The wallet in its file: `SaveWallet` and `LoadWalletFile` of wallet/keystore.go.
use abcfe.Base.{[], ◌∷◌, some, false, ◌≡◌, ◌≢◌, refl, sym, ap, ◌∙◌, arith, inl, inr, Option-cases}
use abcfe.Base.Text.{codes}
use abcfe.Core.Types.{Bytes}
use abcfe.Core.Errors.{ok}
use abcfe.Wallet.Manager.{
  MnemonicWallet, WalletManager, WalletStorage, Format, has_suffix, save_wallet, wallet_file,
  load_wallet_file, init_wallet,
}

module _ {Text : Type 0} (format : Format Text) (storage : WalletStorage Text) where
  open storage use {Files, read, write, create_dir}

  -- The file that is written.
  saved_text :
      (fs fs' : Files) (p : WalletManager) (w : MnemonicWallet)
      → p.wallet ≡ some w
      → save_wallet format storage fs p ≡ (fs', ok tt)
      → read fs' (format.join p.wallet_dir (codes "wallet.json")) ≡ some (format.marshal w)
  unfolding save_wallet
  saved_text fs fs' p w o h = elim (Option-cases (create_dir fs p.wallet_dir)) [
    | inl e ↦ ground (arith, h, o, e)
    | inr (fs1, e) ↦
        elim (Option-cases
          (write fs1 (format.join p.wallet_dir (codes "wallet.json")) (format.marshal w))) [
            | inl e' ↦ ground (arith, h, o, e, e')
            | inr (fs2, e') ↦
                storage.read-write fs1 fs' (format.join p.wallet_dir (codes "wallet.json"))
                  (format.marshal w) (ground (arith, h, o, e, e'))
          ]
  ]

  loaded :
      (fs : Files) (dir : Bytes) (w : MnemonicWallet)
      → dir ≢ []
      → has_suffix dir (codes ".json") ≡ false
      → read fs (format.join dir (codes "wallet.json")) ≡ some (format.marshal w)
      → init_wallet format storage fs dir ≡ ok (record { wallet_dir = dir; wallet = some w })
  unfolding init_wallet load_wallet_file wallet_file
  loaded fs [] w n s text = absurd (n refl)
  loaded fs (b ∷ bs) w n s text = ground (arith, s, text, format.unmarshal-marshal w)

  -- A wallet that is saved without an error is what a node that starts with the same directory
  -- loads, when the directory is named and its name does not end in .json.
  pub save_wallet-init_wallet :
      (fs fs' : Files) (p : WalletManager) (w : MnemonicWallet)
      → p.wallet_dir ≢ []
      → has_suffix p.wallet_dir (codes ".json") ≡ false
      → p.wallet ≡ some w
      → save_wallet format storage fs p ≡ (fs', ok tt)
      → init_wallet format storage fs' p.wallet_dir ≡ ok p
  save_wallet-init_wallet fs fs' p w n s o h =
      loaded fs' p.wallet_dir w n s (saved_text fs fs' p w o h)
      ∙ ap (λ x. ok (record p { wallet = x })) (sym o)
