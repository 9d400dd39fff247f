-- ===== src/Wallet/Restored.antt =====
-- A wallet of wallet/keystore.go that is restored from its mnemonic.
use mathlib.Core.List.{append-nil, append_assoc}
use abcfe.Base.{
  ℕ, zero, suc, ◌-◌, List, [], ◌∷◌, ◌++◌, some, ◌≡◌, refl, sym, ap, ◌∙◌, subst, length, arith,
  length-append,
}
use abcfe.Base.Int.{pos}
use abcfe.Core.Errors.{ok}
use abcfe.Core.Crypto.{Crypto}
use abcfe.Wallet.Keys.{Curve}
use abcfe.Wallet.Manager.{
  Account, MnemonicWallet, WalletManager, Bip39, get_current_account, derive_account,
  restore_wallet, add_account,
}
use abcfe.Wallet.Derived.{AllDerived, Reach, Reach-Holds, in_range-account_at}

module _ (c : Crypto) (curve : Curve c.PublicKey) (bip : Bip39) where
  -- `AddAccount` so many times.
  abbrev pub add_accounts : ℕ → WalletManager → WalletManager
  add_accounts zero p = p
  add_accounts (suc n) p = add_accounts n (add_account c curve p).0

  add_account-ok :
      (p : WalletManager) (w : MnemonicWallet) (a : Account)
      → p.wallet ≡ some w
      → derive_account c curve w (length w.accounts) ≡ ok a
      → (add_account c curve p).0
        ≡ record p { wallet = some (record w { accounts = w.accounts ++ (a ∷ []) }) }
  unfolding add_account
  add_account-ok p w a o d = ground (arith, o, d)

  add_accounts-AllDerived :
      (p : WalletManager) (w : MnemonicWallet) (bs : List Account)
      → p.wallet ≡ some w
      → AllDerived (λ i. derive_account c curve w i) (length w.accounts) bs
      → (add_accounts (length bs) p).wallet ≡ some (record w { accounts = w.accounts ++ bs })
  unfolding derive_account
  add_accounts-AllDerived p w [] o m =
      o ∙ ap (λ bs. some (record w { accounts = bs })) (sym (append-nil w.accounts))
  add_accounts-AllDerived p w (b ∷ bs) o m =
      let p' : WalletManager = record p {
        wallet = some (record w { accounts = w.accounts ++ (b ∷ []) });
      } in
      subst
        (λ x.
          (add_accounts (length bs) x).wallet
          ≡ some (record w { accounts = w.accounts ++ (b ∷ bs) }))
        (sym (add_account-ok p w b o m.0))
        (add_accounts-AllDerived p' (record w { accounts = w.accounts ++ (b ∷ []) }) bs refl
            (subst (λ j. AllDerived (λ i. derive_account c curve w i) j bs)
              (sym (length-append w.accounts (b ∷ []) ∙ omega arith)) m.1)
          ∙ ap (λ ds. some (record w { accounts = ds })) (append_assoc w.accounts (b ∷ []) bs))

  -- However a wallet came about, by creating, restoring, adding accounts and switching between them,
  -- its current account is there, and a manager that restores its mnemonic and adds as many accounts
  -- as it had has the same wallet, but for the current account.
  pub restore_wallet-recovers :
      (p q : WalletManager) (w : MnemonicWallet)
      → Reach c curve bip p
      → p.wallet ≡ some w
      → ((a : Account) × (get_current_account p ≡ ok a))
        × ((add_accounts (length w.accounts - 1) (restore_wallet c curve bip w.mnemonic q).0).wallet
            ≡ some (record w { current_index = pos 0 }))
  unfolding get_current_account restore_wallet derive_account
  restore_wallet-recovers p q w r o =
      let i = Reach-Holds c curve bip p r w o in
      let (a, there) = in_range-account_at w.accounts w.current_index i.current in
      let w1 : MnemonicWallet = record w { accounts = i.first ∷ []; current_index = pos 0 } in
      let q' : WalletManager = record q { wallet = some w1 } in
      let opened : (restore_wallet c curve bip w.mnemonic q).0 ≡ q' =
        rw i.valid (rw i.opened refl) in
      let n : length w.accounts - 1 ≡ length i.rest =
        ap (λ bs. length bs - 1) i.accounts ∙ omega arith in
      (
        (a, ground (arith, o, i.accounts, there)),
        rw opened (
            rw n (
              add_accounts-AllDerived q' w1 i.rest refl i.others
              ∙ ap (λ bs. some (record w { accounts = bs; current_index = pos 0 }))
                  (sym i.accounts))),
      )
