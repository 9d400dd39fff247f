-- ===== src/Wallet/Derived.antt =====
-- What the wallet of wallet/keystore.go holds after any operations, and after it is restored.
use abcfe.Base.{
  ℕ, suc, ◌+◌, List, [], ◌∷◌, ◌++◌, Option, some, true, ◌≡◌, refl, ap, ◌∙◌, subst, length,
  get_elem?-total, arith, inl, inr, Option-cases, Bool-cases, length-append, ltb→lt,
}
use abcfe.Base.Int.{ℤ, pos, negsuc}
use abcfe.Core.Types.{Bytes}
use abcfe.Core.Errors.{Result, ok, err, Result-cases}
use abcfe.Core.Crypto.{Crypto}
use abcfe.Wallet.Keys.{Curve, derive_master_key, private_key_to_bytes}
use abcfe.Wallet.Manager.{
  Account, MnemonicWallet, WalletManager, Bip39, new_wallet_manager, in_range, account_at,
  switch_account, derive_account, wallet_of, hold, create_wallet, restore_wallet, add_account,
}

-- The accounts from an index on.
abbrev pub AllDerived : (ℕ → Result Account) → ℕ → List Account → Type 0
AllDerived derive i [] = Unit
AllDerived derive i (a ∷ as') = (derive i ≡ ok a) × AllDerived derive (suc i) as'

AllDerived-append :
    (derive : ℕ → Result Account) (i : ℕ) (as' : List Account) (a : Account)
    → AllDerived derive i as'
    → derive (i + length as') ≡ ok a
    → AllDerived derive i (as' ++ (a ∷ []))
AllDerived-append derive i [] a m h = (subst (λ j. derive j ≡ ok a) (omega arith) h, tt)
AllDerived-append derive i (b ∷ bs) a m h =
    (m.0, AllDerived-append derive (suc i) bs a m.1 (subst (λ j. derive j ≡ ok a) (omega arith) h))

in_range-append :
    (as' bs : List Account) (i : ℤ) → in_range as' i ≡ true → in_range (as' ++ bs) i ≡ true
in_range-append as' bs (pos i) h = ground (arith, h, length-append as' bs)
in_range-append as' bs (negsuc i) h = h

-- An index in range is that of an account.
pub in_range-account_at :
    (as' : List Account) (i : ℤ) → in_range as' i ≡ true → (a : Account) × (account_at as' i ≡ ok a)
unfolding account_at
in_range-account_at as' (negsuc i) h = absurd (ground (arith, h))
in_range-account_at as' (pos i) h =
    let (a, e) = get_elem?-total as' i (ltb→lt i (length as') h) in (a, rw e refl)

module _ (c : Crypto) (curve : Curve c.PublicKey) (bip : Bip39) where
  -- The wallet is the one that its mnemonic gives, with more accounts of the indices that follow,
  -- and its current account is one of them.
  pub record IsDerived (w : MnemonicWallet) : Type 0 where
    pub valid : bip.is_mnemonic_valid w.mnemonic ≡ true
    pub first : Account
    pub rest : List Account
    pub accounts : w.accounts ≡ first ∷ rest
    pub opened :
        wallet_of c curve bip w.mnemonic
        ≡ ok (record w { accounts = first ∷ []; current_index = pos 0 })
    pub others : AllDerived (λ i. derive_account c curve w i) 1 rest
    pub current : in_range w.accounts w.current_index ≡ true

  -- Any operations on a new manager, in any order.
  pub data Reach : WalletManager → Type 0 where
    start : (dir : Bytes) → Reach (new_wallet_manager dir)
    created :
        {p : WalletManager}
        → Reach p
        → (entropy : Option Bytes) → Reach (create_wallet c curve bip entropy p).0
    restored :
        {p : WalletManager}
        → Reach p
        → (mnemonic : Bytes) → Reach (restore_wallet c curve bip mnemonic p).0
    extended : {p : WalletManager} → Reach p → Reach (add_account c curve p).0
    switched : {p : WalletManager} → Reach p → (index : ℤ) → Reach (switch_account p index).0

  abbrev pub Holds : WalletManager → Type 0
  Holds p = (w : MnemonicWallet) → p.wallet ≡ some w → IsDerived w

  wallet_of-IsDerived :
      (mnemonic : Bytes) (w : MnemonicWallet)
      → bip.is_mnemonic_valid mnemonic ≡ true
      → wallet_of c curve bip mnemonic ≡ ok w
      → IsDerived w
  unfolding wallet_of
  wallet_of-IsDerived mnemonic w valid h =
      elim (Option-cases
        (private_key_to_bytes curve (derive_master_key curve (bip.new_seed mnemonic)))) [
          | inl e ↦ ground (arith, h, e)
          | inr (key, e) ↦
              let w0 : MnemonicWallet = record {
                mnemonic = mnemonic;
                seed = bip.new_seed mnemonic;
                master_key = key;
                accounts = [];
                current_index = pos 0;
              } in
              elim (Result-cases (derive_account c curve w0 0)) [
                | inr (x, e') ↦ ground (arith, h, e, e')
                | inl (a, e') ↦
                    let w1 : MnemonicWallet = record w0 { accounts = a ∷ [] } in
                    let same : w1 ≡ w = ground (arith, h, e, e') in
                    subst IsDerived same (record {
                      valid = valid;
                      first = a;
                      rest = [];
                      accounts = refl;
                      opened = rw e (rw e' refl);
                      others = tt;
                      current = refl;
                    })
              ]
        ]

  hold-Holds :
      (p : WalletManager) (r : Result MnemonicWallet)
      → ((w : MnemonicWallet) → r ≡ ok w → IsDerived w)
      → Holds p
      → Holds (hold c curve p r).0
  hold-Holds p (ok v) h q = λ w e. subst IsDerived (ground (arith, e)) (h v refl)
  hold-Holds p (err x) h q = q

  extended-IsDerived :
      (w : MnemonicWallet) (a : Account)
      → IsDerived w
      → derive_account c curve w (length w.accounts) ≡ ok a
      → IsDerived (record w { accounts = w.accounts ++ (a ∷ []) })
  unfolding derive_account
  extended-IsDerived w a i d = record {
    valid = i.valid;
    first = i.first;
    rest = i.rest ++ (a ∷ []);
    accounts = ap (λ bs. bs ++ (a ∷ [])) i.accounts;
    opened = i.opened;
    others =
        AllDerived-append (λ j. derive_account c curve w j) 1 i.rest a i.others
          (subst (λ j. derive_account c curve w j ≡ ok a) (ap length i.accounts ∙ omega arith) d);
    current = in_range-append w.accounts (a ∷ []) w.current_index i.current;
  }

  switched-IsDerived :
      (w : MnemonicWallet) (index : ℤ)
      → IsDerived w
      → in_range w.accounts index ≡ true
      → IsDerived (record w { current_index = index })
  unfolding derive_account
  switched-IsDerived w index i h = record {
    valid = i.valid;
    first = i.first;
    rest = i.rest;
    accounts = i.accounts;
    opened = i.opened;
    others = i.others;
    current = h;
  }

  add_account-Holds : (p : WalletManager) → Holds p → Holds (add_account c curve p).0
  unfolding add_account
  add_account-Holds p q = λ w e. elim (Option-cases p.wallet) [
    | inl o ↦ ground (arith, e, o)
    | inr (v, o) ↦ elim (Result-cases (derive_account c curve v (length v.accounts))) [
      | inr (x, d) ↦ q w (ground (arith, e, o, d))
      | inl (a, d) ↦ subst IsDerived (ground (arith, e, o, d)) (extended-IsDerived v a (q v o) d)
    ]
  ]

  switch_account-Holds :
      (p : WalletManager) (index : ℤ) → Holds p → Holds (switch_account p index).0
  unfolding switch_account
  switch_account-Holds p index q = λ w e. elim (Option-cases p.wallet) [
    | inl o ↦ ground (arith, e, o)
    | inr (v, o) ↦ elim (Bool-cases (in_range v.accounts index)) [
      | inr f ↦ q w (ground (arith, e, o, f))
      | inl t ↦ subst IsDerived (ground (arith, e, o, t)) (switched-IsDerived v index (q v o) t)
    ]
  ]

  create_wallet-Holds :
      (p : WalletManager) (entropy : Option Bytes)
      → Holds p
      → Holds (create_wallet c curve bip entropy p).0
  unfolding create_wallet
  create_wallet-Holds p entropy q =
      hold-Holds p _
        (λ w h. elim (Option-cases entropy) [
          | inl o ↦ ground (arith, h, o)
          | inr (bits, o) ↦ elim (Option-cases (bip.new_mnemonic bits)) [
            | inl o' ↦ ground (arith, h, o, o')
            | inr (m, o') ↦
                wallet_of-IsDerived m w (bip.new_mnemonic-valid bits m o')
                  (ground (arith, h, o, o'))
          ]
        ])
        q

  restore_wallet-Holds :
      (p : WalletManager) (mnemonic : Bytes)
      → Holds p
      → Holds (restore_wallet c curve bip mnemonic p).0
  unfolding restore_wallet
  restore_wallet-Holds p mnemonic q =
      hold-Holds p _
        (λ w h. elim (Bool-cases (bip.is_mnemonic_valid mnemonic)) [
          | inl t ↦ wallet_of-IsDerived mnemonic w t (ground (arith, h, t))
          | inr f ↦ ground (arith, h, f)
        ])
        q

  pub Reach-Holds : (p : WalletManager) → Reach p → Holds p
  Reach-Holds p (start dir) = λ w e. cc
  Reach-Holds p (created {p = q} r entropy) = create_wallet-Holds q entropy (Reach-Holds q r)
  Reach-Holds p (restored {p = q} r mnemonic) = restore_wallet-Holds q mnemonic (Reach-Holds q r)
  Reach-Holds p (extended {p = q} r) = add_account-Holds q (Reach-Holds q r)
  Reach-Holds p (switched {p = q} r index) = switch_account-Holds q index (Reach-Holds q r)
