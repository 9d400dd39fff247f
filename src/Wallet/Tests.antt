-- ===== src/Wallet/Tests.antt =====
-- A wallet with two accounts, on which the properties of wallet/ are applied.
use abcfe.Base.{
  ℕ, ◌+◌, ◌-◌, ◌<◌, [], ◌∷◌, ◌++◌, Option, none, some, true, false, if◌then◌else◌, ◌≡◌, refl, sym,
  ap, ◌∙◌, arith, length,
}
use abcfe.Base.Int.{pos}
use abcfe.Base.Text.{codes, decimal, digits}
use abcfe.Core.Types.{Bytes, bytes_eq, bytes_eq_self}
use abcfe.Core.Errors.{ok}
use abcfe.Core.Crypto.{public_key_to_address}
use abcfe.Core.Tests.{toy}
use abcfe.Wallet.Keys.{
  PrivateKey, Curve, derive_master_key, derive_account_key, private_key_to_bytes,
  bytes_to_private_key,
}
use abcfe.Wallet.Manager.{
  Account, MnemonicWallet, WalletManager, Bip39, WalletStorage, Format, new_wallet_manager,
  account_path, has_suffix, get_current_account, switch_account, derive_account, wallet_of,
  create_wallet, restore_wallet, add_account, save_wallet, init_wallet,
}
use abcfe.Wallet.Derived.{start, created, extended, switched}
use abcfe.Wallet.Restored.{add_accounts, restore_wallet-recovers}
use abcfe.Wallet.Linked.{private_key_from, derive_account-exposes}
use abcfe.Wallet.Saved.{save_wallet-init_wallet}

abbrev sum : Bytes → ℕ
sum [] = 0
sum (b ∷ bs) = b + sum bs

abbrev parse : Bytes → Option (PrivateKey ℕ)
parse (t ∷ d ∷ p ∷ []) = some (record { d = d; public_key = p })
parse _ = none

-- A curve whose points are the numbers below 1009.
abbrev small : Curve ℕ
small = record {
  order = 1009;
  order_pos = omega arith;
  base_mult = λ d. d;
  sha256 = sum;
  marshal_ec = λ key. some (4 ∷ key.d ∷ key.public_key ∷ []);
  parse_ec = parse;
  marshal_pkix = λ p. some (p ∷ []);
  parse-marshal = λ key lo hi e. (4, key.d ∷ key.public_key ∷ [], refl, refl);
}

abbrev words : Bip39
words = record {
  new_mnemonic = λ entropy. some entropy;
  is_mnemonic_valid = λ mnemonic. true;
  new_seed = λ mnemonic. mnemonic;
  new_mnemonic-valid = λ entropy mnemonic e. refl;
}

abbrev dir : Bytes
dir = codes "wallets"

-- A wallet is made, an account is added, and it becomes the current one.
abbrev used : WalletManager
used =
    (switch_account
      (add_account toy small
        (create_wallet toy small words (some (5 ∷ 7 ∷ [])) (new_wallet_manager dir)).0).0
      (pos 1)).0

abbrev blank : MnemonicWallet
blank = record { mnemonic = []; seed = []; master_key = []; accounts = []; current_index = pos 0 }

abbrev wallet_in : Option MnemonicWallet → MnemonicWallet
wallet_in none = blank
wallet_in (some w) = w

abbrev mine : MnemonicWallet
mine = wallet_in used.wallet

used_lem : used.wallet ≡ some mine
unfolding switch_account add_account create_wallet wallet_of derive_account derive_master_key
    derive_account_key private_key_to_bytes bytes_to_private_key
used_lem = refl

restore_wallet-recovers_example :
    ((a : Account) × (get_current_account used ≡ ok a))
    × ((add_accounts toy small words
          (length mine.accounts - 1)
          (restore_wallet toy small words mine.mnemonic (new_wallet_manager [])).0).wallet
        ≡ some (record mine { current_index = pos 0 }))
restore_wallet-recovers_example =
    restore_wallet-recovers toy small words used (new_wallet_manager []) mine
      (switched (extended (created (start dir) (some (5 ∷ 7 ∷ [])))) (pos 1)) used_lem

abbrev seeded : MnemonicWallet
seeded = record blank { master_key = 4 ∷ 12 ∷ 12 ∷ [] }

abbrev account : ℕ → ℕ → Account
account i d = record {
  index = i;
  address = d;
  private_key = 4 ∷ d ∷ d ∷ [];
  public_key = d ∷ [];
  path = account_path i;
  unlocked = true;
}

derived_lem :
    (derive_account toy small seeded 3 ≡ ok (account 3 826))
    × (derive_account toy small seeded 5 ≡ ok (account 5 828))
unfolding derive_account derive_account_key private_key_to_bytes bytes_to_private_key account_path
    decimal digits public_key_to_address
derived_lem = (refl, refl)

abbrev master : PrivateKey ℕ
master = record { d = 12; public_key = 12 }

master_lem : bytes_to_private_key small (4 ∷ 12 ∷ 12 ∷ []) ≡ ok (some master)
unfolding bytes_to_private_key
master_lem = refl

positive : 0 < (derive_account_key small master (account_path 3)).d
unfolding derive_account_key account_path decimal digits
positive = omega arith

derive_account-exposes_example :
    private_key_from toy small (account 3 826).private_key 3 5 ≡ ok (account 5 828).private_key
derive_account-exposes_example =
    derive_account-exposes toy small seeded 3 5 (account 3 826) (account 5 828) master master_lem
      positive derived_lem.0 derived_lem.1

-- Files that hold wallets.
abbrev disk : WalletStorage MnemonicWallet
disk = record {
  Files = Bytes → Option MnemonicWallet;
  read = λ fs path. fs path;
  write = λ fs path w. some (λ q. if bytes_eq q path then some w else fs q);
  create_dir = λ fs path. some fs;
  read-write = λ fs fs' path w e.
      ap (λ o. elim o [ none ↦ none | some f ↦ f path ]) (sym e) ∙ rw (bytes_eq_self path) refl;
}

abbrev as_is : Format MnemonicWallet
as_is = record {
  marshal = λ w. w;
  unmarshal = some;
  join = λ a b. a ++ (47 ∷ b);
  unmarshal-marshal = λ w. refl;
}

suffix_lem : has_suffix dir (codes ".json") ≡ false
unfolding has_suffix
suffix_lem = refl

saved_lem :
    save_wallet as_is disk (λ path. none) used
    ≡ ((save_wallet as_is disk (λ path. none) used).0, ok tt)
unfolding save_wallet switch_account add_account create_wallet wallet_of derive_account
    derive_master_key derive_account_key private_key_to_bytes bytes_to_private_key
saved_lem = refl

save_wallet-init_wallet_example :
    init_wallet as_is disk (save_wallet as_is disk (λ path. none) used).0 dir ≡ ok used
unfolding switch_account add_account create_wallet wallet_of derive_account derive_master_key
    derive_account_key private_key_to_bytes bytes_to_private_key
save_wallet-init_wallet_example =
    save_wallet-init_wallet as_is disk (λ path. none) (save_wallet as_is disk (λ path. none) used).0
      used mine (λ e. ground (arith, e)) suffix_lem used_lem saved_lem
