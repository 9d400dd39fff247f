-- ===== src/Wallet/Manager.antt =====
-- wallet/keystore.go.
use abcfe.Base.{
  ℕ, List, [], ◌∷◌, ◌++◌, Option, none, some, Bool, true, false, not, ◌≡◌, length, get_elem?,
  if◌then◌else◌, ltb,
}
use abcfe.Base.Int.{ℤ, pos, negsuc}
use abcfe.Base.Text.{codes, decimal}
use abcfe.Core.Types.{Address, Bytes, bytes_eq}
use abcfe.Core.Errors.{
  Result, ok, err, guard, or_fail, ◌>>=◌, ◌>>◌, entropy_failed, mnemonic_failed, invalid_mnemonic,
  wallet_missing, no_accounts, invalid_account_index, key_missing, bad_key, key_not_marshalled,
  wallet_dir_failed, wallet_write_failed, wallet_dir_missing, wallet_read_failed, undecodable,
  panics,
}
use abcfe.Core.Validate.{Check}
use abcfe.Core.Crypto.{Crypto, public_key_to_address}
use abcfe.Wallet.Keys.{
  PrivateKey, Curve, derive_master_key, derive_account_key, private_key_to_bytes,
  bytes_to_private_key,
}

pub record Account : Type 0 where
  pub index : ℕ
  pub address : Address
  pub private_key : Bytes
  pub public_key : Bytes
  pub path : Bytes
  pub unlocked : Bool

-- The index is an `int`, which a wallet file may set to anything.
pub record MnemonicWallet : Type 0 where
  pub mnemonic : Bytes
  pub seed : Bytes
  pub master_key : Bytes
  pub accounts : List Account
  pub current_index : ℤ

pub record WalletManager : Type 0 where
  pub wallet_dir : Bytes
  pub wallet : Option MnemonicWallet

-- go-bip39: a mnemonic that it makes is one that it finds valid.
pub record Bip39 : Type 0 where
  pub new_mnemonic : Bytes → Option Bytes
  pub is_mnemonic_valid : Bytes → Bool
  pub new_seed : Bytes → Bytes
  pub new_mnemonic-valid :
      (entropy mnemonic : Bytes)
      → new_mnemonic entropy ≡ some mnemonic
      → is_mnemonic_valid mnemonic ≡ true

-- `WalletStorage`, for files of some text: what is written is read back.
pub record WalletStorage (Text : Type 0) : Type 1 where
  pub Files : Type 0
  pub read : Files → Bytes → Option Text
  pub write : Files → Bytes → Text → Option Files
  pub create_dir : Files → Bytes → Option Files
  pub read-write :
      (fs fs' : Files) (path : Bytes) (text : Text)
      → write fs path text ≡ some fs'
      → read fs' path ≡ some text

-- encoding/json on a wallet, and `filepath.Join`: a wallet's text is decoded to the wallet.
pub record Format (Text : Type 0) : Type 0 where
  pub marshal : MnemonicWallet → Text
  pub unmarshal : Text → Option MnemonicWallet
  pub join : Bytes → Bytes → Bytes
  pub unmarshal-marshal : (w : MnemonicWallet) → unmarshal (marshal w) ≡ some w

-- `NewWalletManager`
abbrev pub new_wallet_manager : Bytes → WalletManager
new_wallet_manager dir = record { wallet_dir = dir; wallet = none }

-- The path of an account: the constants of wallet/types.go and the index.
unfoldable pub account_path : ℕ → Bytes
account_path index = codes "m/44'/60'/0'/0/" ++ decimal index

-- `strings.HasSuffix`
unfoldable pub has_suffix : Bytes → Bytes → Bool
has_suffix [] suffix = bytes_eq [] suffix
has_suffix (b ∷ bs) suffix = if bytes_eq (b ∷ bs) suffix then true else has_suffix bs suffix

-- An element at an `int`: out of range the run time panics.
unfoldable pub account_at : List Account → ℤ → Result Account
account_at accounts (pos i) = or_fail (get_elem? accounts i) panics
account_at accounts (negsuc i) = err panics

-- `GetCurrentAccount`
unfoldable pub get_current_account : WalletManager → Result Account
get_current_account p = elim p.wallet [
  | none ↦ err no_accounts
  | some w ↦ elim w.accounts [
    | [] ↦ err no_accounts
    | _ ∷ _ ↦ account_at w.accounts w.current_index
  ]
]

abbrev pub in_range : List Account → ℤ → Bool
in_range accounts (pos i) = ltb i (length accounts)
in_range accounts (negsuc i) = false

-- `SwitchAccount`
unfoldable pub switch_account : WalletManager → ℤ → WalletManager × Check
switch_account p index = elim p.wallet [
  | none ↦ (p, err wallet_missing)
  | some w ↦
      if in_range w.accounts index
      then (record p { wallet = some (record w { current_index = index }) }, ok tt)
      else (p, err invalid_account_index)
]

-- `GetMnemonic` and `GetAccounts`
unfoldable pub get_mnemonic : WalletManager → Result Bytes
get_mnemonic p = do w ← or_fail p.wallet wallet_missing; ok w.mnemonic

unfoldable pub get_accounts : WalletManager → Result (List Account)
get_accounts p = do w ← or_fail p.wallet wallet_missing; ok w.accounts

module _ (c : Crypto) (curve : Curve c.PublicKey) where
  open c use {PublicKey}

  -- `deriveAccount`: a nil master key is a panic.
  unfoldable pub derive_account : MnemonicWallet → ℕ → Result Account
  derive_account w index = do
    parsed ← bytes_to_private_key curve w.master_key
    master ← or_fail parsed panics
    let key = derive_account_key curve master (account_path index)
    private_key ← or_fail (private_key_to_bytes curve key) key_not_marshalled
    public_key ← or_fail (curve.marshal_pkix key.public_key) key_not_marshalled
    ok (record {
      index = index;
      address = public_key_to_address c key.public_key;
      private_key = private_key;
      public_key = public_key;
      path = account_path index;
      unlocked = true;
    })

  -- What `CreateWallet` and `RestoreWallet` do with a mnemonic.
  unfoldable pub wallet_of : Bip39 → Bytes → Result MnemonicWallet
  wallet_of bip mnemonic = do
    let seed = bip.new_seed mnemonic
    master_key ←
        or_fail (private_key_to_bytes curve (derive_master_key curve seed)) key_not_marshalled
    let w : MnemonicWallet = record {
      mnemonic = mnemonic;
      seed = seed;
      master_key = master_key;
      accounts = [];
      current_index = pos 0;
    }
    account ← derive_account w 0
    ok (record w { accounts = account ∷ [] })

  abbrev pub hold : WalletManager → Result MnemonicWallet → WalletManager × Result MnemonicWallet
  hold p (ok w) = (record p { wallet = some w }, ok w)
  hold p (err e) = (p, err e)

  -- `CreateWallet`, at what `bip39.NewEntropy` gives
  unfoldable pub create_wallet :
      Bip39 → Option Bytes → WalletManager → WalletManager × Result MnemonicWallet
  create_wallet bip entropy p = hold p do
    bits ← or_fail entropy entropy_failed
    mnemonic ← or_fail (bip.new_mnemonic bits) mnemonic_failed
    wallet_of bip mnemonic

  -- `RestoreWallet`
  unfoldable pub restore_wallet :
      Bip39 → Bytes → WalletManager → WalletManager × Result MnemonicWallet
  restore_wallet bip mnemonic p =
      hold p do guard (bip.is_mnemonic_valid mnemonic) invalid_mnemonic; wallet_of bip mnemonic

  -- `AddAccount`
  unfoldable pub add_account : WalletManager → WalletManager × Result Account
  add_account p = elim p.wallet [
    | none ↦ (p, err wallet_missing)
    | some w ↦ elim (derive_account w (length w.accounts)) [
      | err e ↦ (p, err e)
      | ok a ↦ (record p { wallet = some (record w { accounts = w.accounts ++ (a ∷ []) }) }, ok a)
    ]
  ]

  -- The private key of an account: no bytes are an error of their own.
  unfoldable pub private_key_of : Account → Result (Option (PrivateKey PublicKey))
  private_key_of a = elim a.private_key [
    | [] ↦ err key_missing
    | _ ∷ _ ↦ bytes_to_private_key curve a.private_key
  ]

  -- `GetCurrentPrivateKey`
  unfoldable pub get_current_private_key : WalletManager → Result (Option (PrivateKey PublicKey))
  get_current_private_key p = do a ← get_current_account p; private_key_of a

  -- `GetCurrentPublicKey`: a key of another kind is a panic, which is not told apart here.
  unfoldable pub get_current_public_key : WalletManager → Result PublicKey
  get_current_public_key p = do
    a ← get_current_account p
    guard (not (bytes_eq a.public_key [])) key_missing
    or_fail (c.parse_pkix a.public_key) bad_key

  -- `GetAccountPrivateKey`
  unfoldable pub get_account_private_key :
      WalletManager → ℤ → Result (Option (PrivateKey PublicKey))
  get_account_private_key p index = elim p.wallet [
    | none ↦ err invalid_account_index
    | some w ↦ do
      guard (in_range w.accounts index) invalid_account_index
      a ← account_at w.accounts index
      private_key_of a
  ]

module _ {Text : Type 0} (format : Format Text) (storage : WalletStorage Text) where
  open storage use {Files, read, write, create_dir}

  -- `SaveWallet`
  unfoldable pub save_wallet : Files → WalletManager → Files × Check
  save_wallet fs p = elim p.wallet [
    | none ↦ (fs, err wallet_missing)
    | some w ↦ elim (create_dir fs p.wallet_dir) [
      | none ↦ (fs, err wallet_dir_failed)
      | some fs' ↦
          elim (write fs' (format.join p.wallet_dir (codes "wallet.json")) (format.marshal w)) [
            | none ↦ (fs', err wallet_write_failed)
            | some fs'' ↦ (fs'', ok tt)
          ]
    ]
  ]

  -- The file that `LoadWalletFile` reads.
  unfoldable pub wallet_file : Bytes → Bytes
  wallet_file dir =
      if has_suffix dir (codes ".json") then dir else format.join dir (codes "wallet.json")

  -- `LoadWalletFile`
  unfoldable pub load_wallet_file : Files → WalletManager → WalletManager × Check
  load_wallet_file fs p = elim p.wallet_dir [
    | [] ↦ (p, err wallet_dir_missing)
    | _ ∷ _ ↦ elim (read fs (wallet_file p.wallet_dir)) [
      | none ↦ (p, err wallet_read_failed)
      | some text ↦ elim (format.unmarshal text) [
        | none ↦ (p, err undecodable)
        | some w ↦ (record p { wallet = some w }, ok tt)
      ]
    ]
  ]

  -- `InitWallet`, at the path of the configuration
  unfoldable pub init_wallet : Files → Bytes → Result WalletManager
  init_wallet fs path =
      let (p, r) = load_wallet_file fs (new_wallet_manager path) in
      elim path [ [] ↦ err wallet_dir_missing | _ ∷ _ ↦ r >> ok p ]
