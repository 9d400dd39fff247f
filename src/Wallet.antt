-- ===== src/Wallet.antt =====
-- wallet/: the mnemonic wallet and its file. The mnemonics are those of
-- github.com/tyler-smith/go-bip39, the files are the operating system's and the text of the file is
-- encoding/json's: each is a parameter. A panic is an error of its own.
pub mod Keys
pub mod Manager
pub mod Derived
pub mod Restored
pub mod Linked
pub mod Saved
mod Tests
