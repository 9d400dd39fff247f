-- ===== src/Core/Propose/Repeats.antt =====
-- The outputs that the block of `SetBlock` (core/block.go) uses, before `ValidateDuplicateUTXO`
-- (core/validate.go).
use abcfe.Base.{ℕ, List, [], ◌∷◌, ◌++◌, false, ◌≡◌, ◌≢◌, ◌↔◌, arith, All, subst, sym, add64}
use abcfe.Base.Int.{ℤ}
use abcfe.Core.Types.{Hash, Address, TxInput, Transaction, Config}
use abcfe.Core.Errors.{ok}
use abcfe.Core.Crypto.{Crypto}
use abcfe.Core.Store.{Ref, AddrUtxoSet, LevelDb}
use abcfe.Core.Mempool.{Mempool, get_txs}
use abcfe.Core.Utxo.{ref_of}
use abcfe.Core.Validate.{validate_duplicate_utxo}
use abcfe.Core.Validate.Distinct.{
  Distinct, Unseen, Accepts, Accepts-Distinct, input_refs, block_refs, check_txs_refs-Accepts,
}
use abcfe.Core.Propose.{
  any_used, mark_used, create_coinbase_tx, select, block_txs, assemble, set_block,
}
use abcfe.Core.Propose.Selected.{Chosen, select-Chosen}

Accepts-append :
    (used : AddrUtxoSet) (is : List TxInput) (rs : List Ref)
    → Accepts used (input_refs is ++ rs)
      ↔ (Accepts used (input_refs is) × Accepts (mark_used used is) rs)
Accepts-append used [] rs = (λ a. (tt, a), λ a. a.1)
Accepts-append used (i ∷ is) rs = (
  λ a. let (b, c) = (Accepts-append (ref_of i ∷ used) is rs).0 a.1 in ((a.0, b), c),
  λ a. (a.0.0, (Accepts-append (ref_of i ∷ used) is rs).1 (a.0.1, a.1)),
)

any_used-Unseen :
    (used : AddrUtxoSet) (is : List TxInput)
    → any_used used is ≡ false
    → Unseen used (input_refs is)
any_used-Unseen used [] h = tt
any_used-Unseen used (i ∷ is) h = (ground (arith, h), any_used-Unseen used is (ground (arith, h)))

-- No transaction uses an output twice by itself.
abbrev pub OwnDistinct : List Transaction → Type 0
OwnDistinct = All (λ t. Distinct (input_refs t.inputs))

module _ (cfg : Config) (c : Crypto) (ldb : LevelDb) (db : ldb.Db) where
  Chosen-Accepts :
      (used : AddrUtxoSet) (fees total : ℕ) (ts : List Transaction)
      → Chosen cfg c ldb db used fees total ts
      → Accepts used (block_refs ts) ↔ OwnDistinct ts
  Chosen-Accepts used fees total [] h = (λ a. tt, λ a. tt)
  Chosen-Accepts used fees total (t ∷ ts) h =
      let (v, u, (fee, f, rest)) = h in
      let later = Chosen-Accepts (mark_used used t.inputs) (add64 fees fee) total ts rest in
      let own = Accepts-Distinct used (input_refs t.inputs) in
      let both = Accepts-append used t.inputs (block_refs ts) in
      (
        λ a. let (b, e) = both.0 a in ((own.0 b).0, later.0 e),
        λ d. both.1 (own.1 (d.0, any_used-Unseen used t.inputs u), later.1 d.1),
      )

  -- `ValidateDuplicateUTXO` accepts the block that `SetBlock` makes for a proposer exactly when no
  -- chosen transaction uses an output twice by itself.
  pub set_block-OwnDistinct :
      (m : Mempool) (prev : Hash) (height : ℕ) (proposer : Address) (time : ℤ)
      → proposer ≢ 0
      → (validate_duplicate_utxo (set_block cfg c ldb db m prev height proposer time).0.transactions
          ≡ ok tt)
        ↔ OwnDistinct (select cfg c ldb db [] 0 (get_txs m)).valid
  unfolding set_block block_txs assemble validate_duplicate_utxo
  set_block-OwnDistinct m prev height proposer time ne =
      let s = select cfg c ldb db [] 0 (get_txs m) in
      let txs = (set_block cfg c ldb db m prev height proposer time).0.transactions in
      let eq : txs ≡ create_coinbase_tx cfg c ldb proposer height s.fees time ∷ s.valid =
        ground (arith, ne) in
      let all = check_txs_refs-Accepts [] txs in
      let chosen =
        Chosen-Accepts [] 0 s.fees s.valid (select-Chosen cfg c ldb db [] 0 (get_txs m)) in
      (
        λ h. chosen.0 (subst (λ ts. Accepts [] (block_refs ts)) eq (all.0 h)),
        λ d. all.1 (subst (λ ts. Accepts [] (block_refs ts)) (sym eq) (chosen.1 d)),
      )
