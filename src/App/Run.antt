-- ===== src/App/Run.antt =====
-- The node as a whole: the engine of consensus/engine.go and the handlers of app/app.go on one chain and
-- one consensus, in any order.
use abcfe.Base.{ℕ, List, [], some, ◌≡◌, ◌≢◌, ◌⊎◌, inl, inr, refl, arith, sym, subst}
use abcfe.Base.Assoc.{Dict}
use abcfe.Core.Types.{Transaction, Block, Config}
use abcfe.Core.Crypto.{Crypto}
use abcfe.Core.Errors.{Result-cases}
use abcfe.Core.Store.{LevelDb}
use abcfe.Core.Mempool.{new_transaction}
use abcfe.Core.Validate.{validate_transaction}
use abcfe.Consensus.Validators.{get_active_validators}
use abcfe.Consensus.Commit.Quorum.{IsWeighed}
use abcfe.Consensus.Selection.{Seeds}
use abcfe.Consensus.Engine.{Engine, Env}
use abcfe.Consensus.Engine.Steps.{here, pooled, Step, outside, heard, Reach, start, later}
use abcfe.Consensus.Engine.History.{SignedTip, Reach-tip}
use abcfe.App.{App, Gossip, handle_block, handle_tx}
use abcfe.App.Blocks.{Follows, handle_block-Follows}

-- The chain and the consensus are those of the engine.
pub record Node (Db : Type 0) : Type 0 where
  pub engine : Engine Db
  pub pending : Dict Block
  pub peers : List ℕ
  pub sent : List Gossip

module _ {Db : Type 0} where
  abbrev pub app_of : Node Db → App Db
  app_of n = record {
    chain = n.engine.chain;
    consensus = n.engine.consensus;
    pending = n.pending;
    peers = n.peers;
    sent = n.sent;
  }

  -- The engine, after a handler.
  abbrev pub engine_of : Engine Db → App Db → Engine Db
  engine_of e a = record e { chain = a.chain; consensus = a.consensus }

  abbrev pub with_app : Node Db → App Db → Node Db
  with_app n a = record {
    engine = engine_of n.engine a;
    pending = a.pending;
    peers = a.peers;
    sent = a.sent;
  }

module _ (cfg : Config) (c : Crypto) (ldb : LevelDb) (seeds : Seeds) where
  open ldb use {Db}

  pub data NodeStep (n : Node Db) : Node Db → Type 0 where
    engine_step :
        {f : Engine Db} → Step cfg c ldb seeds n.engine f → NodeStep n (record n { engine = f })
    block_step :
        (env : Env Db) (blk : Block) {a : App Db}
        → handle_block cfg c ldb env blk (app_of n) ≡ some a
        → NodeStep n (with_app n a)
    tx_step : (tx : Transaction) → NodeStep n (with_app n (handle_tx cfg c ldb tx (app_of n)))
    peer_step : (peers : List ℕ) → NodeStep n (record n { peers = peers })

  pub data NodeReach (n : Node Db) : Node Db → Type 0 where
    begin : NodeReach n n
    next : {m o : Node Db} → NodeReach n m → NodeStep m o → NodeReach n o

  -- What the block handler does is what the engine can see of it.
  Follows-Reach :
      (n : Node Db) (a : App Db)
      → Follows cfg c ldb seeds (app_of n) a
      → Reach cfg c ldb seeds n.engine (engine_of n.engine a)
  Follows-Reach n a f =
      let grown = later start (outside a.chain f.grown) in
      elim f.consensus [
        | inl same ↦
            subst
              (λ con.
                Reach cfg c ldb seeds n.engine
                  (record (n.engine) { chain = a.chain; consensus = con }))
              (sym same) grown
        | inr (h, e) ↦
            subst
              (λ con.
                Reach cfg c ldb seeds n.engine
                  (record (n.engine) { chain = a.chain; consensus = con }))
              (sym e) (later grown (heard h))
      ]

  handle_tx-Follows :
      (tx : Transaction) (a : App Db) → Follows cfg c ldb seeds a (handle_tx cfg c ldb tx a)
  unfolding handle_tx
  handle_tx-Follows tx a = elim (Result-cases (validate_transaction cfg c ldb a.chain.db tx)) [
    | inr (x, e) ↦ unchanged (ground (arith, e))
    | inl (u, e) ↦ elim (Result-cases (new_transaction a.chain.mempool tx)) [
      | inr (x, e') ↦ unchanged (ground (arith, e, e'))
      | inl (m, e') ↦
          let pool : (handle_tx cfg c ldb tx a).chain ≡ record (a.chain) { mempool = m } =
            ground (arith, e, e') in
          record {
            consensus = inl (ground (arith, e, e'));
            same = ground (arith, e, e');
            grown = rw pool (pooled here m);
          }
    ]
  ]
    where
      unchanged :
          (handle_tx cfg c ldb tx a ≡ a) → Follows cfg c ldb seeds a (handle_tx cfg c ldb tx a)
      unchanged e =
          subst (λ b. Follows cfg c ldb seeds a b) (sym e)
            (record { consensus = inl refl; same = refl; grown = here })

  Reach-trans :
      {e f g : Engine Db}
      → Reach cfg c ldb seeds e f
      → Reach cfg c ldb seeds f g
      → Reach cfg c ldb seeds e g
  Reach-trans r start = r
  Reach-trans r (later s st) = later (Reach-trans r s) st

  -- Each step of the node is some steps of its engine.
  NodeStep-Reach : {n m : Node Db} → NodeStep n m → Reach cfg c ldb seeds n.engine m.engine
  NodeStep-Reach (engine_step s) = later start s
  NodeStep-Reach {n} (block_step env blk {a} e) =
      let (b, e', f) = handle_block-Follows cfg c ldb seeds env blk (app_of n) in
      let same : b ≡ a = ground (arith, e, e') in
      Follows-Reach n a (subst (λ x. Follows cfg c ldb seeds (app_of n) x) same f)
  NodeStep-Reach {n} (tx_step tx) = Follows-Reach n _ (handle_tx-Follows tx (app_of n))
  NodeStep-Reach (peer_step peers) = start

  NodeReach-Reach : {n m : Node Db} → NodeReach n m → Reach cfg c ldb seeds n.engine m.engine
  NodeReach-Reach begin = start
  NodeReach-Reach (next r s) = Reach-trans (NodeReach-Reach r) (NodeStep-Reach s)

  -- In whatever order the rounds, the own votes and the timeouts of a node with a weighed set of
  -- validators come, and the proposals, votes, blocks and transactions of its peers: its latest
  -- block hash is the one that it started with, or that of a block which its database holds under
  -- it, and which different active validators with more than two thirds of the power signed or
  -- which is of height 0. The condition on what runs beside the engine, such as the block sync of a
  -- timeout: it changes the mempool only, or adds blocks that `ValidateBlock` accepts with the check
  -- of the commit.
  pub NodeReach-tip :
      {n m : Node Db}
      → get_active_validators n.engine.consensus.validator_set ≢ []
      → IsWeighed n.engine.consensus.validator_set
      → NodeReach n m
      → (m.engine.chain.latest_block_hash ≡ n.engine.chain.latest_block_hash)
        ⊎ SignedTip cfg c ldb seeds n.engine.consensus.validator_set m.engine.chain
  NodeReach-tip active w r = Reach-tip cfg c ldb seeds active w (NodeReach-Reach r)
