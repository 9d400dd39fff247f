-- ===== src/App/Tests.antt =====
-- The properties of app/, applied to a node of four validators.
use abcfe.Base.{◌+◌, [], ◌∷◌, some, ◌≡◌, refl}
use abcfe.Base.Int.{pos}
use abcfe.Core.Types.{Block}
use abcfe.Core.Errors.{ok}
use abcfe.Core.Crypto.{Crypto}
use abcfe.Core.Store.{put_all}
use abcfe.Core.Merkle.{calculate_merkle_root}
use abcfe.Core.Validate.{validate_genesis_block, validate_merkle_root, validate_block_hash}
use abcfe.Core.Chain.{add_block}
use abcfe.Core.Genesis.{genesis_block}
use abcfe.Core.Tests.{settings, toy, memory, reward, first, started}
use abcfe.Core.Tests.Blocks.{started-IsIndexed}
use abcfe.Core.Tests.Transfers.{hex}
use abcfe.Consensus.Tests.{seeds, sealed}
use abcfe.Consensus.Tests.Engines.{Db, env, waits}
use abcfe.App.{App, Gossip, handle_block, hold_block}
use abcfe.Base.{◌⊎◌}
use abcfe.Core.Tests.{payment}
use abcfe.Consensus.Engine.{Engine}
use abcfe.Consensus.Engine.Handlers.{handle_vote}
use abcfe.Consensus.Engine.Steps.{vote}
use abcfe.Consensus.Engine.History.{SignedTip}
use abcfe.Consensus.Votes.{precommit}
use abcfe.Consensus.Tests.{four, four-IsWeighed, four_active}
use abcfe.Consensus.Tests.Engines.{votes_at}
use abcfe.App.Run.{
  Node, app_of, with_app, engine_step, block_step, tx_step, begin, next, NodeReach-tip,
}
use abcfe.App.{handle_tx}
use abcfe.App.Blocks.{Follows, handle_block-Follows}
use abcfe.App.Genesis.{handle_block-replaces}

abbrev second : Block
second = record first {
  header = record (first.header) { height = 2; hash = 9002; prev_hash = 9001 };
}

-- Block 2 came before block 1.
abbrev node : App Db
node = record {
  chain = started;
  consensus = waits.consensus;
  pending = (2, second) ∷ [];
  peers = 6 ∷ 9 ∷ [];
  sent = [];
}

handle_block-Follows_example :
    (b : App Db) × (handle_block settings toy memory env sealed node ≡ some b)
    × Follows settings toy memory seeds node b
handle_block-Follows_example = handle_block-Follows settings toy memory seeds env sealed node

-- Block 3 is held, and blocks 1 and 2 are asked for.
third :
    handle_block settings toy memory env
      (record second { header = record (second.header) { height = 3 } })
      node
    ≡ some (hold_block (record second { header = record (second.header) { height = 3 } }) node)
unfolding handle_block started add_block
third = refl

asked :
    (hold_block (record second { header = record (second.header) { height = 3 } }) node).sent
    ≡ Gossip.get_blocks 6 1 2 ∷ []
unfolding hold_block started add_block
asked = refl

-- Hashes that tell headers with different roots apart.
abbrev rooted : Crypto
rooted = record toy { hash_header = λ h. 9000 + h.height + h.merkle_root }

abbrev usurper : Block
usurper = genesis_block settings rooted hex (pos 7) (reward ∷ [])

usurper_height : usurper.header.height ≡ 0
unfolding genesis_block
usurper_height = refl

usurper_lem : validate_genesis_block rooted usurper ≡ ok tt
unfolding genesis_block validate_genesis_block validate_merkle_root validate_block_hash
    calculate_merkle_root
usurper_lem = refl

node_height : node.chain.latest_height ≡ 0
unfolding started add_block
node_height = refl

handle_block-replaces_example :
    (b : App Db) × (handle_block settings rooted memory env usurper node ≡ some b)
    × (b.chain.latest_height ≡ 0)
    × (b.chain.latest_block_hash ≡ some usurper.header.hash)
handle_block-replaces_example =
    handle_block-replaces memory (λ db b. ((λ k. put_all b k (db k)), refl)) settings rooted env
      usurper node started-IsIndexed node_height usurper_height usurper_lem

abbrev whole : Node Db
whole = record { engine = waits; pending = (2, second) ∷ []; peers = 6 ∷ 9 ∷ []; sent = [] }

-- The payment comes in, then the third precommit, then block 1 from a peer.
abbrev paid : Node Db
paid = with_app whole (handle_tx settings toy memory payment (app_of whole))

abbrev committed : Engine Db
committed = handle_vote settings toy memory seeds env (votes_at precommit 9001 4) paid.engine

abbrev voted : Node Db
voted = record paid { engine = committed }

abbrev synced : App Db
synced = (handle_block-Follows settings toy memory seeds env sealed (app_of voted)).0

synced_lem : handle_block settings toy memory env sealed (app_of voted) ≡ some synced
synced_lem = (handle_block-Follows settings toy memory seeds env sealed (app_of voted)).1

NodeReach-tip_example :
    ((with_app voted synced).engine.chain.latest_block_hash ≡ started.latest_block_hash)
    ⊎ SignedTip settings toy memory seeds four (with_app voted synced).engine.chain
NodeReach-tip_example =
    NodeReach-tip settings toy memory seeds {n = whole} {m = with_app voted synced} four_active
      four-IsWeighed
      (next
        (next (next begin (tx_step payment)) (engine_step (vote env (votes_at precommit 9001 4))))
        (block_step env sealed synced_lem))
