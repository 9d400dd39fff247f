-- ===== src/Api/Queries.antt =====
-- The handlers of api/rest/handler.go that only read.
use abcfe.Base.{ℕ, List, [], ◌∷◌, Option, none, some, Bool, false, if◌then◌else◌, length}
use abcfe.Base.Text.{codes}
use abcfe.Base.Assoc.{Dict, values}
use abcfe.Core.Types.{Hash, Bytes, Config}
use abcfe.Core.Errors.{ok, err, or_fail, invalid_request, not_initialized}
use abcfe.Core.Crypto.{Crypto}
use abcfe.Core.Store.{LevelDb}
use abcfe.Core.Store.Text.{hash_to_string, address_to_string}
use abcfe.Core.Mempool.{get_txs}
use abcfe.Core.Utxo.{get_utxo_list}
use abcfe.Core.Genesis.{Hex, string_to_address}
use abcfe.Core.Chain.{Chain, get_latest_height, get_block_by_hash}
use abcfe.Core.Validate.{get_block_by_height}
use abcfe.Core.Account.{get_balance}
use abcfe.Core.Received.{get_address_transactions}
use abcfe.Core.Transfer.{get_tx}
use abcfe.Consensus.Validators.{Validator}
use abcfe.Consensus.State.{Phase, Consensus, get_current_proposer}
use abcfe.P2p.Peers.{Peer, PeerTable, get_peer_count}
use abcfe.Api.Response.{
  Response, bad_request, status_not_found, internal_server_error, send, send_error, or_send,
  Numerals, string_to_hash,
}
use abcfe.Api.Format.{
  BlockResp, TxResp, UtxoResp, AddressTxResp, format_block_resp, format_tx_resp, format_txs_resp,
  format_utxo_resp, format_address_tx_infos,
}

-- An answer about an address.
pub record OfAddress (A : Type 0) : Type 0 where
  pub address : Bytes
  pub value : A

pub record ChainStatus : Type 0 where
  pub current_height : ℕ
  pub current_block_hash : Bytes
  pub genesis_hash : Bytes
  pub network_id : Bytes
  pub mempool_size : ℕ

pub record NetworkStats : Type 0 where
  pub height : ℕ
  pub latest_hash : Bytes
  pub pending_tx_count : ℕ
  pub ws_connections : ℕ

pub record ConsensusStatus : Type 0 where
  pub state : Phase
  pub current_height : ℕ
  pub current_round : ℕ
  pub proposer : Bytes
  pub voting_power : List (Bytes × ℕ)

-- The latest block hash as the text that it is kept as.
abbrev pub hash_text : Option Hash → Bytes
hash_text none = []
hash_text (some h) = hash_to_string h

-- The active validators with their power.
unfoldable pub active_powers : Dict Validator → List (Bytes × ℕ)
active_powers [] = []
active_powers ((a, v) ∷ d) =
    let rest = active_powers d in
    if v.is_active then (address_to_string a, v.voting_power) ∷ rest else rest

-- `GetConsensusStatus`, without the progress of the votes
unfoldable pub get_consensus_status : Option Consensus → Response ConsensusStatus
get_consensus_status none = send_error internal_server_error not_initialized
get_consensus_status (some con) = send (record {
  state = con.phase;
  current_height = con.current_height;
  current_round = con.current_round;
  proposer = elim (get_current_proposer con) [ none ↦ [] | some v ↦ address_to_string v.address ];
  voting_power = active_powers con.validator_set.validators;
})

pub record WsStatus : Type 0 where
  pub connected_clients : ℕ
  pub endpoint : Bytes

-- `GetWSStatus`, with the number of clients of the hub if there is one
unfoldable pub get_ws_status : Option ℕ → Response WsStatus
get_ws_status none = send_error internal_server_error not_initialized
get_ws_status (some n) = send (record { connected_clients = n; endpoint = codes "/ws" })

pub record PeerList : Type 0 where
  pub count : ℕ
  pub peers : List Peer

-- `GetP2PPeers`, of a service if there is one: the peers as they are, less their version.
unfoldable pub get_p2p_peers : Option PeerTable → Response PeerList
get_p2p_peers none = send_error internal_server_error not_initialized
get_p2p_peers (some n) = send (record { count = length (values n.peers); peers = values n.peers })

pub record P2pStatus : Type 0 where
  pub node_id : ℕ
  pub running : Bool
  pub peer_count : ℕ

-- `GetP2PStatus`, of a service if there is one, and whether it runs
unfoldable pub get_p2p_status : Option (PeerTable × Bool) → Response P2pStatus
get_p2p_status none = send_error internal_server_error not_initialized
get_p2p_status (some (n, running)) =
    send (record { node_id = n.id; running = running; peer_count = get_peer_count n.peers })

module _ (cfg : Config) (c : Crypto) (ldb : LevelDb) (hex : Hex) (numerals : Numerals) where
  open ldb use {Db}

  -- `GetStatus`: the network is this one whatever the configuration says.
  unfoldable pub get_status : Chain Db → Response ChainStatus
  get_status ch = send (record {
    current_height = ch.latest_height;
    current_block_hash = hash_text ch.latest_block_hash;
    genesis_hash = elim (get_block_by_height cfg c ldb ch.db 0) [
      | err _ ↦ []
      | ok b ↦ hash_to_string b.header.hash
    ];
    network_id = codes "abcfe-mainnet";
    mempool_size = length (get_txs ch.mempool);
  })

  -- `GetLatestBlock`
  unfoldable pub get_latest_block : Chain Db → Response BlockResp
  get_latest_block ch =
      or_send (get_block_by_height cfg c ldb ch.db (get_latest_height ldb ch)) internal_server_error
        (λ b. send (format_block_resp cfg c ldb ch.db b))

  -- `GetBlockByHeight` of this package
  unfoldable pub show_block_by_height : Chain Db → Bytes → Response BlockResp
  show_block_by_height ch text =
      or_send (or_fail (numerals.parse_uint text) invalid_request) bad_request (λ height.
        or_send (get_block_by_height cfg c ldb ch.db height) status_not_found
          (λ b. send (format_block_resp cfg c ldb ch.db b)))

  -- `GetBlockByHash` of this package
  unfoldable pub show_block_by_hash : Chain Db → Bytes → Response BlockResp
  show_block_by_hash ch text =
      or_send (or_fail (string_to_hash hex text) invalid_request) bad_request (λ hash.
        or_send (get_block_by_hash ldb ch.db hash) status_not_found
          (λ b. send (format_block_resp cfg c ldb ch.db b)))

  -- `GetTx` of this package
  unfoldable pub show_tx : Chain Db → Bytes → Response TxResp
  show_tx ch text = or_send (or_fail (string_to_hash hex text) invalid_request) bad_request (λ id.
      or_send (get_tx cfg c ldb ch.db id) status_not_found
        (λ tx. send (format_tx_resp cfg c ldb ch.db tx)))

  -- `GetAddressUtxo`
  unfoldable pub get_address_utxo : Chain Db → Bytes → Response (List UtxoResp)
  get_address_utxo ch text =
      or_send (or_fail (string_to_address hex text) invalid_request) bad_request (λ a.
        or_send (get_utxo_list ldb ch.db ch.mempool a false) status_not_found
          (λ us. send (format_utxo_resp us)))

  -- `GetBalanceByUtxo`
  unfoldable pub get_balance_by_utxo : Chain Db → Bytes → Response (OfAddress ℕ)
  get_balance_by_utxo ch text =
      or_send (or_fail (string_to_address hex text) invalid_request) bad_request (λ a.
        or_send (get_balance ldb ch.db ch.mempool a) status_not_found
          (λ n. send (record { address = text; value = n })))

  -- `GetAddressTransactions` of this package
  unfoldable pub show_address_transactions :
      Chain Db → Bytes → Response (OfAddress (List AddressTxResp))
  show_address_transactions ch text =
      or_send (or_fail (string_to_address hex text) invalid_request) bad_request (λ a.
        send (record {
          address = text;
          value = format_address_tx_infos (get_address_transactions cfg c ldb ch a);
        }))

  -- `GetMempoolList`
  unfoldable pub get_mempool_list : Chain Db → Response (List TxResp)
  get_mempool_list ch = send (format_txs_resp cfg c ldb ch.db (get_txs ch.mempool))

  -- `GetNetworkStats`, with the number of clients of the hub if there is one
  unfoldable pub get_network_stats : Option ℕ → Chain Db → Response NetworkStats
  get_network_stats clients ch = send (record {
    height = get_latest_height ldb ch;
    latest_hash = hash_text ch.latest_block_hash;
    pending_tx_count = length (get_txs ch.mempool);
    ws_connections = elim clients [ none ↦ 0 | some n ↦ n ];
  })
