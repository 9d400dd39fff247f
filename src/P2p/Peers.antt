-- ===== src/P2p/Peers.antt =====
-- The peers of p2p/node.go, and the exchange of their addresses in p2p/p2p.go. A connection is a number;
-- what is closed is listed. IDs compare as numbers, as the texts of one length do.
pub mod Agreement
use abcfe.Base.{
  ℕ, ◌+◌, ◌-◌, ◌*◌, List, [], ◌∷◌, Option, none, some, Bool, true, false, not, ◌==◌, ◌&&◌, ltb,
  if◌then◌else◌, length,
}
use abcfe.Base.Assoc.{Dict, lookup, has_key, insert, erase}
use abcfe.Core.Types.{Bytes}
use abcfe.P2p.RateLimit.{second}

pub record Peer : Type 0 where
  pub id : ℕ
  pub host : Bytes  -- `Address` as `parseAddress` splits it; empty if there is no host
  pub host_port : ℕ
  pub port : ℕ
  pub conn : ℕ
  pub active : Bool
  pub best_height : ℕ
  pub last_seen : ℕ
  pub inbound : Bool

-- The payload of a handshake that is read here; the network is a number.
pub record HandshakePayload : Type 0 where
  pub node_id : ℕ
  pub network_id : ℕ
  pub listen_port : ℕ
  pub best_height : ℕ

pub record PeerInfo : Type 0 where
  pub id : ℕ
  pub address : Bytes
  pub port : ℕ

pub record PeerTable : Type 0 where
  pub id : ℕ
  pub network_id : ℕ
  pub peers : Dict Peer
  pub closed : List ℕ

abbrev pub close : ℕ → PeerTable → PeerTable
close conn n = record n { closed = conn ∷ n.closed }

-- Whether a second connection to a peer is turned down.
unfoldable pub rejects : PeerTable → Peer → Bool
rejects n p = if ltb n.id p.id then p.inbound else not p.inbound

-- `addPeer`
unfoldable pub add_peer : Peer → PeerTable → Bool × PeerTable
unfolding rejects
add_peer p n = elim (lookup p.id n.peers) [
  | none ↦ (true, record n { peers = insert p.id p n.peers })
  | some old ↦
      if rejects n p
      then (false, n)
      else (true, close old.conn (record n { peers = insert p.id p n.peers }))
]

-- `removePeer`: not where another connection has taken the place.
unfoldable pub remove_peer : Peer → PeerTable → PeerTable
remove_peer p n = elim (lookup p.id n.peers) [
  | none ↦ n
  | some q ↦ if q.conn == p.conn then record n { peers = erase p.id n.peers } else n
]

-- `handleHandshake`, at a payload that was read: whether the peer is registered.
unfoldable pub handle_handshake : HandshakePayload → Peer → PeerTable → Bool × PeerTable
unfolding add_peer
handle_handshake h p n =
    let p' : Peer = record p {
      id = h.node_id;
      best_height = h.best_height;
      port = h.listen_port;
      active = true;
    } in
    let (added, n') = add_peer p' n in
    if not (h.network_id == n.network_id)
    then (false, close p.conn n)
    else if added
    then (true, n')
    else (false, close p.conn n')

-- `removeInactivePeers`, after 2 minutes of silence
unfoldable pub inactive : ℕ → Dict Peer → List ℕ
inactive threshold [] = []
inactive threshold ((k, p) ∷ peers) =
    if ltb p.last_seen threshold
    then p.conn ∷ inactive threshold peers
    else inactive threshold peers

unfoldable pub drop_inactive : ℕ → Dict Peer → Dict Peer
drop_inactive threshold [] = []
drop_inactive threshold ((k, p) ∷ peers) =
    if ltb p.last_seen threshold
    then drop_inactive threshold peers
    else (k, p) ∷ drop_inactive threshold peers

unfoldable pub close_all : List ℕ → PeerTable → PeerTable
close_all [] n = n
close_all (conn ∷ conns) n = close_all conns (close conn n)

unfoldable pub remove_inactive_peers : ℕ → PeerTable → PeerTable
unfolding inactive drop_inactive close_all
remove_inactive_peers now n =
    let threshold = now - 120 * second in
    close_all (inactive threshold n.peers) (record n { peers = drop_inactive threshold n.peers })

-- `GetPeerCount`: the active ones.
unfoldable pub get_peer_count : Dict Peer → ℕ
get_peer_count [] = 0
get_peer_count ((k, p) ∷ peers) =
    if p.active then get_peer_count peers + 1 else get_peer_count peers

-- The answer of `handleGetPeers` to a peer.
unfoldable pub peer_infos : ℕ → Dict Peer → List PeerInfo
peer_infos asker [] = []
peer_infos asker ((k, p) ∷ peers) =
    let rest = peer_infos asker peers in
    if p.id == asker
    then rest
    else if not p.active
    then rest
    else if length p.host == 0
    then rest
    else record {
      id = p.id;
      address = p.host;
      port = if p.inbound && ltb 0 p.port then p.port else p.host_port;
    }
      ∷ rest

-- The loop of `tryMarkConnecting` that drops what is older than 30 seconds, and the function.
unfoldable pub drop_connecting : ℕ → Dict ℕ → Dict ℕ
drop_connecting threshold [] = []
drop_connecting threshold ((k, t) ∷ connecting) =
    if ltb t threshold
    then drop_connecting threshold connecting
    else (k, t) ∷ drop_connecting threshold connecting

unfoldable pub try_mark_connecting : ℕ → ℕ → Dict ℕ → Bool × Dict ℕ
unfolding drop_connecting
try_mark_connecting now id connecting =
    let kept = drop_connecting (now - 30 * second) connecting in
    if has_key id kept then (false, kept) else (true, insert id now kept)

-- The loop of `handlePeers`: whom to connect to, and who is being connected to then.
unfoldable pub handle_peers : ℕ → PeerTable → List PeerInfo → Dict ℕ → List PeerInfo × Dict ℕ
unfolding try_mark_connecting
handle_peers now n [] connecting = ([], connecting)
handle_peers now n (i ∷ infos) connecting =
    let (fresh, connecting') = try_mark_connecting now i.id connecting in
    if has_key i.id n.peers
    then handle_peers now n infos connecting
    else if i.id == n.id
    then handle_peers now n infos connecting
    else if fresh
    then (i ∷ (handle_peers now n infos connecting').0, (handle_peers now n infos connecting').1)
    else handle_peers now n infos connecting'
