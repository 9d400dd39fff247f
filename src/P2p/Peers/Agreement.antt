-- ===== src/P2p/Peers/Agreement.antt =====
-- Two nodes of p2p/node.go that connect to each other at the same time.
use abcfe.Base.{ℕ, ◌<◌, Option, none, some, Bool, true, false, ◌≡◌, ◌≢◌, arith}
use abcfe.Base.Assoc.{lookup, insert, lookup-insert}
use abcfe.P2p.Peers.{Peer, PeerTable, rejects, add_peer, remove_peer}

-- The connection under which a peer is registered.
abbrev pub conn_of : PeerTable → ℕ → Option ℕ
conn_of n id = elim (lookup id n.peers) [ none ↦ none | some p ↦ some p.conn ]

-- One end registers its two connections to the other, the first one first, and then the second is
-- torn down if it was turned down or replaced.
abbrev pub settled : Peer → Peer → (gone : Peer) → PeerTable → PeerTable
settled p q gone n = remove_peer gone (add_peer q (add_peer p n).1).1

-- At one end, the connection that is not turned down stays, in either order.
add_peer-keeps :
    (n : PeerTable) (p q : Peer)
    → q.id ≡ p.id
    → lookup p.id n.peers ≡ none
    → rejects n p ≡ false
    → rejects n q ≡ true
    → (lookup p.id (add_peer q (add_peer p n).1).1.peers ≡ some p)
      × (lookup p.id (add_peer p (add_peer q n).1).1.peers ≡ some p)
unfolding add_peer rejects
add_peer-keeps n p q e new keep turn =
    let one = lookup-insert p.id p.id p n.peers in
    let other = lookup-insert p.id p.id q n.peers in
    let two = lookup-insert p.id p.id p (insert p.id q n.peers) in
    (ground (arith, e, new, keep, turn, one), ground (arith, e, new, keep, turn, other, two))

remove_peer-keeps :
    (n : PeerTable) (p q : Peer)
    → q.id ≡ p.id
    → q.conn ≢ p.conn
    → lookup p.id n.peers ≡ some p
    → conn_of (remove_peer q n) p.id ≡ some p.conn
unfolding remove_peer
remove_peer-keeps n p q e d h = ground (arith, e, d, h)

settled-keeps :
    (n : PeerTable) (p q : Peer)
    → q.id ≡ p.id
    → q.conn ≢ p.conn
    → lookup p.id n.peers ≡ none
    → rejects n p ≡ false
    → rejects n q ≡ true
    → (conn_of (settled p q q n) p.id ≡ some p.conn)
      × (conn_of (settled q p q n) p.id ≡ some p.conn)
settled-keeps n p q e d new keep turn =
    let (one, two) = add_peer-keeps n p q e new keep turn in
    (
      remove_peer-keeps (add_peer q (add_peer p n).1).1 p q e d one,
      remove_peer-keeps (add_peer p (add_peer q n).1).1 p q e d two,
    )

-- A peer at the end of a connection.
abbrev pub IsEnd : Peer → (id conn : ℕ) → (inbound : Bool) → Type 0
IsEnd p id conn inbound = (p.id ≡ id) × (p.conn ≡ conn) × (p.inbound ≡ inbound)

-- Two nodes that are not connected call each other at once, under two connections. In whatever
-- order each of them registers the two, both keep the connection that the node with the lower ID
-- made, and still have it after the other one was torn down.
pub add_peer-agrees :
    (low high : PeerTable) (made got : ℕ) (p q r s : Peer)
    → low.id < high.id
    → made ≢ got
    → lookup high.id low.peers ≡ none
    → lookup low.id high.peers ≡ none
    → IsEnd p high.id made false
    → IsEnd q high.id got true
    → IsEnd r low.id made true
    → IsEnd s low.id got false
    → (conn_of (settled p q q low) high.id ≡ some made)
      × (conn_of (settled q p q low) high.id ≡ some made)
      × (conn_of (settled r s s high) low.id ≡ some made)
      × (conn_of (settled s r s high) low.id ≡ some made)
unfolding rejects
add_peer-agrees low high made got p q r s lt d new new' (pi, pc, pn) (qi, qc, qn) (ri, rc, rn)
      (si, sc, sn) =
    let (one, two) =
      settled-keeps low p q (ground (arith, pi, qi)) (λ e. ground (arith, d, pc, qc, e)) (rw pi new)
        (ground (arith, lt, pi, pn)) (ground (arith, lt, qi, qn)) in
    let (three, four) =
      settled-keeps high r s (ground (arith, ri, si)) (λ e. ground (arith, d, rc, sc, e))
        (rw ri new') (ground (arith, lt, ri, rn)) (ground (arith, lt, si, sn)) in
    (
      ground (arith, one, pi, pc),
      ground (arith, two, pi, pc),
      ground (arith, three, ri, rc),
      ground (arith, four, ri, rc),
    )
