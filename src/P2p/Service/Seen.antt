-- ===== src/P2p/Service/Seen.antt =====
-- What p2p/p2p.go does with the second message of a proposal.
use abcfe.Base.{ℕ, ◌≤◌, List, [], ◌∷◌, Option, none, some, true, false, ◌==◌, length, ◌≡◌}
use abcfe.P2p.Service.{
  Message, ProposalPayload, Codec, Outcome, SeenCache, Service, handle_proposal,
}

-- The key was seen at `t`, and every entry of it is at least as late.
abbrev SeenSince : ℕ → ℕ → SeenCache → Type 0
SeenSince key t [] = ⊥
SeenSince key t ((k, u) ∷ seen) = elim (k == key) [ true ↦ t ≤ u | false ↦ SeenSince key t seen ]

-- A message of a proposal, when it is handled, and who sent it.
pub record Arrival : Type 0 where
  pub time : ℕ
  pub message : Message
  pub sender : ℕ

module _ (codec : Codec) where
  abbrev pub handle : Arrival → Service → Outcome
  handle a s = handle_proposal codec a.time a.message a.sender s

  -- A panic ends it.
  abbrev pub handle_all : List Arrival → Service → Option Service
  handle_all [] s = some s
  handle_all (a ∷ as') s = elim (handle a s) [ none ↦ none | some (sent, s') ↦ handle_all as' s' ]

  -- The message, if it is a proposal at all, names a proposer by 16 bytes or more.
  abbrev pub IsNamed : Message → Type 0
  IsNamed msg =
      (p : ProposalPayload) → codec.proposal msg.payload ≡ some p → 16 ≤ length p.proposer_id
