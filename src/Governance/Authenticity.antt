-- ===== src/Governance/Authenticity.antt =====
-- Who the votes of packages/node/src/kernel/governance.ts come from.
use pando.Common.{ℕ, inl, inr, ◌&&◌, List, [], ◌∷◌, ◌==◌, Bool-cases, Option-cases}
use pando.Common.Table.{Each, find}
use pando.Common.Table.Laws.{Each-find, Each-put, Each-remove, Each-append}
use pando.Governance.Types.{GovernanceVote, Ballots, GovernanceSync, voter_key, ballots_key}
use pando.Governance.Store.{votes_on, drop_vote, set_status, record_decision, record_vote}
use pando.Governance.Archive.{drop_ballots, remove_proposal_data}
use pando.Governance.Writes.{
  Node, IsAuthentic, Write, Writes, here, next, marks, sets_status, decides, casts, discusses,
  clears, stores, touches, pays, calls, removes,
}
use pando.Governance.Known.{IsKnown}
use pando.Governance.Calls.{Run, Run-Writes}

-- each vote, in the Map and in its table, names the local peer or came with its voter's signature
pub record AreAuthentic (n : Node) (s : GovernanceSync) : Type 0 where
  pub cast : Each (λ b. Each (IsAuthentic n) b.votes) s.votes
  pub stored : Each (IsAuthentic n) s.database.votes

votes_on-Each :
    (n : Node) (id : ℕ) (b : List Ballots)
    → Each (λ x. Each (IsAuthentic n) x.votes) b
    → Each (IsAuthentic n) (votes_on id b)
votes_on-Each n id b h = elim (Option-cases (find ballots_key id b)) [
  | inl missing ↦ rw (missing, votes_on) tt
  | inr (x, found) ↦ rw (found, votes_on) (Each-find ballots_key _ id b h found)
]

drop_vote-Each :
    (n : Node) (id voter : ℕ) (rows : List GovernanceVote)
    → Each (IsAuthentic n) rows
    → Each (IsAuthentic n) (drop_vote id voter rows)
drop_vote-Each n id voter [] h = tt
drop_vote-Each n id voter (v ∷ rows) h =
    elim (Bool-cases (v.proposal_id == id && v.voter == voter)) [
      | inl same ↦ rw same (drop_vote-Each n id voter rows h.1)
      | inr other ↦ rw other (h.0, drop_vote-Each n id voter rows h.1)
    ]

drop_ballots-Each :
    (n : Node) (id : ℕ) (rows : List GovernanceVote)
    → Each (IsAuthentic n) rows
    → Each (IsAuthentic n) (drop_ballots id rows)
drop_ballots-Each n id [] h = tt
drop_ballots-Each n id (v ∷ rows) h = elim (Bool-cases (v.proposal_id == id)) [
  | inl same ↦ rw same (drop_ballots-Each n id rows h.1)
  | inr other ↦ rw other (h.0, drop_ballots-Each n id rows h.1)
]

Write-AreAuthentic :
    {n : Node} {s s' : GovernanceSync} → Write n s s' → AreAuthentic n s → AreAuthentic n s'
unfolding set_status record_decision record_vote remove_proposal_data
Write-AreAuthentic (marks k) a = record { cast = a.cast; stored = a.stored }
Write-AreAuthentic (sets_status id st c) a = record { cast = a.cast; stored = a.stored }
Write-AreAuthentic (decides d) a = record { cast = a.cast; stored = a.stored }
Write-AreAuthentic {n} (casts v {s} authentic) a = record {
  cast =
      Each-put ballots_key _ _ s.votes
        (Each-put voter_key (IsAuthentic n) v (votes_on v.proposal_id s.votes) authentic
          (votes_on-Each n v.proposal_id s.votes a.cast))
        a.cast;
  stored =
      Each-append (IsAuthentic n) (drop_vote v.proposal_id v.voter s.database.votes) (v ∷ [])
        (drop_vote-Each n v.proposal_id v.voter s.database.votes a.stored) (authentic, tt);
}
Write-AreAuthentic (discusses c t) a = record { cast = a.cast; stored = a.stored }
Write-AreAuthentic (clears id {s}) a = record {
  cast = Each-put ballots_key _ _ s.votes tt a.cast;
  stored = a.stored;
}
Write-AreAuthentic (stores p new marked) a = record { cast = a.cast; stored = a.stored }
Write-AreAuthentic {n} (touches id {s}) a = record {
  cast = Each-put ballots_key _ _ s.votes (votes_on-Each n id s.votes a.cast) a.cast;
  stored = a.stored;
}
Write-AreAuthentic (pays ks rs) a = record { cast = a.cast; stored = a.stored }
Write-AreAuthentic (calls g c) a = record { cast = a.cast; stored = a.stored }
Write-AreAuthentic {n} (removes id {s} allowed) a = record {
  cast = Each-remove ballots_key _ id s.votes a.cast;
  stored = drop_ballots-Each n id s.database.votes a.stored;
}

Writes-AreAuthentic :
    {n : Node} {s s' : GovernanceSync} → Writes n s s' → AreAuthentic n s → AreAuthentic n s'
Writes-AreAuthentic here a = a
Writes-AreAuthentic (next r w) a = Write-AreAuthentic w (Writes-AreAuthentic r a)

-- Over every run of a node's governance without `cleanup`, synchronization included, every vote
-- in the Map or in the database of another voter than the local peer came in a message from that
-- voter, which carries a signature that checks against the voter, if this holds at the start. The
-- proposals at the start are marked as processed, and new proposals have new ids. Of a vote that
-- names the local peer nothing is said.
pub Run-AreAuthentic :
    (n : Node) (s s' : GovernanceSync)
    → Run n s s'
    → IsKnown s
    → AreAuthentic n s
    → AreAuthentic n s'
Run-AreAuthentic n s s' r known a = Writes-AreAuthentic (Run-Writes r known) a
