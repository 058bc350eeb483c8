-- ===== src/Governance/Mirroring.antt =====
-- Every write of packages/node/src/kernel/governance.ts keeps the tables in step with the Maps.
use pando.Common.{◌≡◌, refl, [], arith}
use pando.Common.Table.Laws.{update-IsKeyed, remove-IsKeyed}
use pando.Common.Table.Append.{update-Agree, remove-Agree}
use pando.Governance.Types.{GovernanceSync, proposal_key, decision_key}
use pando.Governance.Store.{votes_on, with_status, set_status, record_decision, record_vote}
use pando.Governance.Archive.{remove_proposal_data}
use pando.Governance.Writes.{
  Node, Write, Writes, here, next, marks, sets_status, decides, casts, discusses, clears, stores,
  touches, pays, calls, removes,
}
use pando.Governance.VoteRows.{upsert_vote-AreUnique, drop_ballots-AreUnique}
use pando.Governance.Mirror.{
  IsMirrored, casts-votes, entry-votes, removes-votes, mirrors-decision, mirrors-proposal,
}

same_tables :
    {s s' : GovernanceSync}
    → s'.proposals ≡ s.proposals
    → s'.decisions ≡ s.decisions
    → s'.votes ≡ s.votes
    → s'.database.proposals ≡ s.database.proposals
    → s'.database.decisions ≡ s.database.decisions
    → s'.database.votes ≡ s.database.votes
    → IsMirrored s
    → IsMirrored s'
same_tables p d v p' d' v' m = record {
  proposals = rw (p, p') m.proposals;
  decisions = rw (d, d') m.decisions;
  votes = rw (v, v') m.votes;
  proposals_keyed = rw p' m.proposals_keyed;
  decisions_keyed = rw d' m.decisions_keyed;
  votes_unique = rw v' m.votes_unique;
}

Write-IsMirrored : {n : Node} {s s' : GovernanceSync} → Write n s s' → IsMirrored s → IsMirrored s'
unfolding set_status record_decision record_vote remove_proposal_data
Write-IsMirrored (marks k) m = same_tables refl refl refl refl refl refl m
Write-IsMirrored (sets_status id st {s} c) m = record {
  proposals =
      update-Agree proposal_key id (with_status st) s.database.proposals s.proposals (λ r. refl)
        m.proposals;
  decisions = m.decisions;
  votes = m.votes;
  proposals_keyed =
      update-IsKeyed proposal_key id (with_status st) s.database.proposals (λ r. refl)
        m.proposals_keyed;
  decisions_keyed = m.decisions_keyed;
  votes_unique = m.votes_unique;
}
Write-IsMirrored (decides d {s}) m =
    let (a, k) = mirrors-decision d s m in
    record {
      proposals = m.proposals;
      decisions = a;
      votes = m.votes;
      proposals_keyed = m.proposals_keyed;
      decisions_keyed = k;
      votes_unique = m.votes_unique;
    }
Write-IsMirrored (casts v {s} a) m = record {
  proposals = m.proposals;
  decisions = m.decisions;
  votes = casts-votes v s m;
  proposals_keyed = m.proposals_keyed;
  decisions_keyed = m.decisions_keyed;
  votes_unique = upsert_vote-AreUnique v s.database.votes m.votes_unique;
}
Write-IsMirrored (discusses c t) m = same_tables refl refl refl refl refl refl m
Write-IsMirrored (clears id {s}) m = record {
  proposals = m.proposals;
  decisions = m.decisions;
  votes =
      entry-votes (record { proposal_id = id; votes = [] }) s m (λ w u h. absurd (ground arith));
  proposals_keyed = m.proposals_keyed;
  decisions_keyed = m.decisions_keyed;
  votes_unique = m.votes_unique;
}
Write-IsMirrored (touches id {s}) m = record {
  proposals = m.proposals;
  decisions = m.decisions;
  votes = entry-votes (record { proposal_id = id; votes = votes_on id s.votes }) s m (λ w u h. h);
  proposals_keyed = m.proposals_keyed;
  decisions_keyed = m.decisions_keyed;
  votes_unique = m.votes_unique;
}
Write-IsMirrored (stores p {s} new marked) m =
    let (a, k) = mirrors-proposal p s m new in
    record {
      proposals = a;
      decisions = m.decisions;
      votes = m.votes;
      proposals_keyed = k;
      decisions_keyed = m.decisions_keyed;
      votes_unique = m.votes_unique;
    }
Write-IsMirrored (pays ks rs) m = same_tables refl refl refl refl refl refl m
Write-IsMirrored (calls g c) m = same_tables refl refl refl refl refl refl m
Write-IsMirrored (removes id {s} allowed) m = record {
  proposals = remove-Agree proposal_key id s.database.proposals s.proposals m.proposals;
  decisions = remove-Agree decision_key id s.database.decisions s.decisions m.decisions;
  votes = removes-votes id s m;
  proposals_keyed = remove-IsKeyed proposal_key id s.database.proposals m.proposals_keyed;
  decisions_keyed = remove-IsKeyed decision_key id s.database.decisions m.decisions_keyed;
  votes_unique = drop_ballots-AreUnique id s.database.votes m.votes_unique;
}

pub Writes-IsMirrored :
    {n : Node} {s s' : GovernanceSync} → Writes n s s' → IsMirrored s → IsMirrored s'
Writes-IsMirrored here m = m
Writes-IsMirrored (next r w) m = Write-IsMirrored w (Writes-IsMirrored r m)
