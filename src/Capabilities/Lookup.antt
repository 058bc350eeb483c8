-- ===== src/Capabilities/Lookup.antt =====
-- The queries of packages/node/src/platform/capability-registry.ts agree.
use pando.Common.{
  ℕ, ◌≡◌, refl, inl, inr, false, not, Option, none, some, List, [], ◌∷◌, keep_if, ◌==◌, ==-eq,
  if◌then◌else◌, arith, ◌∙◌, sym, ap, Bool-cases,
}
use mathlib.Core.Path.{subst}
use pando.Common.Table.{find, IsKeyed}
use pando.Capabilities.Registry.{
  ResourceType, CapabilityProfile, StoredProfile, CapabilityRegistry, stored_key, profile_key,
  is_outdated, get_peer_profile, is_local_peer, expires, has_all, scan, find_capable_nodes, cleanup,
}

-- a profile that has what is asked for
abbrev pub if_capable : List ResourceType → Option CapabilityProfile → Option CapabilityProfile
if_capable reqs none = none
if_capable reqs (some p) = if has_all reqs p then some p else none

-- the profile of an entry that is not outdated
abbrev pub current : (now : ℕ) → Option StoredProfile → Option CapabilityProfile
current now none = none
current now (some s) = if is_outdated now s then none else some s.profile

get_peer_profile_lem :
    (now peer : ℕ) (r : CapabilityRegistry)
    → (get_peer_profile now peer r).0 ≡ current now (find stored_key peer r.profiles)
unfolding get_peer_profile
get_peer_profile_lem now peer r = ground arith

-- a peer without an entry is in no result
scan-none :
    (now peer : ℕ) (reqs : List ResourceType) (local : Option CapabilityProfile)
    (rows : List StoredProfile)
    → find stored_key peer rows ≡ none
    → find profile_key peer (scan now reqs local rows).0 ≡ none
unfolding scan
scan-none now peer reqs local [] h = refl
scan-none now peer reqs local (s ∷ rows) h = ground (arith, scan-none now peer reqs local rows)

scan_lem :
    (now peer : ℕ) (reqs : List ResourceType) (local : Option CapabilityProfile)
    (rows : List StoredProfile)
    → is_local_peer local peer ≡ false
    → IsKeyed stored_key rows
    → find profile_key peer (scan now reqs local rows).0
      ≡ if_capable reqs (current now (find stored_key peer rows))
unfolding scan
scan_lem now peer reqs local [] other keyed = refl
scan_lem now peer reqs local (s ∷ rows) other keyed =
    elim (Bool-cases (s.profile.peer_id == peer)) [
      | inl same ↦
          let e : s.profile.peer_id ≡ peer = ==-eq s.profile.peer_id peer same in
          let rest : find profile_key peer (scan now reqs local rows).0 ≡ none =
            scan-none now peer reqs local rows
              (subst (λ k. find stored_key k rows ≡ none) e keyed.0) in
          let remote : is_local_peer local s.profile.peer_id ≡ false =
            subst (λ k. is_local_peer local k ≡ false) (sym e) other in
          ground (arith, remote)
      | inr differ ↦ ground (arith, scan_lem now peer reqs local rows other keyed.1)
    ]

scan_kept :
    (now : ℕ) (reqs : List ResourceType) (local : Option CapabilityProfile)
    (rows : List StoredProfile)
    → (scan now reqs local rows).1 ≡ keep_if (λ s. not (expires now local s)) rows
unfolding scan
scan_kept now reqs local [] = refl
scan_kept now reqs local (s ∷ rows) = ground (arith, scan_kept now reqs local rows)

kept-none :
    (now peer : ℕ) (local : Option CapabilityProfile) (rows : List StoredProfile)
    → find stored_key peer rows ≡ none
    → find stored_key peer (keep_if (λ s. not (expires now local s)) rows) ≡ none
kept-none now peer local [] h = refl
kept-none now peer local (s ∷ rows) h = ground (arith, kept-none now peer local rows)

kept_lem :
    (now peer : ℕ) (local : Option CapabilityProfile) (rows : List StoredProfile)
    → is_local_peer local peer ≡ false
    → IsKeyed stored_key rows
    → current now (find stored_key peer (keep_if (λ s. not (expires now local s)) rows))
      ≡ current now (find stored_key peer rows)
kept_lem now peer local [] other keyed = refl
kept_lem now peer local (s ∷ rows) other keyed = elim (Bool-cases (s.profile.peer_id == peer)) [
  | inl same ↦
      let e : s.profile.peer_id ≡ peer = ==-eq s.profile.peer_id peer same in
      let gone : find stored_key peer (keep_if (λ x. not (expires now local x)) rows) ≡ none =
        kept-none now peer local rows (subst (λ k. find stored_key k rows ≡ none) e keyed.0) in
      let remote : is_local_peer local s.profile.peer_id ≡ false =
        subst (λ k. is_local_peer local k ≡ false) (sym e) other in
      elim (Bool-cases (is_outdated now s)) [
        | inl old ↦ ground (arith, remote, old, same, gone)
        | inr fresh ↦ rw (remote, fresh, same, current) refl
      ]
  | inr differ ↦
      let rest = kept_lem now peer local rows other keyed.1 in
      elim (Bool-cases (expires now local s)) [
        | inl old ↦ rw (old, differ) rest
        | inr fresh ↦ rw (fresh, differ) rest
      ]
]

-- For every peer but the local one, the search for capable nodes returns the profile that the
-- lookup of this peer gives, if it has all that is asked for, and nothing otherwise; and the lookup
-- gives the same after the search and after a cleanup. Each peer has one entry.
pub find_capable_nodes_lem :
    (now peer : ℕ) (reqs : List ResourceType) (r : CapabilityRegistry)
    → is_local_peer r.local_profile peer ≡ false
    → IsKeyed stored_key r.profiles
    → let known = (get_peer_profile now peer r).0 in
      (find profile_key peer (find_capable_nodes now reqs r).0 ≡ if_capable reqs known)
      × (((get_peer_profile now peer (find_capable_nodes now reqs r).1).0 ≡ known)
          × ((get_peer_profile now peer (cleanup now r)).0 ≡ known))
unfolding find_capable_nodes cleanup
find_capable_nodes_lem now peer reqs r other keyed =
    let known = get_peer_profile_lem now peer r in
    let local = r.local_profile in
    (
      scan_lem now peer reqs local r.profiles other keyed ∙ ap (if_capable reqs) (sym known),
      (
        get_peer_profile_lem now peer (find_capable_nodes now reqs r).1
            ∙ (ap (λ (rows : List StoredProfile). current now (find stored_key peer rows))
                  (scan_kept now reqs local r.profiles)
                ∙ (kept_lem now peer local r.profiles other keyed ∙ sym known)),
        get_peer_profile_lem now peer (cleanup now r)
            ∙ (kept_lem now peer local r.profiles other keyed ∙ sym known),
      ),
    )
