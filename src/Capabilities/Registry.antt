-- ===== src/Capabilities/Registry.antt =====
-- `CapabilityRegistry` (packages/node/src/platform/capability-registry.ts). A profile is an object
-- that the registry may hold twice, as the local profile and in the Map; `is_local` marks that
-- entry. The local store and the environment are parameters.
use pando.Common.{
  ℕ, ◌+◌, Bool, true, false, not, ◌&&◌, Option, none, some, List, [], ◌∷◌, length, keep_if, map,
  ltb, ◌==◌, if◌then◌else◌,
}
use pando.Common.Table.{find, put, remove, update}

pub data ResourceType : Type 0 where
  relay api_keys compute_cpu compute_gpu storage gateway validator index agent_labor : ResourceType

-- the other details of a profile are only handed on
pub record CapabilityProfile : Type 0 where
  pub peer_id : ℕ
  pub updated_at : ℕ
  pub capabilities : ResourceType → Bool
  pub verified : Option Bool
  pub verified_at : Option ℕ
  pub details : ℕ

pub record StoredProfile : Type 0 where
  pub profile : CapabilityProfile
  pub received_at : ℕ
  pub is_local : Bool

-- an entry of `verificationStatus`
pub record Verification : Type 0 where
  pub peer_id : ℕ
  pub verified : Bool
  pub verified_at : ℕ

pub record CapabilityRegistry : Type 0 where
  pub profiles : List StoredProfile
  pub local_profile : Option CapabilityProfile
  pub has_local_store : Bool
  pub verification_status : List Verification

-- 5 minutes
abbrev pub ttl_ms : ℕ
ttl_ms = 300_000

abbrev pub stored_key : StoredProfile → ℕ
stored_key s = s.profile.peer_id

abbrev pub profile_key : CapabilityProfile → ℕ
profile_key p = p.peer_id

abbrev pub verification_key : Verification → ℕ
verification_key v = v.peer_id

-- what was the local profile's entry is an entry like another, once there is a new local profile
abbrev pub unmark : StoredProfile → StoredProfile
unmark s = record s { is_local = false }

abbrev pub forget_local : List StoredProfile → List StoredProfile
forget_local rows = map unmark rows

unfoldable pub set_local_profile :
    (now : ℕ) → CapabilityProfile → CapabilityRegistry → CapabilityRegistry
set_local_profile now p r = record r {
  local_profile = some p;
  profiles =
      put stored_key (record { profile = p; received_at = now; is_local = true })
        (forget_local r.profiles);
}

-- the status that the registry has of the peer, else what the profile says of itself
abbrev pub keep_status : Option Verification → CapabilityProfile → CapabilityProfile
keep_status none p = p
keep_status (some v) p = record p { verified = some v.verified; verified_at = some v.verified_at }

unfoldable pub update_peer_profile :
    (now : ℕ) → CapabilityProfile → CapabilityRegistry → CapabilityRegistry
update_peer_profile now p r = record r {
  profiles =
      put stored_key
        (record {
          profile = keep_status (find verification_key p.peer_id r.verification_status) p;
          received_at = now;
          is_local = false;
        })
        r.profiles;
}

abbrev pub with_status : Bool → Option ℕ → CapabilityProfile → CapabilityProfile
with_status verified at p = record p { verified = some verified; verified_at = at }

abbrev pub stored_with : Bool → Option ℕ → StoredProfile → StoredProfile
stored_with verified at s = record s { profile = with_status verified at s.profile }

-- the local profile, if it is the object that the Map holds for this peer
abbrev pub local_with :
    Bool → Option ℕ → Option StoredProfile → Option CapabilityProfile → Option CapabilityProfile
local_with verified at none p = p
local_with verified at (some s) none = none
local_with verified at (some s) (some p) =
    some (if s.is_local then with_status verified at p else p)

unfoldable pub mark_verified : (now peer : ℕ) → CapabilityRegistry → CapabilityRegistry
mark_verified now peer r = record r {
  verification_status =
      put verification_key (record { peer_id = peer; verified = true; verified_at = now })
        r.verification_status;
  profiles = update stored_key peer (stored_with true (some now)) r.profiles;
  local_profile = local_with true (some now) (find stored_key peer r.profiles) r.local_profile;
}

unfoldable pub mark_unverified : (peer : ℕ) → CapabilityRegistry → CapabilityRegistry
mark_unverified peer r = record r {
  verification_status = remove verification_key peer r.verification_status;
  profiles = update stored_key peer (stored_with false none) r.profiles;
  local_profile = local_with false none (find stored_key peer r.profiles) r.local_profile;
}

-- `verificationStatus.get(peerId)?.verified ?? false`
unfoldable pub is_verified : (peer : ℕ) → CapabilityRegistry → Bool
is_verified peer r = elim (find verification_key peer r.verification_status) [
  | none ↦ false
  | some v ↦ v.verified
]

-- `now - receivedAt > TTL_MS`
abbrev pub is_outdated : (now : ℕ) → StoredProfile → Bool
is_outdated now s = ltb (s.received_at + ttl_ms) now

unfoldable pub get_peer_profile :
    (now peer : ℕ) → CapabilityRegistry → Option CapabilityProfile × CapabilityRegistry
get_peer_profile now peer r = elim (find stored_key peer r.profiles) [
  | none ↦ (none, r)
  | some s ↦
      if is_outdated now s
      then (none, record r { profiles = remove stored_key peer r.profiles })
      else (some s.profile, r)
]

abbrev pub is_local_peer : Option CapabilityProfile → ℕ → Bool
is_local_peer none peer = false
is_local_peer (some p) peer = p.peer_id == peer

-- the local node's entry never expires here
abbrev pub expires : (now : ℕ) → Option CapabilityProfile → StoredProfile → Bool
expires now local s = not (is_local_peer local s.profile.peer_id) && is_outdated now s

abbrev pub has_all : List ResourceType → CapabilityProfile → Bool
has_all [] p = true
has_all (req ∷ reqs) p = p.capabilities req && has_all reqs p

-- the loop: the profiles that it returns, and the entries that stay
unfoldable pub scan :
    (now : ℕ)
    → List ResourceType
    → Option CapabilityProfile
    → List StoredProfile
    → List CapabilityProfile × List StoredProfile
scan now reqs local [] = ([], [])
scan now reqs local (s ∷ rows) =
    let (results, kept) = scan now reqs local rows in
    if expires now local s
    then (results, kept)
    else if has_all reqs s.profile
    then (s.profile ∷ results, s ∷ kept)
    else (results, s ∷ kept)

unfoldable pub find_capable_nodes :
    (now : ℕ) → List ResourceType → CapabilityRegistry → List CapabilityProfile × CapabilityRegistry
find_capable_nodes now reqs r =
    let (results, kept) = scan now reqs r.local_profile r.profiles in
    (results, record r { profiles = kept })

-- the same loop without requirements
unfoldable pub get_all_profiles :
    (now : ℕ) → CapabilityRegistry → List CapabilityProfile × CapabilityRegistry
get_all_profiles now r =
    let (results, kept) = scan now [] r.local_profile r.profiles in
    (results, record r { profiles = kept })

unfoldable pub cleanup : (now : ℕ) → CapabilityRegistry → CapabilityRegistry
cleanup now r = record r {
  profiles = keep_if (λ s. not (expires now r.local_profile s)) r.profiles;
}

-- what the local store and the environment have
pub record LocalHost : Type 0 where
  pub claude_code : Bool
  pub gpu : Bool
  pub pando_api_key : Bool

abbrev pub local_resource_type_available : LocalHost → ResourceType → Bool
local_resource_type_available h ResourceType.compute_cpu = h.claude_code
local_resource_type_available h ResourceType.compute_gpu = h.gpu
local_resource_type_available h ResourceType.storage = true
local_resource_type_available h ResourceType.relay = true
local_resource_type_available h ResourceType.gateway = true
local_resource_type_available h ResourceType.validator = true
local_resource_type_available h ResourceType.index = true
local_resource_type_available h ResourceType.api_keys = false
local_resource_type_available h ResourceType.agent_labor = h.pando_api_key

abbrev pub every : (ResourceType → Bool) → List ResourceType → Bool
every f [] = true
every f (req ∷ reqs) = f req && every f reqs

unfoldable pub can_execute_locally : LocalHost → List ResourceType → CapabilityRegistry → Bool
can_execute_locally h reqs r =
    if length reqs == 0
    then true
    else if r.has_local_store
    then every (local_resource_type_available h) reqs
    else elim r.local_profile [ none ↦ false | some p ↦ has_all reqs p ]
