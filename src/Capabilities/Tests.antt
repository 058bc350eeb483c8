-- ===== src/Capabilities/Tests.antt =====
-- The queries of the capability registry at three nodes.
use pando.Common.{ℕ, ◌≡◌, refl, true, false, none, some, [], ◌∷◌}
use pando.Common.Table.{find}
use pando.Capabilities.Registry.{
  ResourceType, CapabilityProfile, CapabilityRegistry, profile_key, get_peer_profile, scan,
  find_capable_nodes, cleanup,
}
use pando.Capabilities.Lookup.{if_capable, find_capable_nodes_lem}

abbrev profile : ℕ → CapabilityProfile
profile peer = record {
  peer_id = peer;
  updated_at = 0;
  capabilities = λ t. true;
  verified = none;
  verified_at = none;
  details = 0;
}

abbrev registry : CapabilityRegistry
registry = record {
  profiles =
      record { profile = profile 1; received_at = 0; is_local = true }
      ∷ record { profile = profile 2; received_at = 0; is_local = false }
      ∷ record { profile = profile 3; received_at = 300_000; is_local = false }
      ∷ [];
  local_profile = some (profile 1);
  has_local_store = false;
  verification_status = [];
}

find_capable_nodes_lem_example :
    let known = (get_peer_profile 400_000 3 registry).0 in
    (find profile_key 3 (find_capable_nodes 400_000 (ResourceType.storage ∷ []) registry).0
      ≡ if_capable (ResourceType.storage ∷ []) known)
    × (((get_peer_profile 400_000 3
            (find_capable_nodes 400_000 (ResourceType.storage ∷ []) registry).1).0
          ≡ known)
        × ((get_peer_profile 400_000 3 (cleanup 400_000 registry)).0 ≡ known))
find_capable_nodes_lem_example =
    find_capable_nodes_lem 400_000 3 (ResourceType.storage ∷ []) registry refl
      (refl, (refl, (refl, tt)))

-- the search keeps the local profile, which the lookup drops after five minutes
kept_local : find profile_key 1 (find_capable_nodes 400_000 [] registry).0 ≡ some (profile 1)
unfolding find_capable_nodes scan
kept_local = refl

dropped_local : (get_peer_profile 400_000 1 registry).0 ≡ none
unfolding get_peer_profile
dropped_local = refl
