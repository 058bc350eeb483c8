-- ===== src/Version/Tests.antt =====
-- The version protocol's theorems at two versions.
use pando.Common.{ℕ, ◌≡◌, ◌↔◌, ◌<◌, true, some, [], ◌∷◌}
use pando.Common.Table.{Each}
use pando.Version.Protocol.{
  ProtocolVersion, TaskVersionRequirement, can_claim_task, VersionProtocol, is_compatible,
  check_upgrade_needed, major_upgrade, minor_upgrade, patch_upgrade,
}
use pando.Version.Agreement.{
  is_compatible_comm, check_upgrade_needed_lem, can_claim_task_iff, IsAtLeast, FirstEnabled,
}

abbrev version : ℕ → ℕ → ℕ → ProtocolVersion
version a b c = record { major = a; minor = b; patch = c }

abbrev node : ProtocolVersion → ProtocolVersion → VersionProtocol
node v min = record {
  node_version = version 0 1 0;
  protocol_version = v;
  capabilities = [];
  min_compatible_version = min;
  build_timestamp = 5;
}

abbrev old : VersionProtocol
old = node (version 1 0 3) (version 1 0 0)

abbrev new : VersionProtocol
new = node (version 1 2 0) (version 1 1 0)

is_compatible_comm_example :
    is_compatible old (version 1 2 0) (some (version 1 1 0))
    ≡ is_compatible new (version 1 0 3) (some (version 1 0 0))
is_compatible_comm_example = is_compatible_comm old new

check_upgrade_needed_lem_example :
    let s = (check_upgrade_needed old (version 1 2 0)).severity in
    ((s ≡ major_upgrade) ↔ (1 < 1))
    × ((s ≡ minor_upgrade) ↔ ((old.protocol_version.major ≡ 1) × (0 < 2)))
    × ((s ≡ patch_upgrade)
        ↔ ((old.protocol_version.major ≡ 1) × (old.protocol_version.minor ≡ 2) × (3 < 0)))
check_upgrade_needed_lem_example = check_upgrade_needed_lem old (version 1 2 0)

abbrev capable : VersionProtocol
capable = record old {
  capabilities = record { name = 4; version = version 1 0 0; enabled = true } ∷ [];
}

abbrev requirement : TaskVersionRequirement
requirement = record { minimum_version = version 0 1 0; required_features = 4 ∷ [] }

can_claim_task_iff_example : (can_claim_task capable requirement ≡ true) ↔ (
    IsAtLeast (version 0 1 0) (version 0 1 0)
    × Each (λ f. FirstEnabled f capable.capabilities) (4 ∷ []))
can_claim_task_iff_example = can_claim_task_iff capable requirement
