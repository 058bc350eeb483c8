-- ===== src/Version/Protocol.antt =====
-- `VersionProtocol` (packages/node/src/core/version-protocol.ts). Names of capabilities are
-- numbers, and a version stands for its printed form.
use pando.Common.{
  ℕ, Bool, true, false, not, Option, none, some, List, [], ◌∷◌, ltb, ◌==◌, if◌then◌else◌, keep_if,
  map,
}

pub record ProtocolVersion : Type 0 where
  pub major : ℕ
  pub minor : ℕ
  pub patch : ℕ

pub record VersionedCapability : Type 0 where
  pub name : ℕ
  pub version : ProtocolVersion
  pub enabled : Bool

pub record VersionProtocol : Type 0 where
  pub node_version : ProtocolVersion
  pub protocol_version : ProtocolVersion
  pub capabilities : List VersionedCapability
  pub min_compatible_version : ProtocolVersion
  pub build_timestamp : ℕ

pub record TaskVersionRequirement : Type 0 where
  pub minimum_version : ProtocolVersion
  pub required_features : List ℕ

-- -1, 0 and 1
pub data Comparison : Type 0 where
  below same above : Comparison

abbrev pub is_below : Comparison → Bool
is_below below = true
is_below same = false
is_below above = false

-- by the major, then the minor, then the patch number
unfoldable pub compare_versions : ProtocolVersion → ProtocolVersion → Comparison
compare_versions a b =
    if not (a.major == b.major)
    then (if ltb a.major b.major then below else above)
    else if not (a.minor == b.minor)
    then (if ltb a.minor b.minor then below else above)
    else if not (a.patch == b.patch)
    then (if ltb a.patch b.patch then below else above)
    else same

-- what a node says of itself
unfoldable pub is_compatible : VersionProtocol → ProtocolVersion → Option ProtocolVersion → Bool
is_compatible node remote remote_min =
    if not (remote.major == node.protocol_version.major)
    then false
    else if is_below (compare_versions remote node.min_compatible_version)
    then false
    else elim remote_min [
      | none ↦ true
      | some min ↦ not (is_below (compare_versions node.protocol_version min))
    ]

-- `capabilities.find(c => c.name === feature)`
unfoldable pub find_capability : ℕ → List VersionedCapability → Option VersionedCapability
find_capability feature [] = none
find_capability feature (c ∷ cs) = if c.name == feature then some c else find_capability feature cs

abbrev pub offers : ℕ → List VersionedCapability → Bool
offers feature cs = elim (find_capability feature cs) [ none ↦ false | some c ↦ c.enabled ]

unfoldable pub has_features : List ℕ → List VersionedCapability → Bool
has_features [] cs = true
has_features (f ∷ fs) cs = if offers f cs then has_features fs cs else false

unfoldable pub can_claim_task : VersionProtocol → TaskVersionRequirement → Bool
can_claim_task node requirement =
    if is_below (compare_versions node.node_version requirement.minimum_version)
    then false
    else has_features requirement.required_features node.capabilities

pub record StatusExtension : Type 0 where
  pub node_version : ProtocolVersion
  pub protocol_version : ProtocolVersion
  pub min_compatible_version : ProtocolVersion
  pub capabilities : List ℕ
  pub build_timestamp : ℕ

unfoldable pub get_status_extension : VersionProtocol → StatusExtension
get_status_extension node = record {
  node_version = node.node_version;
  protocol_version = node.protocol_version;
  min_compatible_version = node.min_compatible_version;
  capabilities = map (λ c. c.name) (keep_if (λ c. c.enabled) node.capabilities);
  build_timestamp = node.build_timestamp;
}

pub data Severity : Type 0 where
  no_upgrade patch_upgrade minor_upgrade major_upgrade : Severity

pub record UpgradeCheck : Type 0 where
  pub upgrade_needed : Bool
  pub current_version : ProtocolVersion
  pub latest_version : ProtocolVersion
  pub severity : Severity

unfoldable pub check_upgrade_needed : VersionProtocol → ProtocolVersion → UpgradeCheck
check_upgrade_needed node latest =
    let current = node.protocol_version in
    let severity =
      if ltb current.major latest.major
      then major_upgrade
      else if ltb current.minor latest.minor
      then minor_upgrade
      else patch_upgrade in
    if is_below (compare_versions current latest)
    then record {
      upgrade_needed = true;
      current_version = current;
      latest_version = latest;
      severity = severity;
    }
    else record {
      upgrade_needed = false;
      current_version = current;
      latest_version = latest;
      severity = no_upgrade;
    }
