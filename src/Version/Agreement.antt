-- ===== src/Version/Agreement.antt =====
-- What the answers of two nodes have to do with each other
-- (packages/node/src/core/version-protocol.ts).
use pando.Common.{
  ℕ, ◌<◌, ◌≤◌, ◌≢◌, ◌⊎◌, inl, inr, ◌==◌, ==-eq, ne_of_==, Bool-cases, ◌≡◌, refl, ◌↔◌, true, false,
  some, arith, List, [], ◌∷◌,
}
use pando.Common.Table.{Each}
use pando.Version.Protocol.{
  ProtocolVersion, VersionProtocol, VersionedCapability, TaskVersionRequirement, is_below,
  compare_versions, is_compatible, check_upgrade_needed, patch_upgrade, minor_upgrade,
  major_upgrade, can_claim_task, has_features, offers, find_capability,
}

-- Two nodes that tell each other their version and their minimum agree on whether they are
-- compatible.
pub is_compatible_comm :
    (a b : VersionProtocol)
    → is_compatible a b.protocol_version (some b.min_compatible_version)
      ≡ is_compatible b a.protocol_version (some a.min_compatible_version)
unfolding is_compatible
is_compatible_comm a b = ground arith

-- An upgrade is major exactly if the latest major version is greater, minor exactly if the major
-- versions agree and the latest minor version is greater, and a patch exactly if both agree and the
-- latest patch is greater.
pub check_upgrade_needed_lem :
    (node : VersionProtocol) (latest : ProtocolVersion)
    → let current = node.protocol_version in
      let s = (check_upgrade_needed node latest).severity in
      ((s ≡ major_upgrade) ↔ (current.major < latest.major))
      × ((s ≡ minor_upgrade) ↔ ((current.major ≡ latest.major) × (current.minor < latest.minor)))
      × ((s ≡ patch_upgrade) ↔ (
          (current.major ≡ latest.major)
          × (current.minor ≡ latest.minor)
          × (current.patch < latest.patch)))
unfolding check_upgrade_needed compare_versions
check_upgrade_needed_lem node latest = (
  ((λ h. ground arith), λ h. ground arith),
  ((λ h. ground arith), λ h. ground arith),
  ((λ h. ground arith), λ h. ground arith),
)

-- the versions in order: the major, then the minor, then the patch number decides
abbrev pub IsAtLeast : ProtocolVersion → ProtocolVersion → Type 0
IsAtLeast a b =
    (b.major < a.major)
    ⊎ ((a.major ≡ b.major) × ((b.minor < a.minor) ⊎ ((a.minor ≡ b.minor) × (b.patch ≤ a.patch))))

-- the first entry with this name is enabled
pub data FirstEnabled (feature : ℕ) : List VersionedCapability → Type 0 where
  found :
      {c : VersionedCapability} {cs : List VersionedCapability}
      → c.name ≡ feature
      → c.enabled ≡ true
      → FirstEnabled feature (c ∷ cs)
  later :
      {c : VersionedCapability} {cs : List VersionedCapability}
      → c.name ≢ feature
      → FirstEnabled feature cs
      → FirstEnabled feature (c ∷ cs)

at_least : (a b : ProtocolVersion) → is_below (compare_versions a b) ≡ false → IsAtLeast a b
unfolding compare_versions
at_least a b h = elim (Bool-cases (a.major == b.major)) [
  | inl same ↦ elim (Bool-cases (a.minor == b.minor)) [
    | inl same_minor ↦
        inr (==-eq a.major b.major same, inr (==-eq a.minor b.minor same_minor, ground arith))
    | inr other ↦ inr (==-eq a.major b.major same, inl (ground arith))
  ]
  | inr other ↦ inl (ground arith)
]

not_below : (a b : ProtocolVersion) → IsAtLeast a b → is_below (compare_versions a b) ≡ false
unfolding compare_versions
not_below a b (inl more) = ground arith
not_below a b (inr (same, inl more)) = ground arith
not_below a b (inr (same, inr (same_minor, p))) = ground arith

offers-FirstEnabled :
    (f : ℕ) (cs : List VersionedCapability) → offers f cs ≡ true → FirstEnabled f cs
unfolding find_capability
offers-FirstEnabled f [] h = cc
offers-FirstEnabled f (c ∷ cs) h = elim (Bool-cases (c.name == f)) [
  | inl same ↦ found (==-eq c.name f same) (ground arith)
  | inr other ↦ later (ne_of_== c.name f other) (offers-FirstEnabled f cs (ground arith))
]

FirstEnabled-offers :
    (f : ℕ) (cs : List VersionedCapability) → FirstEnabled f cs → offers f cs ≡ true
unfolding find_capability
FirstEnabled-offers f [] h = elim h [ ]
FirstEnabled-offers f (c ∷ cs) (found same enabled) = ground arith
FirstEnabled-offers f (c ∷ cs) (later other there) = ground (arith, FirstEnabled-offers f cs there)

features_enabled :
    (fs : List ℕ) (cs : List VersionedCapability)
    → has_features fs cs ≡ true
    → Each (λ f. FirstEnabled f cs) fs
unfolding has_features
features_enabled [] cs h = tt
features_enabled (f ∷ fs) cs h =
    (offers-FirstEnabled f cs (ground arith), features_enabled fs cs (ground arith))

enabled_features :
    (fs : List ℕ) (cs : List VersionedCapability)
    → Each (λ f. FirstEnabled f cs) fs
    → has_features fs cs ≡ true
unfolding has_features
enabled_features [] cs h = refl
enabled_features (f ∷ fs) cs h =
    ground (arith, FirstEnabled-offers f cs h.0, enabled_features fs cs h.1)

-- A node can claim a task exactly if its version is at least the task's minimum, by the major, then
-- the minor, then the patch number, and for each required feature the node's first capability of
-- that name is enabled.
pub can_claim_task_iff :
    (node : VersionProtocol) (r : TaskVersionRequirement)
    → (can_claim_task node r ≡ true) ↔ (
        IsAtLeast node.node_version r.minimum_version
        × Each (λ f. FirstEnabled f node.capabilities) r.required_features)
unfolding can_claim_task
can_claim_task_iff node r = (
  (λ h. (
    at_least node.node_version r.minimum_version (ground arith),
    features_enabled r.required_features node.capabilities (ground arith),
  )),
  λ (h : IsAtLeast node.node_version r.minimum_version
        × Each (λ f. FirstEnabled f node.capabilities) r.required_features).
      ground (
        arith,
        not_below node.node_version r.minimum_version h.0,
        enabled_features r.required_features node.capabilities h.1,
      ),
)
