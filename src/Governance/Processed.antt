-- ===== src/Governance/Processed.antt =====
-- The set `processedIds` and `sanitizeText` of packages/node/src/kernel/governance.ts.
use pando.Common.{ℕ, Bool, true, false, ◌&&◌, List, [], ◌∷◌, ◌++◌, ◌==◌, if◌then◌else◌}
use pando.Governance.Types.{ProcessedId, GovernanceSync}

abbrev pub same_id : ProcessedId → ProcessedId → Bool
same_id (ProcessedId.proposal i) (ProcessedId.proposal j) = i == j
same_id (ProcessedId.proposal i) (ProcessedId.comment j) = false
same_id (ProcessedId.proposal i) (ProcessedId.decision j) = false
same_id (ProcessedId.proposal i) (ProcessedId.vote j w) = false
same_id (ProcessedId.comment i) (ProcessedId.proposal j) = false
same_id (ProcessedId.comment i) (ProcessedId.comment j) = i == j
same_id (ProcessedId.comment i) (ProcessedId.decision j) = false
same_id (ProcessedId.comment i) (ProcessedId.vote j w) = false
same_id (ProcessedId.decision i) (ProcessedId.proposal j) = false
same_id (ProcessedId.decision i) (ProcessedId.comment j) = false
same_id (ProcessedId.decision i) (ProcessedId.decision j) = i == j
same_id (ProcessedId.decision i) (ProcessedId.vote j w) = false
same_id (ProcessedId.vote i v) (ProcessedId.proposal j) = false
same_id (ProcessedId.vote i v) (ProcessedId.comment j) = false
same_id (ProcessedId.vote i v) (ProcessedId.decision j) = false
same_id (ProcessedId.vote i v) (ProcessedId.vote j w) = i == j && v == w

-- `processedIds.has(id)`
abbrev pub has_processed : ProcessedId → List ProcessedId → Bool
has_processed k [] = false
has_processed k (x ∷ xs) = if same_id k x then true else has_processed k xs

-- `processedIds.add(id)`
abbrev pub add_processed : ProcessedId → GovernanceSync → GovernanceSync
add_processed k s = record s {
  processed_ids =
      if has_processed k s.processed_ids then s.processed_ids else s.processed_ids ++ k ∷ [];
}

-- `processedIds.delete(id)`
abbrev pub delete_processed : ProcessedId → List ProcessedId → List ProcessedId
delete_processed k [] = []
delete_processed k (x ∷ xs) =
    if same_id k x then delete_processed k xs else x ∷ delete_processed k xs

-- `sanitizeText`: `<` and `>` as entities
unfoldable pub sanitize_text : List ℕ → List ℕ
sanitize_text [] = []
sanitize_text (c ∷ cs) =
    if c == 60
    then 38 ∷ 108 ∷ 116 ∷ 59 ∷ sanitize_text cs
    else if c == 62
    then 38 ∷ 103 ∷ 116 ∷ 59 ∷ sanitize_text cs
    else c ∷ sanitize_text cs
