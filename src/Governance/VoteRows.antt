-- ===== src/Governance/VoteRows.antt =====
-- The table governance_votes and the Map of votes behind packages/node/src/kernel/governance.ts:
-- a vote is found by its proposal and its voter.
use pando.Common.{
  ℕ, ◌≡◌, ◌≢◌, inl, inr, refl, Bool, false, ◌&&◌, Option, none, some, List, [], ◌∷◌, ◌++◌, ◌==◌,
  ==-eq, ==-refl, ne_of_==, Bool-cases, arith, ◌∙◌, sym, ap,
}
use pando.Common.Table.{find, put}
use pando.Common.Table.Laws.{find-put_self, find-put_ne}
use pando.Governance.Types.{GovernanceVote, Ballots, voter_key, ballots_key}
use pando.Governance.Store.{votes_on, set_vote, find_vote, drop_vote, upsert_vote}
use pando.Governance.Archive.{drop_ballots}

-- the primary key: one row of a voter on a proposal
abbrev pub AreUnique : List GovernanceVote → Type 0
AreUnique [] = Unit
AreUnique (v ∷ rows) = (find_vote v.proposal_id v.voter rows ≡ none) × AreUnique rows

abbrev pub same_vote : ℕ → ℕ → GovernanceVote → Bool
same_vote id w v = v.proposal_id == id && v.voter == w

pub find_vote-append-some :
    (id w : ℕ) {v : GovernanceVote} (xs ys : List GovernanceVote)
    → find_vote id w xs ≡ some v
    → find_vote id w (xs ++ ys) ≡ some v
find_vote-append-some id w [] ys e = absurd (ground arith)
find_vote-append-some id w {v} (x ∷ xs) ys e =
    ground (arith, find_vote-append-some id w {v = v} xs ys)

pub find_vote-append-none :
    (id w : ℕ) (xs ys : List GovernanceVote)
    → find_vote id w xs ≡ none
    → find_vote id w (xs ++ ys) ≡ find_vote id w ys
find_vote-append-none id w [] ys e = refl
find_vote-append-none id w (x ∷ xs) ys e = ground (arith, find_vote-append-none id w xs ys)

pub find_vote-drop_vote_self :
    (id w : ℕ) (rows : List GovernanceVote) → find_vote id w (drop_vote id w rows) ≡ none
find_vote-drop_vote_self id w [] = refl
find_vote-drop_vote_self id w (v ∷ rows) = ground (arith, find_vote-drop_vote_self id w rows)

find_vote-drop_vote-none :
    (id w j u : ℕ) (rows : List GovernanceVote)
    → find_vote id w rows ≡ none
    → find_vote id w (drop_vote j u rows) ≡ none
find_vote-drop_vote-none id w j u [] e = refl
find_vote-drop_vote-none id w j u (v ∷ rows) e =
    ground (arith, find_vote-drop_vote-none id w j u rows)

pub find_vote-drop_vote_ne :
    (id w j u : ℕ) (rows : List GovernanceVote)
    → (j == id && u == w) ≡ false
    → find_vote id w (drop_vote j u rows) ≡ find_vote id w rows
find_vote-drop_vote_ne id w j u [] ne = refl
find_vote-drop_vote_ne id w j u (v ∷ rows) ne =
    elim (Bool-cases (v.proposal_id == j && v.voter == u)) [
      | inl same ↦
          let i : v.proposal_id ≡ j = ==-eq v.proposal_id j (ground arith) in
          let k : v.voter ≡ u = ==-eq v.voter u (ground arith) in
          ground (arith, find_vote-drop_vote_ne id w j u rows ne)
      | inr other ↦ ground (arith, find_vote-drop_vote_ne id w j u rows ne)
    ]

drop_vote-AreUnique :
    (id w : ℕ) (rows : List GovernanceVote) → AreUnique rows → AreUnique (drop_vote id w rows)
drop_vote-AreUnique id w [] h = tt
drop_vote-AreUnique id w (v ∷ rows) h = elim (Bool-cases (v.proposal_id == id && v.voter == w)) [
  | inl same ↦ rw same (drop_vote-AreUnique id w rows h.1)
  | inr other ↦ rw other (
    find_vote-drop_vote-none v.proposal_id v.voter id w rows h.0,
    drop_vote-AreUnique id w rows h.1,
  )
]

append-AreUnique :
    (v : GovernanceVote) (rows : List GovernanceVote)
    → find_vote v.proposal_id v.voter rows ≡ none
    → AreUnique rows
    → AreUnique (rows ++ v ∷ [])
append-AreUnique v [] new h = (refl, tt)
append-AreUnique v (x ∷ rows) new h =
    elim (Bool-cases (x.proposal_id == v.proposal_id && x.voter == v.voter)) [
      | inl same ↦ absurd (ground arith)
      | inr other ↦
          let at_end : find_vote x.proposal_id x.voter (v ∷ []) ≡ none =
            elim (Bool-cases (v.proposal_id == x.proposal_id && v.voter == x.voter)) [
              | inl same ↦
                  let i : v.proposal_id ≡ x.proposal_id =
                    ==-eq v.proposal_id x.proposal_id (ground arith) in
                  let k : v.voter ≡ x.voter = ==-eq v.voter x.voter (ground arith) in
                  absurd (ground (arith, ==-refl x.proposal_id, ==-refl x.voter))
              | inr differ ↦ rw differ refl
            ] in
          (
            find_vote-append-none x.proposal_id x.voter rows (v ∷ []) h.0 ∙ at_end,
            append-AreUnique v rows (ground arith) h.1,
          )
    ]

pub upsert_vote-AreUnique :
    (v : GovernanceVote) (rows : List GovernanceVote)
    → AreUnique rows
    → AreUnique (upsert_vote v rows)
upsert_vote-AreUnique v rows h =
    append-AreUnique v (drop_vote v.proposal_id v.voter rows)
      (find_vote-drop_vote_self v.proposal_id v.voter rows)
      (drop_vote-AreUnique v.proposal_id v.voter rows h)

find_vote-drop_ballots-none :
    (id w j : ℕ) (rows : List GovernanceVote)
    → find_vote id w rows ≡ none
    → find_vote id w (drop_ballots j rows) ≡ none
find_vote-drop_ballots-none id w j [] e = refl
find_vote-drop_ballots-none id w j (v ∷ rows) e =
    ground (arith, find_vote-drop_ballots-none id w j rows)

pub drop_ballots-AreUnique :
    (id : ℕ) (rows : List GovernanceVote) → AreUnique rows → AreUnique (drop_ballots id rows)
drop_ballots-AreUnique id [] h = tt
drop_ballots-AreUnique id (v ∷ rows) h = elim (Bool-cases (v.proposal_id == id)) [
  | inl same ↦ rw same (drop_ballots-AreUnique id rows h.1)
  | inr other ↦ rw other (
    find_vote-drop_ballots-none v.proposal_id v.voter id rows h.0,
    drop_ballots-AreUnique id rows h.1,
  )
]

pub find_vote-drop_ballots_ne :
    (id w j : ℕ) (rows : List GovernanceVote)
    → id ≢ j
    → find_vote id w (drop_ballots j rows) ≡ find_vote id w rows
find_vote-drop_ballots_ne id w j [] ne = refl
find_vote-drop_ballots_ne id w j (v ∷ rows) ne = elim (Bool-cases (v.proposal_id == j)) [
  | inl same ↦
      let i : v.proposal_id ≡ j = ==-eq v.proposal_id j same in
      ground (arith, find_vote-drop_ballots_ne id w j rows ne)
  | inr other ↦ ground (arith, find_vote-drop_ballots_ne id w j rows ne)
]

-- the vote of `w` on the proposal `id` in the Map
abbrev pub cast_by : ℕ → ℕ → List Ballots → Option GovernanceVote
cast_by id w b = find voter_key w (votes_on id b)

pub votes_on-put_self :
    (x : Ballots) (b : List Ballots) → votes_on x.proposal_id (put ballots_key x b) ≡ x.votes
votes_on-put_self x b = rw (find-put_self ballots_key x b, votes_on)

pub votes_on-put_ne :
    (id : ℕ) (x : Ballots) (b : List Ballots)
    → id ≢ x.proposal_id
    → votes_on id (put ballots_key x b) ≡ votes_on id b
votes_on-put_ne id x b ne = rw (find-put_ne ballots_key id x b ne, votes_on)

pub cast_by-set_vote_self :
    (v : GovernanceVote) (b : List Ballots) → cast_by v.proposal_id v.voter (set_vote v b) ≡ some v
cast_by-set_vote_self v b =
    rw
      (
        votes_on-put_self
            (record {
              proposal_id = v.proposal_id;
              votes = put voter_key v (votes_on v.proposal_id b);
            })
            b,
        cast_by,
        set_vote,
      )
      (find-put_self voter_key v (votes_on v.proposal_id b))

pub cast_by-set_vote_ne :
    (id w : ℕ) (v : GovernanceVote) (b : List Ballots)
    → (v.proposal_id == id && v.voter == w) ≡ false
    → cast_by id w (set_vote v b) ≡ cast_by id w b
cast_by-set_vote_ne id w v b ne =
    let x : Ballots = record {
      proposal_id = v.proposal_id;
      votes = put voter_key v (votes_on v.proposal_id b);
    } in
    elim (Bool-cases (v.proposal_id == id)) [
      | inl same ↦
          let i : v.proposal_id ≡ id = ==-eq v.proposal_id id same in
          let k : w ≢ v.voter = λ e. absurd (ground (arith, ==-refl w)) in
          rw (← i) (
            ap (λ (l : List GovernanceVote). find voter_key w l) (votes_on-put_self x b)
            ∙ find-put_ne voter_key w v (votes_on v.proposal_id b) k)
      | inr other ↦
          ap (λ (l : List GovernanceVote). find voter_key w l)
            (votes_on-put_ne id x b (λ e. ne_of_== v.proposal_id id other (sym e)))
    ]
