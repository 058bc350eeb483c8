-- ===== src/Common/Table/Sort.antt =====
-- A stable sort, `xs.sort(compare)` or `ORDER BY`, and what it leaves of a table.
use Prim.Native.Nat.{ℕ}
use mathlib.Core.Path.{◌≡◌, refl, ◌∙◌}
use mathlib.Core.Logic.{inl, inr}
use mathlib.Core.Bool.{Bool}
use mathlib.Core.Option.{none}
use mathlib.Core.List.{List, [], ◌∷◌}
use native.Mathlib.Omega.{arith}
use pando.Common.Tests.{◌==◌, if◌then◌else◌, ==-refl, ==-eq, Bool-cases}
use pando.Common.Table.{find, IsKeyed}

module _ {ℓ} {R : Type ℓ} (before : R → R → Bool) where
  abbrev pub insert_by : R → List R → List R
  insert_by x [] = x ∷ []
  insert_by x (y ∷ ys) = if before x y then x ∷ y ∷ ys else y ∷ insert_by x ys

  abbrev pub sort_by : List R → List R
  sort_by [] = []
  sort_by (x ∷ xs) = insert_by x (sort_by xs)

module _ {ℓ} {R : Type ℓ} (before : R → R → Bool) (key : R → ℕ) where
  find-insert_by :
      (j : ℕ) (x : R) (ys : List R)
      → find key (key x) ys ≡ none
      → find key j (insert_by before x ys) ≡ find key j (x ∷ ys)
  find-insert_by j x [] new = refl
  find-insert_by j x (y ∷ ys) new = elim (Bool-cases (before x y)) [
    | inl first ↦ rw first refl
    | inr later ↦ rw later (
        let rest = find-insert_by j x ys (ground arith) in
        elim (Bool-cases (key y == j)) [
          | inl same ↦ let e : key y ≡ j = ==-eq (key y) j same in ground (arith, ==-eq (key x) j)
          | inr other ↦ ground (arith, rest)
        ])
  ]

  insert_by-IsKeyed :
      (x : R) (ys : List R)
      → find key (key x) ys ≡ none
      → IsKeyed key ys
      → IsKeyed key (insert_by before x ys)
  insert_by-IsKeyed x [] new h = (refl, tt)
  insert_by-IsKeyed x (y ∷ ys) new h = elim (Bool-cases (before x y)) [
    | inl first ↦ rw first (new, h)
    | inr later ↦ rw later (
      find-insert_by (key y) x ys (ground arith)
          ∙ ground (arith, h.0, ==-eq (key x) (key y), ==-refl (key y)),
      insert_by-IsKeyed x ys (ground arith) h.1,
    )
  ]

  -- a sorted table has the same rows to find, each once
  pub sort_by_lem :
      (xs : List R)
      → IsKeyed key xs
      → IsKeyed key (sort_by before xs) × ((j : ℕ) → find key j (sort_by before xs) ≡ find key j xs)
  sort_by_lem [] h = (tt, λ j. refl)
  sort_by_lem (x ∷ xs) h =
      let (k, same) = sort_by_lem xs h.1 in
      let new = same (key x) ∙ h.0 in
      (
        insert_by-IsKeyed x (sort_by before xs) new k,
        λ j. find-insert_by j x (sort_by before xs) new ∙ ground (arith, same j),
      )
