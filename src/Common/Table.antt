-- ===== src/Common/Table.antt =====
-- A table of rows with a numeric key: a SQL table with its primary key, or a JavaScript Map in
-- insertion order.
pub mod Laws
pub mod Append
pub mod Sort
use Prim.Native.Nat.{ℕ}
use mathlib.Core.Path.{◌≡◌}
use mathlib.Core.Option.{Option, none, some}
use mathlib.Core.List.{List, [], ◌∷◌}
use pando.Common.Tests.{◌==◌, if◌then◌else◌}
use pando.Common.Int.{ℤ, pos, ◌+ℤ◌}

module _ {ℓ} {R : Type ℓ} (key : R → ℕ) where
  -- `SELECT … WHERE key = k`, or `map.get(k)`
  abbrev pub find : ℕ → List R → Option R
  find k [] = none
  find k (r ∷ rows) = if key r == k then some r else find k rows

  -- `UPDATE … WHERE key = k`
  abbrev pub update : ℕ → (R → R) → List R → List R
  update k f [] = []
  update k f (r ∷ rows) = (if key r == k then f r else r) ∷ update k f rows

  -- `DELETE … WHERE key = k`, or `map.delete(k)`
  abbrev pub remove : ℕ → List R → List R
  remove k [] = []
  remove k (r ∷ rows) = if key r == k then remove k rows else r ∷ remove k rows

  -- `map.set(key(new), new)`: in its old place, or at the end
  abbrev pub put : R → List R → List R
  put new [] = new ∷ []
  put new (r ∷ rows) = if key r == key new then new ∷ rows else r ∷ put new rows

  -- every key once
  abbrev pub IsKeyed : List R → Type ℓ
  IsKeyed [] = Unit {ℓ}
  IsKeyed (r ∷ rows) = (find (key r) rows ≡ none) × IsKeyed rows

-- the sum of a column
abbrev pub sum {ℓ} : {R : Type ℓ} → (R → ℤ) → List R → ℤ
sum w [] = pos 0
sum w (r ∷ rows) = w r +ℤ sum w rows

-- a condition on every row
abbrev pub Each {ℓ κ} : {R : Type ℓ} → (R → Type κ) → List R → Type κ
Each P [] = Unit
Each P (r ∷ rows) = P r × Each P rows
