-- ===== src/Common/Table/Laws.antt =====
-- Laws of keyed tables: lookups after a write, keys kept distinct, column sums.
use mathlib.Core.Path.{subst}
use pando.Common.{
  ℕ, suc, ◌≡◌, refl, ◌≢◌, ap, none, some, List, [], ◌∷◌, arith, ◌==◌, length, Bool-cases, inl, inr,
  ==-eq, ne_of_==, zero, drop, ◌++◌,
}
use pando.Common.Int.{ℤ, ◌+ℤ◌, int_laws}
use pando.Common.Table.{find, update, remove, put, IsKeyed, sum, Each}

module _ {ℓ} {R : Type ℓ} (key : R → ℕ) where
  -- the row that is found has the key
  pub key-find : (k : ℕ) {r : R} (rows : List R) → find key k rows ≡ some r → key r ≡ k
  key-find k [] e = cc
  key-find k {r} (x ∷ rows) e = ground (arith, key-find k {r = r} rows)

  -- an update that keeps the keys changes the row of its own key only
  pub find-update_self :
      (k : ℕ) (f : R → R) {r : R} (rows : List R)
      → key (f r) ≡ key r
      → find key k rows ≡ some r
      → find key k (update key k f rows) ≡ some (f r)
  find-update_self k f [] kept e = cc
  find-update_self k f (x ∷ rows) kept e = ground (arith, find-update_self k f rows kept)

  pub find-update_ne :
      (j k : ℕ) (f : R → R) (rows : List R)
      → ((r : R) → key (f r) ≡ key r)
      → j ≢ k
      → find key j (update key k f rows) ≡ find key j rows
  find-update_ne j k f [] kept ne = refl
  find-update_ne j k f (x ∷ rows) kept ne =
      ground (arith, kept x, find-update_ne j k f rows kept ne)

  pub find-update-none :
      (j k : ℕ) (f : R → R) (rows : List R)
      → ((r : R) → key (f r) ≡ key r)
      → find key j rows ≡ none
      → find key j (update key k f rows) ≡ none
  find-update-none j k f [] kept e = refl
  find-update-none j k f (x ∷ rows) kept e =
      ground (arith, kept x, find-update-none j k f rows kept)

  -- an update of a missing key changes nothing
  pub update_absent :
      (k : ℕ) (f : R → R) (rows : List R) → find key k rows ≡ none → update key k f rows ≡ rows
  update_absent k f [] e = refl
  update_absent k f (x ∷ rows) e = ground (arith, update_absent k f rows)

  pub length-update :
      (k : ℕ) (f : R → R) (rows : List R) → length (update key k f rows) ≡ length rows
  length-update k f [] = refl
  length-update k f (x ∷ rows) = ap suc (length-update k f rows)

  pub update-IsKeyed :
      (k : ℕ) (f : R → R) (rows : List R)
      → ((r : R) → key (f r) ≡ key r)
      → IsKeyed key rows
      → IsKeyed key (update key k f rows)
  update-IsKeyed k f [] kept h = tt
  update-IsKeyed k f (x ∷ rows) kept h =
      ground (
        arith,
        kept x,
        find-update-none (key x) k f rows kept h.0,
        update-IsKeyed k f rows kept h.1,
      )

  pub find-remove_self : (k : ℕ) (rows : List R) → find key k (remove key k rows) ≡ none
  find-remove_self k [] = refl
  find-remove_self k (x ∷ rows) = ground (arith, find-remove_self k rows)

  pub find-remove_ne :
      (j k : ℕ) (rows : List R) → j ≢ k → find key j (remove key k rows) ≡ find key j rows
  find-remove_ne j k [] ne = refl
  find-remove_ne j k (x ∷ rows) ne = ground (arith, find-remove_ne j k rows ne)

  pub find-remove-none :
      (j k : ℕ) (rows : List R) → find key j rows ≡ none → find key j (remove key k rows) ≡ none
  find-remove-none j k [] e = refl
  find-remove-none j k (x ∷ rows) e = ground (arith, find-remove-none j k rows)

  pub remove-IsKeyed : (k : ℕ) (rows : List R) → IsKeyed key rows → IsKeyed key (remove key k rows)
  remove-IsKeyed k [] h = tt
  remove-IsKeyed k (x ∷ rows) h =
      ground (arith, find-remove-none (key x) k rows h.0, remove-IsKeyed k rows h.1)

  pub find-put_self : (new : R) (rows : List R) → find key (key new) (put key new rows) ≡ some new
  find-put_self new [] = ground arith
  find-put_self new (x ∷ rows) = ground (arith, find-put_self new rows)

  pub find-put_ne :
      (j : ℕ) (new : R) (rows : List R)
      → j ≢ key new
      → find key j (put key new rows) ≡ find key j rows
  find-put_ne j new [] ne = ground arith
  find-put_ne j new (x ∷ rows) ne = ground (arith, find-put_ne j new rows ne)

  pub put-IsKeyed : (new : R) (rows : List R) → IsKeyed key rows → IsKeyed key (put key new rows)
  put-IsKeyed new [] h = (refl, tt)
  put-IsKeyed new (x ∷ rows) h = elim (Bool-cases (key x == key new)) [
    | inl same ↦ rw (same, ← ==-eq (key x) (key new) same) h
    | inr other ↦
        rw other
          (rw (find-put_ne (key x) new rows (ne_of_== _ _ other)) h.0, put-IsKeyed new rows h.1)
  ]

  -- an update of one row changes the column's sum by what it changes in that row
  pub sum-update :
      (w : R → ℤ) (k : ℕ) (f : R → R) {r : R} (rows : List R)
      → IsKeyed key rows
      → find key k rows ≡ some r
      → sum w (update key k f rows) +ℤ w r ≡ sum w rows +ℤ w (f r)
  sum-update w k f [] h e = cc
  sum-update w k f {r} (x ∷ rows) h e =
      grind (int_laws, sum-update w k f {r = r} rows, update_absent k f rows)

  pub sum-update_same :
      (w : R → ℤ) (k : ℕ) (f : R → R) (rows : List R)
      → ((r : R) → w (f r) ≡ w r)
      → sum w (update key k f rows) ≡ sum w rows
  sum-update_same w k f [] same = refl
  sum-update_same w k f (x ∷ rows) same = ground (arith, same x, sum-update_same w k f rows same)

  -- a row put over an old one, and a new row
  pub sum-put :
      (w : R → ℤ) (new : R) {r : R} (rows : List R)
      → find key (key new) rows ≡ some r
      → sum w (put key new rows) +ℤ w r ≡ sum w rows +ℤ w new
  sum-put w new [] e = cc
  sum-put w new {r} (x ∷ rows) e = grind (int_laws, sum-put w new {r = r} rows)

  pub sum-put_new :
      (w : R → ℤ) (new : R) (rows : List R)
      → find key (key new) rows ≡ none
      → sum w (put key new rows) ≡ sum w rows +ℤ w new
  sum-put_new w new [] e = grind int_laws
  sum-put_new w new (x ∷ rows) e = grind (int_laws, sum-put_new w new rows)

module _ {ℓ κ} {R : Type ℓ} (key : R → ℕ) (P : R → Type κ) where
  -- a condition on every row holds of the row found
  pub Each-find : (k : ℕ) {r : R} (rows : List R) → Each P rows → find key k rows ≡ some r → P r
  Each-find k [] h e = cc
  Each-find k (x ∷ rows) h e = elim (Bool-cases (key x == k)) [
    | inl same ↦ subst P (cc (rw same at e)) h.0
    | inr other ↦ Each-find k rows h.1 (rw other at e)
  ]

  pub Each-update :
      (k : ℕ) (f : R → R) (rows : List R)
      → ((r : R) → P r → P (f r))
      → Each P rows
      → Each P (update key k f rows)
  Each-update k f [] keep h = tt
  Each-update k f (x ∷ rows) keep h = elim (Bool-cases (key x == k)) [
    | inl same ↦ rw same (keep x h.0, Each-update k f rows keep h.1)
    | inr other ↦ rw other (h.0, Each-update k f rows keep h.1)
  ]

  pub Each-remove : (k : ℕ) (rows : List R) → Each P rows → Each P (remove key k rows)
  Each-remove k [] h = tt
  Each-remove k (x ∷ rows) h = elim (Bool-cases (key x == k)) [
    | inl same ↦ rw same (Each-remove k rows h.1)
    | inr other ↦ rw other (h.0, Each-remove k rows h.1)
  ]

  pub Each-put : (new : R) (rows : List R) → P new → Each P rows → Each P (put key new rows)
  Each-put new [] p h = (p, tt)
  Each-put new (x ∷ rows) p h = elim (Bool-cases (key x == key new)) [
    | inl same ↦ rw same (p, h.1)
    | inr other ↦ rw other (h.0, Each-put new rows p h.1)
  ]

module _ {ℓ κ} {R : Type ℓ} (P : R → Type κ) where
  pub Each-append : (xs ys : List R) → Each P xs → Each P ys → Each P (xs ++ ys)
  Each-append [] ys h k = k
  Each-append (x ∷ xs) ys h k = (h.0, Each-append xs ys h.1 k)

  pub Each-drop : (n : ℕ) (xs : List R) → Each P xs → Each P (drop n xs)
  Each-drop zero xs h = h
  Each-drop (suc n) [] h = tt
  Each-drop (suc n) (x ∷ xs) h = Each-drop n xs h.1
