-- ===== src/Common/Table/Append.antt =====
-- Tables with a row added at the end, and tables with the same rows to find.
use Prim.Native.Nat.{ℕ}
use mathlib.Core.Path.{◌≡◌, refl, ◌∙◌, sym}
use mathlib.Core.Logic.{inl, inr, ◌≢◌}
use mathlib.Core.Option.{none, some}
use mathlib.Core.List.{List, [], ◌∷◌, ◌++◌}
use native.Mathlib.Omega.{arith}
use pando.Common.Tests.{◌==◌, ==-refl, ==-eq, ne_of_==, Bool-cases, Option-cases}
use pando.Common.Table.{find, update, remove, put, IsKeyed}
use pando.Common.Table.Laws.{
  find-update_self, find-update_ne, find-update-none, find-remove_self, find-remove_ne,
  find-put_self, find-put_ne,
}

module _ {ℓ} {R : Type ℓ} (key : R → ℕ) where
  pub find-append-some :
      (j : ℕ) {r : R} (xs ys : List R) → find key j xs ≡ some r → find key j (xs ++ ys) ≡ some r
  find-append-some j [] ys e = absurd (ground arith)
  find-append-some j {r} (x ∷ xs) ys e = ground (arith, find-append-some j {r = r} xs ys)

  pub find-append-none :
      (j : ℕ) (xs ys : List R) → find key j xs ≡ none → find key j (xs ++ ys) ≡ find key j ys
  find-append-none j [] ys e = refl
  find-append-none j (x ∷ xs) ys e = ground (arith, find-append-none j xs ys)

  pub append-IsKeyed :
      (x : R) (xs : List R)
      → find key (key x) xs ≡ none
      → IsKeyed key xs
      → IsKeyed key (xs ++ x ∷ [])
  append-IsKeyed x [] new h = (refl, tt)
  append-IsKeyed x (y ∷ xs) new h = elim (Bool-cases (key y == key x)) [
    | inl same ↦ absurd (ground arith)
    | inr other ↦
        let at_end : find key (key y) (x ∷ []) ≡ none = ground arith in
        (find-append-none (key y) xs (x ∷ []) h.0 ∙ at_end, append-IsKeyed x xs (ground arith) h.1)
  ]

  -- two tables in which every key finds the same
  abbrev pub Agree : List R → List R → Type ℓ
  Agree xs ys = (j : ℕ) → find key j xs ≡ find key j ys

  pub update-Agree :
      (k : ℕ) (f : R → R) (xs ys : List R)
      → ((r : R) → key (f r) ≡ key r)
      → Agree xs ys
      → Agree (update key k f xs) (update key k f ys)
  update-Agree k f xs ys kept a j = elim (Bool-cases (j == k)) [
    | inr other ↦
        let ne = ne_of_== j k other in
        find-update_ne key j k f xs kept ne ∙ a j ∙ sym (find-update_ne key j k f ys kept ne)
    | inl same ↦ elim (Option-cases (find key k ys)) [
      | inl missing ↦
          let e = ==-eq j k same in
          let m : find key k xs ≡ none = a k ∙ missing in
          rw e (
            find-update-none key k k f xs kept m ∙ sym (find-update-none key k k f ys kept missing))
      | inr (r, found) ↦
          let e = ==-eq j k same in
          let m : find key k xs ≡ some r = a k ∙ found in
          rw e (
            find-update_self key k f xs (kept r) m
            ∙ sym (find-update_self key k f ys (kept r) found))
    ]
  ]

  pub remove-Agree :
      (k : ℕ) (xs ys : List R) → Agree xs ys → Agree (remove key k xs) (remove key k ys)
  remove-Agree k xs ys a j = elim (Bool-cases (j == k)) [
    | inr other ↦
        let ne = ne_of_== j k other in
        find-remove_ne key j k xs ne ∙ a j ∙ sym (find-remove_ne key j k ys ne)
    | inl same ↦ rw (==-eq j k same) (find-remove_self key k xs ∙ sym (find-remove_self key k ys))
  ]

  -- a new row at the end of one, and put into the other
  pub append-put-Agree :
      (x : R) (xs ys : List R)
      → find key (key x) xs ≡ none
      → ((j : ℕ) → j ≢ key x → find key j xs ≡ find key j ys)
      → Agree (xs ++ x ∷ []) (put key x ys)
  append-put-Agree x xs ys new a j = elim (Bool-cases (j == key x)) [
    | inl same ↦
        let at_end : find key (key x) (x ∷ []) ≡ some x = ground (arith, ==-refl (key x)) in
        rw (==-eq j (key x) same)
          (find-append-none (key x) xs (x ∷ []) new ∙ at_end ∙ sym (find-put_self key x ys))
    | inr other ↦
        let ne = ne_of_== j (key x) other in
        let past : find key j (xs ++ x ∷ []) ≡ find key j xs = elim (Option-cases (find key j xs)) [
          | inl missing ↦ find-append-none j xs (x ∷ []) missing ∙ ground (arith)
          | inr (r, found) ↦ find-append-some j xs (x ∷ []) found ∙ sym found
        ] in
        past ∙ a j ne ∙ sym (find-put_ne key j x ys ne)
  ]
