-- ===== src/Prelude/Sorts.antt =====
-- Python's `sorted(xs, key=...)`: a stable sort, by insertion.
use mathlib.Core.Bool.{Bool}
use mathlib.Core.List.{List, [], ◌∷◌}
use mathlib.Core.Path.{sym, ap, ◌∙◌}
use mathlib.Core.Logic.{inl, inr}
use mathlib.Core.List.{map}
use package.gpu_infra.Prelude.Lists.{
  In, here, there, In-cons, In-mono, In-swap, In-map, In-map_rev, Distinct,
}
use package.gpu_infra.Prelude.Tests.{if◌then◌else◌, Bool-cases}

module _ {ℓ} {A : Type ℓ} (lt : A → A → Bool) where
  -- `x` goes before the first element that it is not above.
  unfoldable pub insert_by : A → List A → List A
  insert_by x [] = x ∷ []
  insert_by x (y ∷ ys) = let rest = insert_by x ys in if lt y x then y ∷ rest else x ∷ y ∷ ys

  unfoldable pub sort_by : List A → List A
  unfolding insert_by
  sort_by [] = []
  sort_by (x ∷ xs) = insert_by x (sort_by xs)

  -- Sorting keeps the elements.
  pub In-insert_by : {y : A} (x : A) (ys : List A) → In y (x ∷ ys) → In y (insert_by x ys)
  unfolding insert_by
  In-insert_by x [] m = m
  In-insert_by x (z ∷ zs) m = elim (Bool-cases (lt z x)) [
    | inl e ↦ rw e (In-mono (In-insert_by x zs) (In-swap m))
    | inr e ↦ rw e m
  ]

  pub In-insert_by_rev : {y : A} (x : A) (ys : List A) → In y (insert_by x ys) → In y (x ∷ ys)
  unfolding insert_by
  In-insert_by_rev x [] m = m
  In-insert_by_rev x (z ∷ zs) m = elim (Bool-cases (lt z x)) [
    | inl e ↦ In-swap (In-mono (In-insert_by_rev x zs) (rw e at m))
    | inr e ↦ rw e at m
  ]

  pub In-sort_by : {y : A} (xs : List A) → In y xs → In y (sort_by xs)
  unfolding sort_by
  In-sort_by [] m = m
  In-sort_by (x ∷ xs) m = In-insert_by x (sort_by xs) (In-mono (In-sort_by xs) m)

  pub In-sort_by_rev : {y : A} (xs : List A) → In y (sort_by xs) → In y xs
  unfolding sort_by
  In-sort_by_rev [] m = m
  In-sort_by_rev (x ∷ xs) m = In-mono (In-sort_by_rev xs) (In-insert_by_rev x (sort_by xs) m)

  -- Keys that differ still differ in the sorted list.
  pub Distinct-insert_by {κ} :
      {B : Type κ} (f : A → B) (x : A) (ys : List A)
      → Distinct (map f (x ∷ ys))
      → Distinct (map f (insert_by x ys))
  unfolding insert_by
  Distinct-insert_by f x [] h = h
  Distinct-insert_by f x (z ∷ zs) h = elim (Bool-cases (lt z x)) [
    | inl e ↦ rw e (
      λ m.
          let (w, k, q) = In-map_rev f (insert_by x zs) m in
          elim (In-cons (In-insert_by_rev x zs k)) [
            | inl same ↦ h.0 (rw (ap f (sym same) ∙ q) here)
            | inr n ↦ h.1.0 (rw (sym q) (In-map f n))
          ],
      Distinct-insert_by f x zs (λ m. h.0 (there m), h.1.1),
    )
    | inr e ↦ rw e h
  ]

  pub Distinct-sort_by {κ} :
      {B : Type κ} (f : A → B) (xs : List A) → Distinct (map f xs) → Distinct (map f (sort_by xs))
  unfolding sort_by
  Distinct-sort_by f [] h = h
  Distinct-sort_by f (x ∷ xs) h = Distinct-insert_by f x (sort_by xs) (
    λ m.
        let (w, k, q) = In-map_rev f (sort_by xs) m in
        h.0 (rw (sym q) (In-map f (In-sort_by_rev xs k))),
    Distinct-sort_by f xs h.1,
  )
