-- ===== src/Prelude/Lists.antt =====
-- Lists measured by native numbers, Boolean tests on them, and predicates by recursion.
use Prim.Native.Nat.{ℕ, zero, suc, ◌+◌}
use Prim.Native.String.{String}
use mathlib.Core.Path.{◌≡◌, refl, sym, ap}
use mathlib.Core.Logic.{◌⊎◌, inl, inr}
use mathlib.Core.Bool.{Bool, true, false, not, ◌&&◌, ◌||◌}
use mathlib.Core.List.{List, [], ◌∷◌, ◌++◌, map}
use mathlib.Core.Option.{Option, none, some}
use native.Mathlib.Omega.{arith}
use text.Mathlib.Text.{◌==◌}
use text.Mathlib.TextEquality.{eq_iff}
use text.Mathlib.TextPositions.{eq_refl}
use package.gpu_infra.Prelude.Tests.{eqb, if◌then◌else◌, Bool-cases}

module _ {ℓ} {A : Type ℓ} where
  abbrev pub length : List A → ℕ
  length [] = 0
  length (x ∷ xs) = suc (length xs)

  abbrev pub is_empty : List A → Bool
  is_empty [] = true
  is_empty (x ∷ xs) = false

  abbrev pub get_elem? : List A → ℕ → Option A
  get_elem? [] i = none
  get_elem? (x ∷ xs) zero = some x
  get_elem? (x ∷ xs) (suc i) = get_elem? xs i

  pub length-append : (xs ys : List A) → length (xs ++ ys) ≡ length xs + length ys
  length-append [] ys = omega arith
  length-append (x ∷ xs) ys = omega (arith, length-append xs ys)

  pub append_assoc : (xs ys zs : List A) → (xs ++ ys) ++ zs ≡ xs ++ (ys ++ zs)
  append_assoc [] ys zs = refl
  append_assoc (x ∷ xs) ys zs = ap (λ l. x ∷ l) (append_assoc xs ys zs)

  pub append_nil : (xs : List A) → xs ++ [] ≡ xs
  append_nil [] = refl
  append_nil (x ∷ xs) = ap (λ l. x ∷ l) (append_nil xs)

  -- Python's `any(p(x) for x in xs)` and `all(...)`
  unfoldable pub any : (A → Bool) → List A → Bool
  any p [] = false
  any p (x ∷ xs) = p x || any p xs

  unfoldable pub all : (A → Bool) → List A → Bool
  all p [] = true
  all p (x ∷ xs) = p x && all p xs

  -- `[x for x in xs if p(x)]`
  unfoldable pub filter_by : (A → Bool) → List A → List A
  filter_by p [] = []
  filter_by p (x ∷ xs) = let rest = filter_by p xs in if p x then x ∷ rest else rest

  unfoldable pub count_by : (A → Bool) → List A → ℕ
  count_by p [] = 0
  count_by p (x ∷ xs) = (if p x then 1 else 0) + count_by p xs

  -- A predicate on every element, which computes to a tuple.
  abbrev pub All {κ} : (A → Type κ) → List A → Type κ
  All P [] = Unit
  All P (x ∷ xs) = P x × All P xs

  -- Two lists are as long, and what stands at the same place is related.
  abbrev pub Along {κ} : {B : Type κ} → (A → B → Type 0) → List A → List B → Type 0
  Along R [] [] = Unit
  Along R [] (y ∷ ys) = ⊥
  Along R (x ∷ xs) [] = ⊥
  Along R (x ∷ xs) (y ∷ ys) = R x y × Along R xs ys

  -- An element of a list, with its place.
  pub data In (x : A) : List A → Type ℓ where
    here : {xs : List A} → In x (x ∷ xs)
    there : {y : A} {xs : List A} → In x xs → In x (y ∷ xs)

module _ {ℓ} {A : Type ℓ} where
  pub In-cons : {x y : A} {xs : List A} → In x (y ∷ xs) → (x ≡ y) ⊎ In x xs
  In-cons here = inl refl
  In-cons (there m) = inr m

module _ {ℓ} {A : Type ℓ} where
  pub In-mono : {x y : A} {xs ys : List A} → (In x xs → In x ys) → In x (y ∷ xs) → In x (y ∷ ys)
  In-mono f here = here
  In-mono f (there m) = there (f m)

  pub In-swap : {x y z : A} {xs : List A} → In x (y ∷ z ∷ xs) → In x (z ∷ y ∷ xs)
  In-swap here = there here
  In-swap (there here) = here
  In-swap (there (there m)) = there (there m)

  pub In-map {κ} : {B : Type κ} (f : A → B) {x : A} {xs : List A} → In x xs → In (f x) (map f xs)
  In-map f here = here
  In-map f (there m) = there (In-map f m)

  pub In-map_rev {κ} :
      {B : Type κ} (f : A → B) {y : B} (xs : List A)
      → In y (map f xs)
      → (x : A) × In x xs × (f x ≡ y)
  In-map_rev f [] m = elim m [ ]
  In-map_rev f (x ∷ xs) m = elim (In-cons m) [
    | inl e ↦ (x, here, sym e)
    | inr n ↦ let (z, k, e) = In-map_rev f xs n in (z, there k, e)
  ]

module _ {ℓ κ} {A : Type ℓ} (P : A → Type κ) where
  pub All-at : {x : A} {xs : List A} → All P xs → In x xs → P x
  All-at h here = h.0
  All-at h (there m) = All-at h.1 m

  pub All-of_In : (xs : List A) → ((x : A) → In x xs → P x) → All P xs
  All-of_In [] h = tt
  All-of_In (x ∷ xs) h = (h x here, All-of_In xs (λ y m. h y (there m)))

  pub All-append : (xs ys : List A) → All P xs → All P ys → All P (xs ++ ys)
  All-append [] ys hx hy = hy
  All-append (x ∷ xs) ys hx hy = (hx.0, All-append xs ys hx.1 hy)

module _ {ℓ} {A : Type ℓ} where
  pub all-at : (p : A → Bool) {x : A} {xs : List A} → all p xs ≡ true → In x xs → p x ≡ true
  unfolding all
  all-at p h here = ground arith
  all-at p {xs = y ∷ xs} h (there m) = all-at p {xs = xs} (ground arith) m

  pub all-All : (p : A → Bool) (xs : List A) → all p xs ≡ true → All (λ x. p x ≡ true) xs
  unfolding all
  all-All p [] h = tt
  all-All p (x ∷ xs) h = (ground arith, all-All p xs (ground arith))

  pub any-In : (p : A → Bool) (xs : List A) → any p xs ≡ true → (x : A) × In x xs × (p x ≡ true)
  unfolding any
  any-In p [] h = cc
  any-In p (x ∷ xs) h = elim (Bool-cases (p x)) [
    | inl e ↦ (x, here, e)
    | inr e ↦ let (y, m, q) = any-In p xs (ground arith) in (y, there m, q)
  ]

  filter_by_kept :
      (p : A → Bool) {x y : A} {ys zs : List A}
      → p y ≡ true
      → (In x zs → In x ys × (p x ≡ true))
      → In x (y ∷ zs)
      → In x (y ∷ ys) × (p x ≡ true)
  filter_by_kept p e f here = (here, e)
  filter_by_kept p e f (there m) = let (n, q) = f m in (there n, q)

  pub filter_by-In :
      (p : A → Bool) {x : A} (xs : List A) → In x (filter_by p xs) → In x xs × (p x ≡ true)
  unfolding filter_by
  filter_by-In p [] m = elim m [ ]
  filter_by-In p (y ∷ ys) m = elim (Bool-cases (p y)) [
    | inl e ↦ filter_by_kept p e (filter_by-In p ys) (rw e at m)
    | inr e ↦ let (n, q) = filter_by-In p ys (rw e at m) in (there n, q)
  ]

-- `x in xs` for strings, `len(set(xs)) == len(xs)`, and `set(xs).issubset(ys)`
unfoldable pub mem : String → List String → Bool
mem a [] = false
mem a (x ∷ xs) = a == x || mem a xs

unfoldable pub distinct : List String → Bool
unfolding mem
distinct [] = true
distinct (x ∷ xs) = not (mem x xs) && distinct xs

unfoldable pub subset : List String → List String → Bool
unfolding mem all
subset xs ys = all (λ x. mem x ys) xs

-- The same on numbers.
unfoldable pub mem_ℕ : ℕ → List ℕ → Bool
mem_ℕ a [] = false
mem_ℕ a (x ∷ xs) = eqb a x || mem_ℕ a xs

unfoldable pub distinct_ℕ : List ℕ → Bool
unfolding mem_ℕ
distinct_ℕ [] = true
distinct_ℕ (x ∷ xs) = not (mem_ℕ x xs) && distinct_ℕ xs

-- What those tests mean.
abbrev pub Distinct {ℓ} : {A : Type ℓ} → List A → Type ℓ
Distinct [] = Unit
Distinct (x ∷ xs) = (¬ In x xs) × Distinct xs

pub mem-In : (a : String) (xs : List String) → mem a xs ≡ true → In a xs
unfolding mem
mem-In a [] h = cc
mem-In a (x ∷ xs) h = elim (Bool-cases (a == x)) [
  | inl e ↦ rw ((eq_iff a x).0 e) here
  | inr e ↦ there (mem-In a xs (ground arith))
]

pub In-mem : (a : String) (xs : List String) → In a xs → mem a xs ≡ true
unfolding mem
In-mem a [] m = elim m [ ]
In-mem a (x ∷ xs) here = rw (eq_refl a)
In-mem a (x ∷ xs) (there m) = let rest = In-mem a xs m in ground arith

pub distinct-Distinct : (xs : List String) → distinct xs ≡ true → Distinct xs
unfolding distinct
distinct-Distinct [] h = tt
distinct-Distinct (x ∷ xs) h =
    (λ m. let found = In-mem x xs m in ground arith, distinct-Distinct xs (ground arith))

pub subset-All : (xs ys : List String) → subset xs ys ≡ true → All (λ x. In x ys) xs
unfolding subset all
subset-All [] ys h = tt
subset-All (x ∷ xs) ys h = (mem-In x ys (ground arith), subset-All xs ys (ground arith))
