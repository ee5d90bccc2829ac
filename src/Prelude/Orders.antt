-- ===== src/Prelude/Orders.antt =====
-- The order of texts, which is irreflexive and transitive, and the first least element of a list.
use Prim.Native.Nat.{Ordering, compare as compare_ℕ}
use Prim.Native.Char.{Char, code}
use Prim.Native.String.{String, then as and_then, compare as compare_text}
use Prim.Native.String.compare
use mathlib.Core.Path.{◌≡◌, refl, sym, ap, ◌∙◌, subst}
use mathlib.Core.Logic.{◌⊎◌, inl, inr}
use mathlib.Core.Bool.{Bool, true, false, ◌&&◌, ◌||◌}
use mathlib.Core.List.{List, [], ◌∷◌}
use native.Mathlib.Omega.{arith}
use text.Mathlib.Text.{is_lt}
use package.gpu_infra.Prelude.Tests.{ltb, eqb, text_lt, if◌then◌else◌, Bool-cases}
use package.gpu_infra.Prelude.Lists.{All, In, here, there}

then-lt :
    (o r : Ordering)
    → is_lt (and_then o r) ≡ (
        (elim o [ Ordering.lt ↦ true | _ ↦ false ])
        || ((elim o [ Ordering.eq ↦ true | _ ↦ false ]) && is_lt r))
then-lt Ordering.lt r = refl
then-lt Ordering.eq r = refl
then-lt Ordering.gt r = refl

pub text_lt-nil : (d : Char) (t : String) → text_lt "" (String.◌∷◌ d t) ≡ true
text_lt-nil d t = ap is_lt (compare.nil-cons d t)

pub text_lt-cons-nil : (c : Char) (s : String) → text_lt (String.◌∷◌ c s) "" ≡ false
text_lt-cons-nil c s = ap is_lt (compare.cons-nil c s)

pub text_lt-cons :
    (c d : Char) (s t : String)
    → text_lt (String.◌∷◌ c s) (String.◌∷◌ d t)
      ≡ (ltb (code c) (code d) || (eqb (code c) (code d) && text_lt s t))
text_lt-cons c d s t =
    ap is_lt (compare.cons-cons c d s t) ∙ then-lt (compare_ℕ (code c) (code d)) (compare_text s t)

pub text_lt_irrefl : (s : String) → text_lt s s ≡ false
text_lt_irrefl String.[] = refl
text_lt_irrefl (String.◌∷◌ c s) =
    let rest = text_lt_irrefl s in ground (arith, text_lt-cons c c s s)

text_lt-below : (t : String) → text_lt t "" ≡ false
text_lt-below String.[] = refl
text_lt-below (String.◌∷◌ d t) = text_lt-cons-nil d t

pub text_lt_trans : (s t u : String) → text_lt s t ≡ true → text_lt t u ≡ true → text_lt s u ≡ true
text_lt_trans s t String.[] h k = ground (arith, text_lt-below t)
text_lt_trans String.[] t (String.◌∷◌ e u) h k = text_lt-nil e u
text_lt_trans (String.◌∷◌ c s) String.[] (String.◌∷◌ e u) h k = ground (arith, text_lt-cons-nil c s)
text_lt_trans (String.◌∷◌ c s) (String.◌∷◌ d t) (String.◌∷◌ e u) h k =
    let rest = text_lt_trans s t u in
    ground (arith, text_lt-cons c d s t, text_lt-cons d e t u, text_lt-cons c e s u, rest)

module _ {ℓ} {A : Type ℓ} (lt : A → A → Bool) where
  -- Python's `min` of a list that starts with `x`: the first of the least elements
  unfoldable pub first_min : A → List A → A
  first_min x [] = x
  first_min x (y ∷ ys) = first_min (if lt y x then y else x) ys

  -- A strict order.
  pub record IsOrder : Type ℓ where
    pub irrefl : (x : A) → lt x x ≡ false
    pub trans : (x y z : A) → lt x y ≡ true → lt y z ≡ true → lt x z ≡ true

  pub In-first_min : (x : A) (ys : List A) → In (first_min x ys) (x ∷ ys)
  unfolding first_min
  In-first_min x [] = here
  In-first_min x (y ∷ ys) = elim (Bool-cases (lt y x)) [
    | inl e ↦ rw e (there (In-first_min y ys))
    | inr e ↦ rw e (skip (In-first_min x ys))
  ]
    where
      skip : {z : A} → In z (x ∷ ys) → In z (x ∷ y ∷ ys)
      skip here = here
      skip (there m) = there (there m)

  -- `m` is `x` or is below it.
  abbrev pub UpTo : A → A → Type ℓ
  UpTo m x = (m ≡ x) ⊎ (lt m x ≡ true)

  abbrev pub Least : A → List A → A → Type ℓ
  Least x ys m = UpTo m x × All (λ y. lt y m ≡ false) ys

  UpTo-lt : IsOrder → {m y x : A} → UpTo m y → lt y x ≡ true → lt m x ≡ true
  UpTo-lt order {x} (inl e) h = subst (λ z. lt z x ≡ true) (sym e) h
  UpTo-lt order (inr q) h = order.trans _ _ _ q h

  UpTo-below : IsOrder → {m x : A} → UpTo m x → (y : A) → lt y x ≡ false → lt y m ≡ false
  UpTo-below order (inl e) y h = subst (λ z. lt y z ≡ false) (sym e) h
  UpTo-below order {m} {x} (inr q) y h = elim (Bool-cases (lt y m)) [
    | inl e ↦ let contra = order.trans y m x e q in cc
    | inr e ↦ e
  ]

  -- No element of the list is below the least one, which is the head or is below it.
  pub first_min-Least : IsOrder → (x : A) (ys : List A) → Least x ys (first_min x ys)
  unfolding first_min
  first_min-Least order x [] = (inl refl, tt)
  first_min-Least order x (y ∷ ys) = elim (Bool-cases (lt y x)) [
    | inl e ↦
        let (top, least) = first_min-Least order y ys in
        let same : first_min y ys ≡ first_min x (y ∷ ys) = rw e refl in
        subst (Least x (y ∷ ys)) same
          (inr (UpTo-lt order top e), (UpTo-below order top y (order.irrefl y), least))
    | inr e ↦
        let (top, least) = first_min-Least order x ys in
        let same : first_min x ys ≡ first_min x (y ∷ ys) = rw e refl in
        subst (Least x (y ∷ ys)) same (top, (UpTo-below order top y e, least))
  ]

  pub first_min-All :
      IsOrder → (x : A) (ys : List A) → All (λ y. lt y (first_min x ys) ≡ false) (x ∷ ys)
  first_min-All order x ys =
      let (top, least) = first_min-Least order x ys in
      (UpTo-below order top x (order.irrefl x), least)
