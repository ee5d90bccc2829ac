-- ===== src/Prelude/Results.antt =====
-- Code that returns or raises.
use mathlib.Core.Path.{◌≡◌, refl, subst}
use native.Mathlib.Omega.{arith}
use package.gpu_infra.Prelude.Tests.{if◌then◌else◌}
use package.gpu_infra.Prelude.Lists.{All, is_empty}
use mathlib.Core.Bool.{Bool, true, false}
use mathlib.Core.Logic.{◌⊎◌, inl, inr}
use mathlib.Core.List.{List, [], ◌∷◌}

pub data Result {ℓ κ} (E : Type ℓ) (A : Type κ) : Type (ℓ ⊔ κ) where
  ok : A → Result E A
  err : E → Result E A

infixl 5 ◌>>=◌ ◌>>◌
abbrev pub ◌>>=◌ {ℓ κ μ} :
    {E : Type ℓ} {A : Type κ} {B : Type μ} → Result E A → (A → Result E B) → Result E B
err e >>= next = err e
ok a >>= next = next a

abbrev pub ◌>>◌ {ℓ κ} : {E : Type ℓ} {B : Type κ} → Result E (Unit {0}) → Result E B → Result E B
m >> k = m >>= λ _. k

-- `if not test: raise e`
abbrev pub guard {ℓ} : {E : Type ℓ} → Bool → E → Result E (Unit {0})
guard true e = ok tt
guard false e = err e

-- A generator expression whose body may raise: the first failure is the result.
unfoldable pub each {ℓ κ μ} :
    {E : Type ℓ} {A : Type κ} {B : Type μ} → (A → Result E B) → List A → Result E (List B)
each f [] = ok []
each f (x ∷ xs) = do y ← f x; ys ← each f xs; ok (y ∷ ys)

-- What a successful chain did.
pub >>=-eq-ok {ℓ κ μ} :
    {E : Type ℓ} {A : Type κ} {B : Type μ} (first : Result E A) (next : A → Result E B) {result : B}
    → (first >>= next) ≡ ok result
    → (found : A) × (first ≡ ok found) × (next found ≡ ok result)
>>=-eq-ok (err e) next done = cc
>>=-eq-ok (ok found) next done = (found, refl, done)

pub guard-eq-ok {ℓ} : {E : Type ℓ} (b : Bool) (e : E) {u : Unit {0}} → guard b e ≡ ok u → b ≡ true
guard-eq-ok true e h = refl
guard-eq-ok false e h = cc

module _ {ℓ κ μ} {E : Type ℓ} {A : Type κ} {B : Type μ} (f : A → Result E B) where
  pub is_empty-each : (xs : List A) (ys : List B) → each f xs ≡ ok ys → is_empty ys ≡ is_empty xs
  unfolding each
  is_empty-each [] ys h = ground arith
  is_empty-each (x ∷ xs) ys h = ground arith

  -- What every success of the body has, every element of the result has.
  pub All-each {ν} :
      (P : B → Type ν)
      → ((x : A) (y : B) → f x ≡ ok y → P y)
      → (xs : List A) (ys : List B) → each f xs ≡ ok ys
      → All P ys
  unfolding each
  All-each P step [] ys h = let e : [] ≡ ys = ground arith in subst (All P) e tt
  All-each P step (x ∷ xs) ys h =
      let (y, first, rest) = >>=-eq-ok (f x) _ h in
      let (zs, later, done) = >>=-eq-ok (each f xs) _ rest in
      let e : y ∷ zs ≡ ys = ground arith in
      subst (All P) e (step x y first, All-each P step xs zs later)

pub ok-injective {ℓ κ} :
    {E : Type ℓ} {A : Type κ} {a b : A} → ◌≡◌ {A = Result E A} (ok a) (ok b) → a ≡ b
ok-injective h = cc

pub guard-bind-eq-ok {ℓ κ} :
    {E : Type ℓ} {B : Type κ} (t : Bool) (e : E) (m : Result E B) {b : B}
    → (guard t e >> m) ≡ ok b
    → (t ≡ true) × (m ≡ ok b)
guard-bind-eq-ok true e m h = (refl, h)
guard-bind-eq-ok false e m h = cc

-- The code returns.
abbrev pub Returns {ℓ κ} : {E : Type ℓ} {A : Type κ} → Result E A → Type (ℓ ⊔ κ)
Returns {A} r = (a : A) × (r ≡ ok a)

pub Returns-bind {ℓ} :
    {E A B : Type ℓ} (m : Result E A) (f : A → Result E B)
    → Returns m
    → ((a : A) → m ≡ ok a → Returns (f a))
    → Returns (m >>= f)
Returns-bind m f (a, e) k = let (b, q) = k a e in (b, rw e q)

pub Returns-if {ℓ κ} :
    {E : Type ℓ} {A : Type κ} (b : Bool) (m n : Result E A)
    → (b ≡ true → Returns m)
    → (b ≡ false → Returns n)
    → Returns (if b then m else n)
Returns-if true m n hm hn = hm refl
Returns-if false m n hm hn = hn refl

pub if-eq-ok {ℓ κ} :
    {E : Type ℓ} {A : Type κ} (b : Bool) (m n : Result E A) {a : A}
    → (if b then m else n) ≡ ok a
    → ((b ≡ true) × (m ≡ ok a)) ⊎ ((b ≡ false) × (n ≡ ok a))
if-eq-ok true m n h = inl (refl, h)
if-eq-ok false m n h = inr (refl, h)

pub Result-cases {ℓ κ} :
    {E : Type ℓ} {A : Type κ} (r : Result E A) → ((a : A) × (r ≡ ok a)) ⊎ ((e : E) × (r ≡ err e))
Result-cases (ok a) = inl (a, refl)
Result-cases (err e) = inr (e, refl)
