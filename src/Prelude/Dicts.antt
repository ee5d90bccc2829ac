-- ===== src/Prelude/Dicts.antt =====
-- Python's `dict` with string keys, as an association list in insertion order.
use Prim.Native.String.{String}
use mathlib.Core.Path.{◌≡◌, refl, subst}
use mathlib.Core.List.{List, [], ◌∷◌, map}
use mathlib.Core.Option.{Option, none, some}
use native.Mathlib.Omega.{arith}
use text.Mathlib.Text.{◌==◌}
use text.Mathlib.TextEquality.{eq_iff}
use mathlib.Core.Bool.{false}
use mathlib.Core.Logic.{◌⊎◌, inl, inr}
use text.Mathlib.TextPositions.{eq_refl}
use package.gpu_infra.Prelude.Tests.{if◌then◌else◌, Bool-cases}
use package.gpu_infra.Prelude.Lists.{All, In, In-cons, here, there, Distinct}

abbrev pub Dict {ℓ} : Type ℓ → Type ℓ
Dict V = List (String × V)

module _ {ℓ} {V : Type ℓ} where
  -- d.get(k)
  unfoldable pub get : Dict V → String → Option V
  get [] k = none
  get ((j, v) ∷ d) k = if j == k then some v else get d k

  -- d[k] = v: a key that is there keeps its place
  unfoldable pub put : Dict V → String → V → Dict V
  put [] k v = (k, v) ∷ []
  put ((j, w) ∷ d) k v = if j == k then (j, v) ∷ d else (j, w) ∷ put d k v

  abbrev pub keys : Dict V → List String
  keys d = map (λ e. e.0) d

  pub get-put :
      (d : Dict V) (k j : String) (v : V) → get (put d k v) j ≡ (if k == j then some v else get d j)
  unfolding get put
  get-put [] k j v = refl
  get-put ((i, w) ∷ d) k j v = ground (arith, eq_iff k j, eq_iff i k, eq_iff i j, get-put d k j v)

  pub get-put_self : (d : Dict V) (k : String) (v : V) → get (put d k v) k ≡ some v
  get-put_self d k v = simp (get-put, eq_refl)

  pub All-put {κ} :
      (P : String × V → Type κ) (d : Dict V) (k : String) (v : V)
      → P (k, v)
      → All P d
      → All P (put d k v)
  unfolding put
  All-put P [] k v h hs = (h, tt)
  All-put P ((j, w) ∷ d) k v h hs = elim (Bool-cases (j == k)) [
    | inl e ↦ rw e (rw ((eq_iff j k).0 e) h, hs.1)
    | inr e ↦ rw e (hs.0, All-put P d k v h hs.1)
  ]

  pub In-get : (d : Dict V) (k : String) (v : V) → get d k ≡ some v → In (k, v) d
  unfolding get
  In-get [] k v h = cc
  In-get ((j, w) ∷ d) k v h = elim (Bool-cases (j == k)) [
    | inl e ↦
        let same : (j, w) ≡ (k, v) = ground (arith, (eq_iff j k).0 e) in
        subst (λ p. In p ((j, w) ∷ d)) same here
    | inr e ↦ there (In-get d k v (ground arith))
  ]

  pub In-keys-put :
      (d : Dict V) (k : String) (v : V) {j : String}
      → In j (keys (put d k v))
      → (j ≡ k) ⊎ In j (keys d)
  unfolding put
  In-keys-put [] k v m = elim (In-cons m) [ inl e ↦ inl e | inr n ↦ elim n [ ] ]
  In-keys-put ((i, w) ∷ d) k v {j} m = elim (Bool-cases (i == k)) [
    | inl e ↦ inr (rw e at m)
    | inr e ↦ elim (In-cons (keys_kept e m)) [
      | inl q ↦ inr (rw q here)
      | inr n ↦ elim (In-keys-put d k v n) [ inl q ↦ inl q | inr n' ↦ inr (there n') ]
    ]
  ]
    where
      keys_kept :
          (i == k) ≡ false
          → In j (keys (if i == k then (i, v) ∷ d else (i, w) ∷ put d k v))
          → In j (i ∷ keys (put d k v))
      keys_kept e m = rw e at m

  pub Distinct-keys-put :
      (d : Dict V) (k : String) (v : V) → Distinct (keys d) → Distinct (keys (put d k v))
  unfolding put
  Distinct-keys-put [] k v h = (λ m. elim m [ ], tt)
  Distinct-keys-put ((i, w) ∷ d) k v h = elim (Bool-cases (i == k)) [
    | inl e ↦ rw e h
    | inr e ↦ rw e (
      λ m. elim (In-keys-put d k v m) [ inl q ↦ ground (arith, eq_iff i k) | inr n ↦ h.0 n ],
      Distinct-keys-put d k v h.1,
    )
  ]

  pub In-keys : {k : String} {v : V} {d : Dict V} → In (k, v) d → In k (keys d)
  In-keys here = here
  In-keys (there n) = there (In-keys n)

  pub get_of_In :
      (d : Dict V) (k : String) (v : V) → Distinct (keys d) → In (k, v) d → get d k ≡ some v
  unfolding get
  get_of_In [] k v h m = elim m [ ]
  get_of_In ((j, w) ∷ d) k v h m = elim (In-cons m) [
    | inl e ↦ ground (arith, eq_refl k)
    | inr n ↦ elim (Bool-cases (j == k)) [
      | inl e ↦ absurd (h.0 (rw ((eq_iff j k).0 e) (In-keys n)))
      | inr e ↦ rw e (get_of_In d k v h.1 n)
    ]
  ]
