-- ===== src/Json.antt =====
-- Decoded JSON, as `json.loads` returns it, and what the code uses of Python's numbers.
-- A JSON object is its list of fields, whose keys differ; `true` is not a number here, as the
-- code's `isinstance(value, bool)` tests come before those on numbers. Binary floats are not part
-- of the source: their type `F` and operations are a parameter (`Floats`).
use gpu_infra.Prelude.{ℕ, ℤ, String, Bool, Option, some, List, [], ◌∷◌, Dict}

-- What the code uses of `float` and `math`.
pub record Floats (F : Type 0) : Type 0 where
  -- `float(n)`; `none` is its OverflowError
  pub of_int : ℤ → Option F
  pub is_finite : F → Bool
  -- a small literal
  pub lit : ℕ → F
  pub lt : F → F → Bool
  pub le : F → F → Bool
  pub add : F → F → F
  pub sub : F → F → F
  pub mul : F → F → F
  pub div : F → F → F

pub data Number (F : Type 0) : Type 0 where
  int : ℤ → Number F
  float : F → Number F

mutual
  pub data Json (F : Type 0) : Type 0 where
    null : Json F
    bool : Bool → Json F
    num : Number F → Json F
    str : String → Json F
    arr : Items F → Json F
    obj : Fields F → Json F

  pub data Items (F : Type 0) : Type 0 where
    nil : Items F
    cons : Json F → Items F → Items F

  pub data Fields (F : Type 0) : Type 0 where
    end : Fields F
    field : String → Json F → Fields F → Fields F

module _ {F : Type 0} where
  abbrev pub items : Items F → List (Json F)
  items nil = []
  items (cons v vs) = v ∷ items vs

  abbrev pub fields : Fields F → Dict (Json F)
  fields end = []
  fields (field k v fs) = (k, v) ∷ fields fs

  -- `float(value)` for a number
  abbrev pub to_float : ⦃fl : Floats F⦄ → Number F → Option F
  to_float ⦃fl⦄ (int n) = fl.of_int n
  to_float (float x) = some x
