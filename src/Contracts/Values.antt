-- ===== src/Contracts/Values.antt =====
-- Checks of single JSON values, src/kernel_infra/contracts.py lines 15 to 76. The argument `where`
-- of the source only places the message and is left out.
use Prim.Native.Char.{Char, code}
use gpu_infra.Prelude.{
  ℕ, pos, String, Bool, false, not, ◌&&◌, ◌||◌, Option, none, some, List, [], ◌∷◌, Dict, get, keys,
  leb, ltb, eqb, is_some, if◌then◌else◌, mem, all, length, Result, ok, err, ◌>>=◌, ◌>>◌, guard,
  ◌==◌,
}
use gpu_infra.Json.{Json, null, num, str, arr, obj, int, Floats, to_float, items, fields}
use gpu_infra.Fault.{Fault, contract_error, overflow_error}

-- The code points of a text.
abbrev pub codes : String → List ℕ
codes String.[] = []
codes (String.◌∷◌ c s) = code c ∷ codes s

-- `str.isspace`
is_space : ℕ → Bool
is_space c =
    (leb 9 c && leb c 13)
    || (leb 28 c && leb c 32)
    || eqb c 133
    || eqb c 160
    || eqb c 5760
    || (leb 8192 c && leb c 8202)
    || eqb c 8232
    || eqb c 8233
    || eqb c 8239
    || eqb c 8287
    || eqb c 12288

strip_left : String → String
unfolding is_space
strip_left String.[] = ""
strip_left (String.◌∷◌ c s) =
    let rest = strip_left s in if is_space (code c) then rest else String.◌∷◌ c s

abbrev keep_right : Char → String → String
keep_right c String.[] = if is_space (code c) then "" else String.◌∷◌ c ""
keep_right c (String.◌∷◌ d s) = String.◌∷◌ c (String.◌∷◌ d s)

strip_right : String → String
unfolding is_space
strip_right String.[] = ""
strip_right (String.◌∷◌ c s) = keep_right c (strip_right s)

-- `str.strip()`
unfoldable pub strip : String → String
unfolding strip_left strip_right
strip s = strip_right (strip_left s)

abbrev pub id_start : ℕ → Bool
id_start c = (leb 97 c && leb c 122) || (leb 48 c && leb c 57)

abbrev pub id_char : ℕ → Bool
id_char c = id_start c || eqb c 46 || eqb c 95 || eqb c 45

-- `_ID.fullmatch`, the pattern `^[a-z0-9][a-z0-9._-]{0,95}$`
unfoldable pub is_identifier : List ℕ → Bool
is_identifier [] = false
is_identifier (c ∷ cs) = id_start c && leb (length cs) 95 && all id_char cs

module _ {F : Type 0} where
  unfoldable pub expect_object : Json F → Result Fault (Dict (Json F))
  expect_object (obj fs) = ok (fields fs)
  expect_object _ = err (contract_error "must be an object")

  unfoldable pub expect_list : Json F → String → Result Fault (List (Json F))
  expect_list (arr vs) message = ok (items vs)
  expect_list _ message = err (contract_error message)

  -- `required - value.keys()`, and `value.keys() - required - optional`
  unfoldable pub strict_keys : Dict (Json F) → List String → List String → Result Fault (Unit {0})
  strict_keys value required optional = do
    guard (all (λ k. is_some (get value k)) required) (contract_error "missing fields")
    guard (all (λ k. mem k required || mem k optional) (keys value))
        (contract_error "unknown fields")

  -- value[k] after `_strict_keys` has found the key
  unfoldable pub item : Dict (Json F) → String → Json F
  item value k = elim (get value k) [ none ↦ null | some v ↦ v ]

  unfoldable pub text : Json F → Result Fault String
  text (str s) =
      if strip s == "" then err (contract_error "must be a non-empty string") else ok (strip s)
  text _ = err (contract_error "must be a non-empty string")

  unfoldable pub identifier : Json F → Result Fault String
  identifier value = do
    result ← text value
    guard (is_identifier (codes result)) (contract_error "must match the identifier pattern")
    ok result

  abbrev pub float_or_overflow : ⦃fl : Floats F⦄ → Option F → Result Fault F
  float_or_overflow none = err overflow_error
  float_or_overflow (some x) = ok x

  -- `not (not math.isfinite(x) or x <= 0)`
  abbrev pub positive_finite : ⦃fl : Floats F⦄ → F → Bool
  positive_finite ⦃fl⦄ x = fl.is_finite x && not (fl.le x (fl.lit 0))

  unfoldable pub positive_number : ⦃fl : Floats F⦄ → Json F → Result Fault F
  positive_number ⦃fl⦄ (num n) = do
    result ← float_or_overflow (to_float n)
    guard (positive_finite result) (contract_error "must be a finite positive number")
    ok result
  positive_number _ = err (contract_error "must be a positive number")

  unfoldable pub positive_int : Json F → Result Fault ℕ
  positive_int (num (int (pos n))) =
      if ltb n 1 then err (contract_error "must be a positive integer") else ok n
  positive_int _ = err (contract_error "must be a positive integer")

  -- `_optional_timeout`; a key that is missing reads as None
  unfoldable pub optional_timeout : ⦃fl : Floats F⦄ → Json F → Result Fault (Option F)
  optional_timeout null = ok none
  optional_timeout value = do result ← positive_number value; ok (some result)
