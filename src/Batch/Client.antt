-- ===== src/Batch/Client.antt =====
-- The encoder of server/client/batch_binary.go. A string is its bytes.
use qv_lite.Prelude.{ℕ, ◌%◌, ◌^◌, Bool, true, false, ◌||◌, Option, none, some}
use qv_lite.Prelude.{List, [], ◌∷◌, ◌++◌, length, same, ltb, ◌==◌, if◌then◌else◌}
use qv_lite.Wire.BigEndian.{put_be}

abbrev pub byte_float : ℕ
byte_float = 1

abbrev pub byte_int : ℕ
byte_int = 2

abbrev pub byte_uint : ℕ
byte_uint = 3

abbrev pub byte_bool : ℕ
byte_bool = 4

abbrev pub byte_string : ℕ
byte_string = 5

abbrev pub byte_json : ℕ
byte_json = 6

abbrev pub max_batch_points : ℕ
max_batch_points = 2000000

-- The names "float", "int", "uint", "bool", "string", "json" and "empty".
abbrev pub float_name : List ℕ
float_name = 102 ∷ 108 ∷ 111 ∷ 97 ∷ 116 ∷ []

abbrev pub int_name : List ℕ
int_name = 105 ∷ 110 ∷ 116 ∷ []

abbrev pub uint_name : List ℕ
uint_name = 117 ∷ 105 ∷ 110 ∷ 116 ∷ []

abbrev pub bool_name : List ℕ
bool_name = 98 ∷ 111 ∷ 111 ∷ 108 ∷ []

abbrev pub string_name : List ℕ
string_name = 115 ∷ 116 ∷ 114 ∷ 105 ∷ 110 ∷ 103 ∷ []

abbrev pub json_name : List ℕ
json_name = 106 ∷ 115 ∷ 111 ∷ 110 ∷ []

abbrev pub empty_name : List ℕ
empty_name = 101 ∷ 109 ∷ 112 ∷ 116 ∷ 121 ∷ []

pub record Value : Type 0 where
  pub kind : List ℕ
  pub raw : List ℕ

pub record TagPoint : Type 0 where
  pub tag : List ℕ
  pub timestamp : ℕ
  pub value : Value

-- encoding/json and strconv as far as the encoder uses them: `unquote` is `json.Unmarshal` into a
-- string; `float_bits` is `strconv.ParseFloat` and then `math.Float64bits`.
pub record Scalars : Type 0 where
  pub unquote : List ℕ → Option (List ℕ)
  pub float_bits : List ℕ → Option ℕ
  pub parse_int : List ℕ → Option ℕ
  pub parse_uint : List ℕ → Option ℕ
  pub parse_bool : List ℕ → Option Bool

unfoldable pub binary_value_type : List ℕ → Option ℕ
binary_value_type t =
    if same t float_name
    then some byte_float
    else if same t int_name
    then some byte_int
    else if same t uint_name
    then some byte_uint
    else if same t bool_name
    then some byte_bool
    else if same t string_name
    then some byte_string
    else if same t json_name
    then some byte_json
    else none

abbrev pub is_quoted : List ℕ → Bool
is_quoted [] = false
is_quoted (c ∷ cs) = c == 34

abbrev pub bind {ℓ κ} : {A : Type ℓ} {B : Type κ} → Option A → (A → Option B) → Option B
bind none f = none
bind (some a) f = f a

abbrev pub map_payload : {A : Type 0} → (A → List ℕ) → Option A → Option (List ℕ)
map_payload f none = none
map_payload f (some a) = some (f a)

-- What the loop over the points gives.
abbrev pub append_all : Option (List ℕ) → Option (List ℕ) → Option (List ℕ)
append_all none rest = none
append_all (some xs) none = none
append_all (some xs) (some ys) = some (xs ++ ys)

module _ (scalars : Scalars) where
  open scalars use {unquote, float_bits, parse_int, parse_uint, parse_bool}

  -- A bare scalar, or the string inside a quoted one.
  unfoldable pub parse_string : List ℕ → Option (List ℕ)
  parse_string raw = if is_quoted raw then unquote raw else some raw

  unfoldable pub parse_float_bits : List ℕ → Option ℕ
  unfolding parse_string
  parse_float_bits raw = bind (parse_string raw) float_bits

  unfoldable pub parse_int_raw : List ℕ → Option ℕ
  unfolding parse_string
  parse_int_raw raw = bind (parse_string raw) parse_int

  unfoldable pub parse_uint_raw : List ℕ → Option ℕ
  unfolding parse_string
  parse_uint_raw raw = bind (parse_string raw) parse_uint

  unfoldable pub parse_bool_raw : List ℕ → Option Bool
  unfolding parse_string
  parse_bool_raw raw = bind (parse_string raw) parse_bool

  unfoldable pub append_value_payload : ℕ → Value → Option (List ℕ)
  append_value_payload typ v =
      if typ == byte_float
      then map_payload (put_be 8) (parse_float_bits v.raw)
      else if typ == byte_int
      then map_payload (put_be 8) (parse_int_raw v.raw)
      else if typ == byte_uint
      then map_payload (put_be 8) (parse_uint_raw v.raw)
      else if typ == byte_bool
      then map_payload (λ (b : Bool). (if b then 1 else 0) ∷ []) (parse_bool_raw v.raw)
      else if typ == byte_string
      then map_payload (λ (s : List ℕ). put_be 2 (length s % 2 ^ 16) ++ s) (parse_string v.raw)
      else if typ == byte_json
      then some (put_be 4 (length v.raw % 2 ^ 32) ++ v.raw)
      else none

  unfoldable pub append_point : ℕ → TagPoint → Option (List ℕ)
  unfolding append_value_payload
  append_point typ p =
      map_payload
        (λ (payload : List ℕ).
          put_be 2 (length p.tag % 2 ^ 16) ++ (p.tag ++ (put_be 8 p.timestamp ++ payload)))
        (append_value_payload typ p.value)

  unfoldable pub append_points : ℕ → List TagPoint → Option (List ℕ)
  unfolding append_point
  append_points typ [] = some []
  append_points typ (p ∷ ps) = append_all (append_point typ p) (append_points typ ps)

  pub data Encoded : Type 0 where
    too_large bad_value fallback panics : Encoded
    body : List ℕ → Encoded

  abbrev pub all_of_type : List ℕ → List TagPoint → Bool
  all_of_type vt [] = true
  all_of_type vt (p ∷ ps) = if same p.value.kind vt then all_of_type vt ps else false

  abbrev pub encode_points : List ℕ → ℕ → List TagPoint → Encoded
  encode_points table typ points = elim (append_points typ points) [
    | none ↦ bad_value
    | some bytes ↦ body (
        84
        ∷ 83
        ∷ 1
        ∷ typ
        ∷ (put_be 2 (length table % 2 ^ 16)
            ++ (table ++ (put_be 4 (length points % 2 ^ 32) ++ bytes))))
  ]

  -- `fallback` stands for `ok = false`. The first point of no points is an index out of range.
  unfoldable pub encode_batch_binary : List ℕ → List TagPoint → Encoded
  unfolding binary_value_type append_points
  encode_batch_binary table [] = panics
  encode_batch_binary table (p ∷ ps) =
      let vt = p.value.kind in
      let chosen : Encoded = elim (binary_value_type vt) [
        | none ↦ fallback
        | some typ ↦ if all_of_type vt (p ∷ ps) then encode_points table typ (p ∷ ps) else fallback
      ] in
      if ltb max_batch_points (length (p ∷ ps))
      then too_large
      else if length vt == 0 || same vt empty_name
      then fallback
      else chosen
