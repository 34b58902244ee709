-- ===== src/Wal/States.antt =====
-- The last accepted point of each tag in tsdb/file_wal.go: loadTagState and storeTagState.
pub mod Map
use qv_lite.Prelude.{
  ℕ, zero, suc, ◌+◌, ◌-◌, ◌*◌, Bool, true, false, Option, none, some, List, [], ◌∷◌, ◌++◌, length,
  get_or, replicate, ltb, leb, ◌==◌, if◌then◌else◌,
}
use qv_lite.Wal.Buffer.{modify, min2}

abbrev pub max_dense_wal_tag_code : ℕ
max_dense_wal_tag_code = 1048576

-- A timestamp and a value; `none` is a state that is not known.
abbrev pub TagState : Type 0 → Type 0
TagState V = Option (ℕ × V)

-- `tagMaxTimestamp` and `tagLastValue` have the same keys, and are one map here.
pub record TagStates (V : Type 0) : Type 0 where
  pub dense : List (TagState V)
  pub others : ℕ → TagState V
  pub tag_state_count : ℕ

-- The doubling of the length; every round makes it longer, so that the index is fuel enough.
abbrev pub double_past : ℕ → ℕ → ℕ → ℕ
double_past zero index n = n
double_past (suc fuel) index n =
    let later = double_past fuel index (n * 2) in if ltb index n then n else later

abbrev pub new_length : ℕ → ℕ → ℕ
new_length index n =
    let start : ℕ = if ltb (n * 2) 64 then 64 else n * 2 in
    min2 (double_past (suc index) index start) (max_dense_wal_tag_code + 1)

module _ {V : Type 0} where
  abbrev pub no_states : TagStates V
  no_states = record { dense = []; others = λ _. none; tag_state_count = 0 }

  abbrev pub is_known : TagState V → Bool
  is_known none = false
  is_known (some _) = true

  -- The state in the slice, which holds the tags up to the bound.
  abbrev pub slot : ℕ → List (TagState V) → TagState V
  slot key dense = if leb key max_dense_wal_tag_code then get_or dense key none else none

  abbrev pub first_known : TagState V → TagState V → TagState V
  first_known none b = b
  first_known (some a) b = some a

  unfoldable pub load_tag_state : ℕ → TagStates V → TagState V
  load_tag_state key s = first_known (slot key s.dense) (s.others key)

  abbrev pub grow : ℕ → List (TagState V) → List (TagState V)
  grow index dense =
      if ltb index (length dense)
      then dense
      else dense ++ replicate (new_length index (length dense) - length dense) none

  unfoldable pub store_tag_state : ℕ → ℕ × V → TagStates V → TagStates V
  store_tag_state key state s =
      if leb key max_dense_wal_tag_code
      then record s {
        dense = modify key (λ _. some state) (grow key s.dense);
        tag_state_count =
            if is_known (get_or s.dense key none) then s.tag_state_count else s.tag_state_count + 1;
      }
      else record s {
        others = λ k. if k == key then some state else s.others k;
        tag_state_count =
            if is_known (s.others key) then s.tag_state_count else s.tag_state_count + 1;
      }
