-- ===== src/Wal/Frames.antt =====
-- The records of a log file of tsdb/file_wal.go, and the three loops that read them.
use qv_lite.Prelude.{
  ℕ, zero, suc, ◌+◌, ◌%◌, ◌^◌, Bool, true, false, Option, none, some, List, [], ◌∷◌, ◌++◌, length,
  ◌||◌, take, drop, ltb, leb, ◌==◌, if◌then◌else◌,
}
use qv_lite.Wire.BigEndian.{put_be, get_be}

-- github.com/mababaNiubi/variant as far as the log uses it: `AppendBinary` to an empty slice,
-- `IsBinaryFormat`, `UnmarshalBinary` and `UnmarshalJSON` (`none` is an error), `IsEqual`, whether
-- the type is a string, a list or a map, and the zero value `Variant{}`.
pub record Values (V : Type 0) : Type 0 where
  pub append_binary : V → List ℕ
  pub is_binary_format : List ℕ → Bool
  pub unmarshal_binary : List ℕ → Option V
  pub unmarshal_json : List ℕ → Option V
  pub is_equal : V → V → Bool
  pub is_reference : V → Bool
  pub zero_value : V

pub record Entry (V : Type 0) : Type 0 where
  pub key : ℕ
  pub timestamp : ℕ
  pub value : V

-- How the loop over a file ends: at its end, inside a record, at a length of at most 12, or at a value
-- that cannot be decoded.
pub data Ending : Type 0 where
  at_end short corrupt_length bad_value : Ending

module _ {V : Type 0} (values : Values V) where
  open values use {append_binary, is_binary_format, unmarshal_binary, unmarshal_json}

  unfoldable pub append_serialized : Entry V → List ℕ
  append_serialized e =
      let payload = append_binary e.value in
      put_be 4 ((12 + length payload) % 2 ^ 32)
      ++ (put_be 4 e.key ++ (put_be 8 e.timestamp ++ payload))

  abbrev pub unmarshal_wal_value : List ℕ → Option V
  unmarshal_wal_value payload =
      if is_binary_format payload then unmarshal_binary payload else unmarshal_json payload

  -- A record without its length.
  abbrev pub entry_of : List ℕ → V → Entry V
  entry_of body value = record {
    key = get_be (take 4 body);
    timestamp = get_be (take 8 (drop 4 body));
    value = value;
  }

  -- What `getAllData` gives: the entries, the offset, and whether its error is nil.
  pub record Loaded : Type 0 where
    pub entries : List (Entry V)
    pub offset : ℕ
    pub ending : Ending

  abbrev pub with_entry : Entry V → Loaded → Loaded
  with_entry e l = record l { entries = e ∷ l.entries }

  abbrev pub stop : ℕ → Ending → Loaded
  stop offset ending = record { entries = []; offset = offset; ending = ending }

  -- Every round reads four bytes at least, so that the length of the file is fuel enough.
  unfoldable pub load_from : ℕ → List ℕ → ℕ → Loaded
  load_from zero b offset = stop offset at_end
  load_from (suc fuel) b offset =
      let n = get_be (take 4 b) in
      let body = take n (drop 4 b) in
      let later = load_from fuel (drop n (drop 4 b)) (offset + n + 4) in
      let decoded : Loaded = elim (unmarshal_wal_value (drop 12 body)) [
        | none ↦ stop (offset + n + 4) bad_value
        | some value ↦ with_entry (entry_of body value) later
      ] in
      if length b == 0
      then stop offset at_end
      else if ltb (length b) 4
      then stop offset short
      else if leb n 12
      then stop offset corrupt_length
      else if ltb (length (drop 4 b)) n
      then stop offset short
      else decoded

  unfoldable pub get_all_data : List ℕ → Loaded
  unfolding load_from
  get_all_data file = load_from (suc (length file)) file 0

  -- The error of `getAllData` is nil only at a corrupt length: the end of the file is an error too.
  abbrev pub is_error : Ending → Bool
  is_error at_end = true
  is_error short = true
  is_error corrupt_length = false
  is_error bad_value = true

  -- `NewWalFile` on one file: what is left of it on the disk, and the loaded entries.
  unfoldable pub open_wal_file : List ℕ → List ℕ × Loaded
  unfolding get_all_data
  open_wal_file file =
      let loaded = get_all_data file in
      (if is_error loaded.ending then take loaded.offset file else file, loaded)

  -- `forEachWalFile` with a callback that takes every record: the records with the offsets behind
  -- them, and whether the loop ends without an error.
  abbrev pub with_record : Entry V × ℕ → List (Entry V × ℕ) × Bool → List (Entry V × ℕ) × Bool
  with_record e (es, fine) = (e ∷ es, fine)

  unfoldable pub each_from : ℕ → List ℕ → ℕ → List (Entry V × ℕ) × Bool
  each_from zero b offset = ([], true)
  each_from (suc fuel) b offset =
      let n = get_be (take 4 b) in
      let body = take n (drop 4 b) in
      let later = each_from fuel (drop n (drop 4 b)) (offset + 4 + n) in
      let decoded : List (Entry V × ℕ) × Bool = elim (unmarshal_wal_value (drop 12 body)) [
        | none ↦ ([], false)
        | some value ↦ with_record (entry_of body value, offset + 4 + n) later
      ] in
      if length b == 0
      then ([], true)
      else if ltb (length b) 4 || leb n 12 || ltb (length (drop 4 b)) n
      then ([], false)
      else decoded

  unfoldable pub for_each_wal_file : List ℕ → List (Entry V × ℕ) × Bool
  unfolding each_from
  for_each_wal_file file = each_from (suc (length file)) file 0
