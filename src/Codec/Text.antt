-- ===== src/Codec/Text.antt =====
-- StringEncoder and StringDecoder of tsdb/segment_compression_strings.go. A string is its bytes.
pub mod Size
mod Writes
pub mod RoundTrip
use qv_lite.Prelude.{ℕ, zero, suc, ◌+◌, ◌-◌, ◌*◌, ◌/◌, ◌%◌, ◌^◌, Bool, true, false, not, ◌&&◌, ◌||◌}
use qv_lite.Prelude.{Option, none, some, List, [], ◌∷◌, ◌++◌, length, get_or, take, drop}
use qv_lite.Prelude.{same, ltb, leb, ◌==◌, if◌then◌else◌}
use qv_lite.Wire.Uvarint.{put_uvarint, get_uvarint}

abbrev pub string_compressed_snappy : ℕ
string_compressed_snappy = 5

abbrev pub string_compressed_dict : ℕ
string_compressed_dict = 11

abbrev pub max_dict_entries : ℕ
max_dict_entries = 4096

-- A Go map as an association list.
abbrev pub lookup : List (List ℕ × ℕ) → List ℕ → Option ℕ
lookup [] s = none
lookup ((k, n) ∷ rest) s = if same k s then some n else lookup rest s

pub record Encoder : Type 0 where
  pub bytes : List ℕ
  pub dict : List (List ℕ × ℕ)
  pub order : List (List ℕ)
  pub idx : List ℕ
  pub dict_full : Bool

abbrev pub new_encoder : Encoder
new_encoder = record { bytes = []; dict = []; order = []; idx = []; dict_full = false }

abbrev pub reset : Encoder → Encoder
reset e = record { bytes = []; dict = []; order = []; idx = []; dict_full = false }

-- One string behind its length.
abbrev pub prefixed : List ℕ → List ℕ
prefixed s = put_uvarint (length s) ++ s

unfoldable pub note : List ℕ → Encoder → Encoder
note s e = elim (lookup e.dict s) [
  | some n ↦ record e { idx = e.idx ++ (n ∷ []) }
  | none ↦
      if ltb (length e.order) max_dict_entries
      then record e {
        dict = (s, length e.order) ∷ e.dict;
        order = e.order ++ (s ∷ []);
        idx = e.idx ++ (length e.order ∷ []);
      }
      else record e { dict_full = true }
]

unfoldable pub write_string : List ℕ → Encoder → Encoder
unfolding note
write_string s e =
    let e' = record e { bytes = e.bytes ++ prefixed s } in if e.dict_full then e' else note s e'

unfoldable pub write_all : List (List ℕ) → Encoder → Encoder
unfolding write_string
write_all [] e = e
write_all (s ∷ ss) e = write_all ss (write_string s e)

-- A uint64 is shifted at most nine times.
unfoldable pub uvarint_len_from : ℕ → ℕ → ℕ
uvarint_len_from zero v = 1
uvarint_len_from (suc k) v =
    let rest = uvarint_len_from k (v / 128) in if ltb v 128 then 1 else suc rest

unfoldable pub uvarint_len : ℕ → ℕ
unfolding uvarint_len_from
uvarint_len v = uvarint_len_from 9 v

abbrev pub entries_len : List (List ℕ) → ℕ
entries_len [] = 0
entries_len (s ∷ ss) = uvarint_len (length s) + length s + entries_len ss

abbrev pub indices_len : List ℕ → ℕ
indices_len [] = 0
indices_len (n ∷ ns) = uvarint_len n + indices_len ns

unfoldable pub dict_encoded_len : Encoder → ℕ
dict_encoded_len e = 1 + uvarint_len (length e.order) + entries_len e.order + indices_len e.idx

abbrev pub entries : List (List ℕ) → List ℕ
entries [] = []
entries (s ∷ ss) = prefixed s ++ entries ss

abbrev pub indices : List ℕ → List ℕ
indices [] = []
indices (n ∷ ns) = put_uvarint n ++ indices ns

unfoldable pub encode_dict : Encoder → List ℕ
encode_dict e =
    string_compressed_dict ∷ (put_uvarint (length e.order) ++ (entries e.order ++ indices e.idx))

-- github.com/golang/snappy; `none` stands for the error of `Decode`. `Encode` panics on a source that is
-- longer than `max_length`.
pub record Snappy : Type 0 where
  pub max_length : ℕ
  pub encode : List ℕ → List ℕ
  pub decode : List ℕ → Option (List ℕ)

unfoldable pub smaller_form : Snappy → Encoder → List ℕ
unfolding dict_encoded_len encode_dict
smaller_form snappy e =
    let snappy_data = snappy.encode e.bytes in
    if not e.dict_full && ltb (dict_encoded_len e) (length snappy_data + 1)
    then encode_dict e
    else string_compressed_snappy ∷ snappy_data

-- `none` is a panic of snappy, which compresses the raw stream before the forms are compared.
unfoldable pub bytes : Snappy → Encoder → Option (List ℕ)
unfolding smaller_form
bytes snappy e =
    let smaller = smaller_form snappy e in
    if ltb snappy.max_length (length e.bytes) then none else some smaller

pub data Error : Type 0 where
  bad_snappy bad_count truncated_entry bad_index unknown_encoding : Error

-- What a call gives that may panic: a slice out of range, or a `make` that does not fit.
pub data Call {ℓ} (A : Type ℓ) : Type ℓ where
  returns : A → Call A
  fails : Error → Call A
  panics : Call A

pub record Decoder : Type 0 where
  pub list : List (List ℕ)
  pub i : ℕ
  pub error : Option Error

abbrev pub cons_call : List ℕ → Call (List (List ℕ)) → Call (List (List ℕ))
cons_call s (returns ss) = returns (s ∷ ss)
cons_call s (fails e) = fails e
cons_call s panics = panics

-- `rest` are the bytes from position `pos` on. `pos + n + int(l)` is an int of 64 bits: from 2 ^ 63 on
-- it is negative, passes the test, and the slice is out of range. Each round reads a byte at least,
-- so that the fuel `length rest` is enough.
unfoldable pub parse_len_prefixed : ℕ → ℕ → List ℕ → Call (List (List ℕ))
parse_len_prefixed zero pos rest = returns []
parse_len_prefixed (suc fuel) pos rest =
    let parsed : Call (List (List ℕ)) = elim (get_uvarint rest) [
      | none ↦ returns []
      | some (l, n) ↦
          let later = parse_len_prefixed fuel (pos + n + l) (drop l (drop n rest)) in
          if leb (2 ^ 63) (pos + n + l)
          then panics
          else if ltb (length rest) (n + l)
          then returns []
          else cons_call (take l (drop n rest)) later
    ] in
    if length rest == 0 then returns [] else parsed

-- The entries of a dictionary, with the position after them and the bytes from there on.
abbrev pub cons_entry :
    List ℕ → Call (List (List ℕ) × ℕ × List ℕ) → Call (List (List ℕ) × ℕ × List ℕ)
cons_entry s (returns (ss, pos, rest)) = returns (s ∷ ss, pos, rest)
cons_entry s (fails e) = fails e
cons_entry s panics = panics

unfoldable pub read_entries : ℕ → ℕ → List ℕ → Call (List (List ℕ) × ℕ × List ℕ)
read_entries zero pos rest = returns ([], pos, rest)
read_entries (suc count) pos rest = elim (get_uvarint rest) [
  | none ↦ fails truncated_entry
  | some (l, n) ↦
      let later = read_entries count (pos + n + l) (drop l (drop n rest)) in
      if leb (2 ^ 63) (pos + n + l)
      then panics
      else if ltb (length rest) (n + l)
      then fails truncated_entry
      else cons_entry (take l (drop n rest)) later
]

unfoldable pub read_indices : ℕ → List (List ℕ) → List ℕ → Call (List (List ℕ))
read_indices zero dict rest = returns []
read_indices (suc fuel) dict rest =
    let resolved : Call (List (List ℕ)) = elim (get_uvarint rest) [
      | none ↦ fails bad_index
      | some (v, n) ↦
          let later = read_indices fuel dict (drop n rest) in
          if leb (length dict) v then fails bad_index else cons_call (get_or dict v []) later
    ] in
    if length rest == 0 then returns [] else resolved

abbrev pub resolve : Call (List (List ℕ) × ℕ × List ℕ) → Call (List (List ℕ))
resolve (returns (dict, pos, rest)) = read_indices (length rest) dict rest
resolve (fails e) = fails e
resolve panics = panics

-- `fits count` tells whether `make([]string, count)` succeeds.
unfoldable pub decode_dict : (ℕ → Bool) → List ℕ → Call (List (List ℕ))
unfolding read_entries read_indices
decode_dict fits b = elim (get_uvarint b) [
  | none ↦ fails bad_count
  | some (count, n) ↦ if fits count then resolve (read_entries count n (drop n b)) else panics
]

abbrev pub settle : Call (List (List ℕ)) → Call Decoder
settle (returns list) = returns (record { list = list; i = 0; error = none })
settle (fails e) = returns (record { list = []; i = 0; error = some e })
settle panics = panics

unfoldable pub set_bytes : Snappy → (ℕ → Bool) → List ℕ → Call Decoder
unfolding parse_len_prefixed decode_dict
set_bytes snappy fits [] = settle (returns [])
set_bytes snappy fits (kind ∷ rest) =
    if kind == string_compressed_snappy
    then (elim (snappy.decode rest) [
      | none ↦ settle (fails bad_snappy)
      | some data_bytes ↦ settle (parse_len_prefixed (length data_bytes) 0 data_bytes)
    ])
    else if kind == string_compressed_dict
    then settle (decode_dict fits rest)
    else settle (fails unknown_encoding)

unfoldable pub next : Decoder → Decoder × Bool
next d = elim d.error [
  | some _ ↦ (d, false)
  | none ↦ (record d { i = d.i + 1 }, leb (d.i + 1) (length d.list))
]

-- `none` is the empty variant.
unfoldable pub read : Decoder → Option (List ℕ)
read d = if d.i == 0 || ltb (length d.list) d.i then none else some (get_or d.list (d.i - 1) [])

abbrev pub cons_value :
    Option (List ℕ) → Option (List (Option (List ℕ))) → Option (List (Option (List ℕ)))
cons_value s none = none
cons_value s (some ss) = some (s ∷ ss)

-- The caller's loop `for d.Next() { d.Read() }`; `none` means that the fuel ran out.
unfoldable pub drain : ℕ → Decoder → Option (List (Option (List ℕ)))
unfolding next read
drain zero d = none
drain (suc fuel) d =
    let d' = (next d).0 in
    let rest = cons_value (read d') (drain fuel d') in if (next d).1 then rest else some []
