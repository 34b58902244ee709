-- ===== src/Codec/Int.antt =====
-- IntegerEncoder and IntegerDecoder of tsdb/segment_compression_int.go. An int64 is its pattern.
mod Deltas
mod Writes
mod Streams
mod Drains
pub mod RoundTrip
use qv_lite.Prelude.{ℕ, zero, suc, ◌+◌, ◌-◌, ◌^◌, Bool, true, false, ◌&&◌, Option, none, some}
use qv_lite.Prelude.{List, [], ◌∷◌, ◌++◌, ltb, leb, ◌==◌, if◌then◌else◌, length, get_or, take, drop}
use qv_lite.Prelude.{replicate}
use qv_lite.Wire.{add64, sub64, mul64}
use qv_lite.Wire.BigEndian.{put_be, get_be}
use qv_lite.Wire.Uvarint.{put_uvarint, get_uvarint}
use qv_lite.Codec.ZigZag.{zigzag_encode, zigzag_decode}
use qv_lite.Codec.Defs.{Error, Result, Simple8b, ok, err, bad_value, pack_failed, unpack_failed}
use qv_lite.Codec.Defs.{unknown_encoding, short_data, bad_uvarint}
use qv_lite.Codec.Defs.{int_uncompressed, int_compressed_simple, int_compressed_rle}

pub record Encoder : Type 0 where
  pub prev : ℕ
  pub rle : Bool
  pub values : List ℕ
  pub failed : Bool

abbrev pub new_encoder : Encoder
new_encoder = record { prev = 0; rle = true; values = []; failed = false }

abbrev pub reset : Encoder → Encoder
reset e = record { prev = 0; rle = true; values = []; failed = false }

-- The body of `Write` once `AsInt64` has given `v`.
unfoldable pub push : ℕ → Encoder → Encoder
push v e =
    let enc = zigzag_encode (sub64 v e.prev) in
    record e {
      prev = v;
      rle =
          if ltb 1 (length e.values)
          then e.rle && get_or e.values (length e.values - 1) 0 == enc
          else e.rle;
      values = e.values ++ (enc ∷ []);
    }

-- The big-endian words of a list, one after the other.
abbrev pub put_words : List ℕ → List ℕ
put_words [] = []
put_words (w ∷ ws) = put_be 8 w ++ put_words ws

unfoldable pub any_above : ℕ → List ℕ → Bool
any_above m [] = false
any_above m (v ∷ vs) = if ltb m v then true else any_above m vs

unfoldable pub encode_rle : List ℕ → List ℕ
encode_rle values =
    int_compressed_rle
    ∷ (put_be 8 (get_or values 0 0)
        ++ (put_uvarint (get_or values 1 0) ++ put_uvarint (length values - 1)))

unfoldable pub encode_uncompressed : List ℕ → List ℕ
encode_uncompressed [] = []
encode_uncompressed (v ∷ vs) = int_uncompressed ∷ put_words (v ∷ vs)

module _ (s : Simple8b) where
  open s use {max_value, encode_all}

  unfoldable pub encode_packed : List ℕ → Result (List ℕ)
  encode_packed [] = ok []
  encode_packed (v ∷ vs) = elim (encode_all vs) [
    | none ↦ err pack_failed
    | some ws ↦ ok (int_compressed_simple ∷ (put_be 8 v ++ put_words ws))
  ]

  unfoldable pub bytes : Encoder → Result (List ℕ)
  unfolding encode_packed encode_uncompressed encode_rle any_above
  bytes e =
      if e.failed
      then err bad_value
      else if e.rle && ltb 2 (length e.values)
      then ok (encode_rle e.values)
      else if any_above max_value e.values
      then ok (encode_uncompressed e.values)
      else encode_packed e.values

-- `as_int64` is `variant.Variant.AsInt64`; `none` stands for its error.
module _ {V : Type 0} (as_int64 : V → Option ℕ) where
  unfoldable pub write : V → Encoder → Encoder × Bool
  unfolding push
  write value e = elim (as_int64 value) [
    | none ↦ (record e { failed = true }, true)
    | some v ↦ (push v e, true)
  ]

  unfoldable pub write_all : List V → Encoder → Encoder
  unfolding write
  write_all [] e = e
  write_all (v ∷ vs) e = write_all vs (write v e).0

-- `rle_first` and `rle_delta` are read only under run-length encoding.
pub record Decoder : Type 0 where
  pub values : List ℕ
  pub bytes : List ℕ
  pub i : ℕ
  pub n : ℕ
  pub prev : ℕ
  pub first : Bool
  pub rle_first : ℕ
  pub rle_delta : ℕ
  pub encoding : ℕ
  pub error : Option Error

abbrev pub new_decoder : Decoder
new_decoder = record {
  values = replicate 240 0;
  bytes = [];
  i = 0;
  n = 0;
  prev = 0;
  first = false;
  rle_first = 0;
  rle_delta = 0;
  encoding = 0;
  error = none;
}

-- What `SetBytes` resets, whatever the decoder did before. `values` keeps its stale content.
abbrev pub rewind : ℕ → List ℕ → Decoder → Decoder
rewind encoding rest d = record d {
  encoding = encoding;
  bytes = rest;
  i = 0;
  n = 0;
  prev = 0;
  first = true;
  rle_first = 0;
  rle_delta = 0;
  error = none;
}

unfoldable pub set_bytes : List ℕ → Decoder → Decoder
set_bytes [] d = rewind 0 [] d
set_bytes (b ∷ bs) d = rewind b bs d

abbrev pub fail : Error → Decoder → Decoder
fail e d = record d { error = some e }

-- A copy of `xs` over the front of the array.
abbrev pub overlay : List ℕ → List ℕ → List ℕ
overlay xs old = xs ++ drop (length xs) old

unfoldable pub decode_uncompressed : Decoder → Decoder
decode_uncompressed d =
    if length d.bytes == 0
    then d
    else if ltb (length d.bytes) 8
    then fail short_data d
    else record d {
      values = overlay (get_be (take 8 d.bytes) ∷ []) d.values;
      i = 0;
      n = 1;
      bytes = drop 8 d.bytes;
    }

-- `int(count) + 1`; 0 stands for every bound that is not above 0, as all of them end the loop.
abbrev pub run_bound : ℕ → ℕ
run_bound count = if ltb count (2 ^ 63 - 1) then count + 1 else 0

unfoldable pub decode_rle : Decoder → Decoder
decode_rle d =
    if length d.bytes == 0
    then d
    else if ltb (length d.bytes) 8
    then fail short_data d
    else elim (get_uvarint (drop 8 d.bytes)) [
      | none ↦ fail bad_uvarint d
      | some (value, k) ↦ elim (get_uvarint (drop k (drop 8 d.bytes))) [
        | none ↦ fail bad_uvarint d
        | some (count, _) ↦ record d {
          rle_first = get_be (take 8 d.bytes);
          rle_delta = value;
          n = run_bound count;
          i = 0;
          bytes = [];
        }
      ]
    ]

abbrev pub cons_value : ℕ → Option (List ℕ × Option Error) → Option (List ℕ × Option Error)
cons_value v none = none
cons_value v (some (vs, e)) = some (v ∷ vs, e)

module _ (s : Simple8b) where
  -- On an error of `simple8b.Decode` the count of values no longer matters: `error` ends the loop.
  unfoldable pub decode_packed : Decoder → Decoder
  decode_packed d =
      let v = get_be (take 8 d.bytes) in
      let rest = drop 8 d.bytes in
      if length d.bytes == 0
      then d
      else if ltb (length d.bytes) 8
      then fail short_data d
      else if d.first
      then record d {
        first = false;
        n = 1;
        values = overlay (v ∷ []) d.values;
        i = 0;
        bytes = rest;
      }
      else elim (s.decode v) [
        | none ↦ record d { error = some unpack_failed; n = 0; i = 0; bytes = rest }
        | some vs ↦ record d { n = length vs; values = overlay vs d.values; i = 0; bytes = rest }
      ]

  unfoldable pub fill : Decoder → Decoder
  unfolding decode_packed decode_uncompressed decode_rle
  fill d =
      if d.encoding == int_uncompressed
      then decode_uncompressed d
      else if d.encoding == int_compressed_simple
      then decode_packed d
      else if d.encoding == int_compressed_rle
      then decode_rle d
      else fail unknown_encoding d

  abbrev pub has_value : Decoder → Bool
  has_value d = elim d.error [ none ↦ ltb d.i d.n | some _ ↦ false ]

  unfoldable pub next : Decoder → Decoder × Bool
  unfolding fill
  next d =
      let d1 = record d { i = d.i + 1 } in
      let d2 = if leb d1.n d1.i then fill d1 else d1 in
      if leb d.n d.i && length d.bytes == 0 then (d, false) else (d2, has_value d2)

  -- The int64 that `Read` wraps by `variant.NewInt64`, and the decoder after it.
  unfoldable pub read : Decoder → Decoder × ℕ
  read d =
      let run = add64 (zigzag_decode d.rle_first) (mul64 d.i (zigzag_decode d.rle_delta)) in
      let v = add64 (zigzag_decode (get_or d.values d.i 0)) d.prev in
      if d.encoding == int_compressed_rle then (d, run) else (record d { prev = v }, v)

  -- The caller's loop `for d.Next() { d.Read() }`, with the error at its end; `none` means that the
  -- fuel ran out.
  unfoldable pub drain : ℕ → Decoder → Option (List ℕ × Option Error)
  unfolding next read
  drain zero d = none
  drain (suc fuel) d =
      let d' = (next d).0 in
      let r = read d' in
      let rest = cons_value r.1 (drain fuel r.0) in if (next d).1 then rest else some ([], d'.error)
