-- ===== src/Codec/Time.antt =====
-- TimeEncoder and TimeDecoder of tsdb/segment_compression_timestamp.go. A timestamp is the pattern
-- of its int64.
mod Reduce
mod Streams
mod Forms
pub mod RoundTrip
use qv_lite.Prelude.{ℕ, zero, suc, ◌+◌, ◌-◌, ◌*◌, ◌/◌, ◌%◌, ◌^◌, Bool, true, false, not, ◌&&◌, ◌||◌}
use qv_lite.Prelude.{Option, none, some, List, [], ◌∷◌, ◌++◌, map, length, get_or, take, drop}
use qv_lite.Prelude.{ltb, leb, ◌==◌, if◌then◌else◌}
use qv_lite.Wire.{add64, sub64, mul64, ltb64}
use qv_lite.Wire.BigEndian.{put_be, get_be}
use qv_lite.Wire.Uvarint.{put_uvarint, get_uvarint}
use qv_lite.Codec.Defs.{Error, Result, Simple8b, ok, err, pack_failed}
use qv_lite.Codec.Defs.{unknown_encoding, short_data, bad_uvarint}

abbrev pub time_uncompressed : ℕ
time_uncompressed = 0

abbrev pub time_compressed_packed_simple : ℕ
time_compressed_packed_simple = 1

abbrev pub time_compressed_rle : ℕ
time_compressed_rle = 2

pub record Encoder : Type 0 where
  pub ts : List ℕ
  pub min_time : ℕ

abbrev pub new_encoder : Encoder
new_encoder = record { ts = []; min_time = 2 ^ 63 - 1 }

-- As in the encoder's `Reset`: the two buffers it empties too have no counterpart here.
abbrev pub reset : Encoder → Encoder
reset e = record { ts = []; min_time = 2 ^ 63 - 1 }

abbrev pub length_of : Encoder → ℕ
length_of e = length e.ts

unfoldable pub write : ℕ → Encoder → Encoder
write t e = record e {
  ts = e.ts ++ (t ∷ []);
  min_time = if ltb64 t e.min_time then t else e.min_time;
}

unfoldable pub write_all : List ℕ → Encoder → Encoder
unfolding write
write_all [] e = e
write_all (t ∷ ts) e = write_all ts (write t e)

-- `for divisor > 1 && v%divisor != 0 { divisor /= 10 }`
unfoldable pub shrink : ℕ → ℕ → ℕ → ℕ
shrink zero divisor v = divisor
shrink (suc fuel) divisor v =
    let smaller = shrink fuel (divisor / 10) v in
    if ltb 1 divisor && not (v % divisor == 0) then smaller else divisor

pub record Reduced : Type 0 where
  pub max : ℕ
  pub divisor : ℕ
  pub rle : Bool
  pub deltas : List ℕ

-- One round of the loop of `reduce`, which runs from the last timestamp back: `r` is what the rounds
-- before it found, so `r.deltas` begins with `deltas[i+1]`.
unfoldable pub reduce_step : ℕ → Reduced → Reduced
unfolding shrink
reduce_step v r = record {
  max = if ltb r.max v then v else r.max;
  divisor = shrink 13 r.divisor v;
  rle = length r.deltas == 0 || r.rle && get_or r.deltas 0 0 == v;
  deltas = v ∷ r.deltas;
}

unfoldable pub reduce_from : ℕ → List ℕ → Reduced
unfolding reduce_step
reduce_from prev [] = record { max = 0; divisor = 10 ^ 12; rle = true; deltas = [] }
reduce_from prev (t ∷ ts) = reduce_step (sub64 t prev) (reduce_from t ts)

-- `deltas[0]` keeps the first timestamp.
unfoldable pub reduce : List ℕ → Reduced
unfolding reduce_from
reduce [] = record { max = 0; divisor = 10 ^ 12; rle = true; deltas = [] }
reduce (t ∷ ts) = let r = reduce_from t ts in record r { deltas = t ∷ r.deltas }

-- `byte(math.Log10(float64(div)))` on the powers of ten up to 10 ^ 12.
unfoldable pub log10 : ℕ → ℕ → ℕ
log10 zero d = 0
log10 (suc fuel) d = let rest = suc (log10 fuel (d / 10)) in if ltb d 10 then 0 else rest

-- Four bits for the type and four for the exponent, which is at most 12.
abbrev pub header : ℕ → ℕ → ℕ
header kind divisor = kind * 16 + log10 13 divisor

abbrev pub put_words : List ℕ → List ℕ
put_words [] = []
put_words (w ∷ ws) = put_be 8 w ++ put_words ws

unfoldable pub encode_raw : List ℕ → List ℕ
encode_raw ts = time_uncompressed * 16 ∷ put_words ts

unfoldable pub encode_rle : ℕ → ℕ → ℕ → ℕ → List ℕ
unfolding log10
encode_rle first delta div n =
    header time_compressed_rle div
    ∷ (put_be 8 first ++ (put_uvarint (delta / div) ++ put_uvarint n))

module _ (s : Simple8b) where
  unfoldable pub encode_packed : ℕ → List ℕ → Result (List ℕ)
  unfolding log10
  encode_packed div [] = ok []
  encode_packed div (first ∷ dts) =
      let scaled = if ltb 1 div then map (λ v. v / div) dts else dts in
      elim (s.pack scaled) [
        | none ↦ err pack_failed
        | some deltas ↦ ok (header time_compressed_packed_simple div ∷ (put_be 8 first ++ deltas))
      ]

  -- `reduce` works in place, so the encoder holds the deltas afterwards.
  unfoldable pub bytes : Encoder → Encoder × Result (List ℕ)
  bytes e =
      let r = reduce e.ts in
      let e' = record e { ts = r.deltas } in
      if length e.ts == 0
      then (e, ok [])
      else if r.rle && ltb 1 (length r.deltas)
      then (
        e',
        ok (encode_rle (get_or r.deltas 0 0) (get_or r.deltas 1 0) r.divisor (length r.deltas)),
      )
      else if ltb s.max_value r.max
      then (e', ok (encode_raw r.deltas))
      else (e', encode_packed r.divisor r.deltas)

-- `at` is `i + 1`, since a run starts with `i = -1`.
pub record Decoder : Type 0 where
  pub v : ℕ
  pub at : ℕ
  pub n : ℕ
  pub ts : List ℕ
  pub rle_delta : ℕ
  pub encoding : ℕ
  pub error : Option Error

abbrev pub fail : Error → Decoder → Decoder
fail e d = record d { error = some e }

-- `deltas[i]*div`, without the product where `div` is at most 1.
abbrev pub gap : ℕ → ℕ → ℕ
gap div x = if ltb 1 div then mul64 x div else x

unfoldable pub scaled_sums : ℕ → ℕ → List ℕ → List ℕ
scaled_sums div last [] = []
scaled_sums div last (x ∷ xs) = let t = add64 last (gap div x) in t ∷ scaled_sums div t xs

unfoldable pub decode_packed : Simple8b → List ℕ → Decoder → Decoder
unfolding scaled_sums
decode_packed s b d =
    let first = get_be (take 8 (drop 1 b)) in
    if ltb (length b) 9 then fail short_data d else record d {
      at = 1;
      ts = first ∷ scaled_sums (10 ^ (get_or b 0 0 % 16)) first (s.unpack (drop 8 (drop 1 b)));
    }

unfoldable pub decode_rle : List ℕ → Decoder → Decoder
decode_rle b d =
    if ltb (length b) 9 then fail short_data d else elim (get_uvarint (drop 8 (drop 1 b))) [
      | none ↦ fail bad_uvarint d
      | some (value, k) ↦ elim (get_uvarint (drop k (drop 8 (drop 1 b)))) [
        | none ↦ fail bad_uvarint d
        | some (count, _) ↦ record d {
          v = sub64 (get_be (take 8 (drop 1 b))) (mul64 value (10 ^ (get_or b 0 0 % 16)));
          rle_delta = mul64 value (10 ^ (get_or b 0 0 % 16));
          at = 0;
          n = if ltb count (2 ^ 63) then count else 0;
        }
      ]
    ]

unfoldable pub get_words : ℕ → List ℕ → List ℕ
get_words zero b = []
get_words (suc k) b = get_be (take 8 b) ∷ get_words k (drop 8 b)

-- The prefix sums of the words.
unfoldable pub sums : ℕ → List ℕ → List ℕ
sums last [] = []
sums last (x ∷ xs) = let t = add64 last x in t ∷ sums t xs

unfoldable pub decode_raw : List ℕ → Decoder → Decoder
unfolding get_words sums
decode_raw b d = record d { at = 1; ts = sums 0 (get_words (length b / 8) b) }

unfoldable pub init : Simple8b → List ℕ → Decoder → Decoder
unfolding decode_packed decode_rle decode_raw
init s [] d = record d { v = 0; at = 1; ts = []; error = none }
init s (b ∷ bs) d =
    let d' = record d { v = 0; at = 1; ts = []; error = none; encoding = b / 16 } in
    if b / 16 == time_uncompressed
    then decode_raw bs d'
    else if b / 16 == time_compressed_rle
    then decode_rle (b ∷ bs) d'
    else if b / 16 == time_compressed_packed_simple
    then decode_packed s (b ∷ bs) d'
    else fail unknown_encoding d'

-- `d.i >= d.n` is `n < at`, and `d.i < d.n` after `d.i++` is `at' <= n`.
unfoldable pub next : Decoder → Decoder × Bool
next d = elim d.error [
  | some _ ↦ (d, false)
  | none ↦
      if d.encoding == time_compressed_rle
      then if ltb d.n d.at
        then (d, false)
        else (record d { at = d.at + 1; v = add64 d.v d.rle_delta }, leb (d.at + 1) d.n)
      else if ltb (length d.ts) d.at
      then (d, false)
      else (record d { v = get_or d.ts (d.at - 1) 0; at = d.at + 1 }, true)
]

abbrev pub cons_value : ℕ → Option (List ℕ × Option Error) → Option (List ℕ × Option Error)
cons_value v none = none
cons_value v (some (vs, e)) = some (v ∷ vs, e)

-- The caller's loop `for d.Next() { d.Read() }`; `none` means that the fuel ran out.
unfoldable pub drain : ℕ → Decoder → Option (List ℕ × Option Error)
unfolding next
drain zero d = none
drain (suc fuel) d =
    let d' = (next d).0 in
    let rest = cons_value d'.v (drain fuel d') in if (next d).1 then rest else some ([], d'.error)
