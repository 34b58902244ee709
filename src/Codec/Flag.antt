-- ===== src/Codec/Flag.antt =====
-- BooleanEncoder and BooleanDecoder of tsdb/segment_compression_bool.go.
pub mod Bits
mod Writes
pub mod RoundTrip
use qv_lite.Prelude.{
  ℕ, zero, suc, ◌+◌, ◌-◌, ◌*◌, ◌/◌, ◌%◌, ◌^◌, Bool, true, false, not, ◌&&◌, ◌||◌, bit_or,
}
use qv_lite.Prelude.{
  Option, none, some, List, [], ◌∷◌, ◌++◌, length, get_elem?, take, drop, replicate,
}
use qv_lite.Prelude.{ltb, leb, ◌==◌, if◌then◌else◌}
use qv_lite.Wire.BigEndian.{put_be, get_be}
use qv_lite.Codec.Defs.{Error, unknown_encoding}
use mathlib.Core.Bool.{xor}

abbrev pub compressed_bit_packed : ℕ
compressed_bit_packed = 6

abbrev pub compressed_rle_true : ℕ
compressed_rle_true = 7

abbrev pub compressed_rle_false : ℕ
compressed_rle_false = 8

-- `b` is the byte that is being filled, and `i` the count of its bits so far.
pub record Encoder : Type 0 where
  pub bytes : List ℕ
  pub b : ℕ
  pub i : ℕ
  pub rle : Bool
  pub last_bool : Bool
  pub number : ℕ
  pub failed : Bool

abbrev pub new_encoder : Encoder
new_encoder = record {
  bytes = [];
  b = 0;
  i = 0;
  rle = false;
  last_bool = false;
  number = 0;
  failed = false;
}

-- `rle` and `lastBool` keep their values.
abbrev pub reset : Encoder → Encoder
reset e = record e { bytes = []; b = 0; i = 0; number = 0; failed = false }

abbrev pub filler : Bool → ℕ
filler true = 255
filler false = 0

-- The first value that differs: the values so far are written out as bits.
unfoldable pub cancel_rle : Encoder → Encoder
cancel_rle e = record e {
  rle = false;
  bytes = e.bytes ++ replicate (e.number / 8) (filler e.last_bool);
  i = e.number % 8;
  b = if not (e.number % 8 == 0) && e.last_bool then bit_or e.b (2 ^ (e.number % 8) - 1) else e.b;
}

-- `e.b = e.b << 1` and `e.b |= 1`; a full byte goes to `bytes`.
unfoldable pub shift_in : Bool → Encoder → Encoder
shift_in bit e =
    let b' = e.b * 2 % 256 + (if bit then 1 else 0) in
    if leb 8 (e.i + 1)
    then record e { bytes = e.bytes ++ (b' ∷ []); b = 0; i = 0 }
    else record e { b = b'; i = e.i + 1 }

-- The first value starts a run.
unfoldable pub start_run : Bool → Encoder → Encoder
start_run bit e = if e.number == 0 then record e { last_bool = bit; rle = true } else e

unfoldable pub break_run : Bool → Encoder → Encoder
break_run bit e = if xor e.last_bool bit && e.rle then cancel_rle e else e

unfoldable pub pack : Bool → Encoder → Encoder
pack bit e = if e.rle then e else shift_in bit e

abbrev pub count_one : Encoder → Encoder
count_one e = record e { number = e.number + 1 }

-- The body of `Write` once `AsBool` has given `bit`.
unfoldable pub push : Bool → Encoder → Encoder
push bit e = count_one (pack bit (break_run bit (start_run bit e)))

-- `as_bool` is `variant.Variant.AsBool`; `none` stands for its error.
module _ {V : Type 0} (as_bool : V → Option Bool) where
  unfoldable pub write : V → Encoder → Encoder × Bool
  write value e = elim (as_bool value) [
    | none ↦ (record e { failed = true }, true)
    | some bit ↦ (push bit e, true)
  ]

  unfoldable pub write_all : List V → Encoder → Encoder
  unfolding write
  write_all [] e = e
  write_all (v ∷ vs) e = write_all vs (write v e).0

-- The error of a failed conversion is not returned.
unfoldable pub bytes : Encoder → List ℕ
bytes e =
    let marker =
      if e.rle
      then (if e.last_bool then compressed_rle_true else compressed_rle_false)
      else compressed_bit_packed in
    let last = if ltb 0 e.i then e.b * 2 ^ (8 - e.i) % 256 ∷ [] else [] in
    let payload = if e.rle then [] else e.bytes ++ last in marker ∷ (put_be 8 e.number ++ payload)

pub record Decoder : Type 0 where
  pub rle : Bool
  pub number : ℕ
  pub last_bool : Bool
  pub b : List ℕ
  pub i : ℕ
  pub error : Option Error

abbrev pub new_decoder : Decoder
new_decoder = record { rle = false; number = 0; last_bool = false; b = []; i = 0; error = none }

-- `int` of a count: 0 stands for a negative one, as both end the loop at once.
abbrev pub as_count : ℕ → ℕ
as_count n = if ltb n (2 ^ 63) then n else 0

-- `none` is a slice out of range. The position `i` and the error are not reset.
unfoldable pub set_bytes : List ℕ → Decoder → Option Decoder
set_bytes [] d = some d
set_bytes (kind ∷ rest) d =
    let number = as_count (get_be (take 8 rest)) in
    if kind == compressed_rle_true || kind == compressed_rle_false
    then if ltb (length rest) 8
      then none
      else some (record d { rle = true; last_bool = kind == compressed_rle_true; number = number })
    else if kind == compressed_bit_packed
    then if ltb (length rest) 8
      then none
      else some (record d { rle = false; b = drop 8 rest; number = number })
    else some (record d { error = some unknown_encoding })

unfoldable pub next : Decoder → Decoder × Bool
next d = elim d.error [
  | some _ ↦ (d, false)
  | none ↦ (record d { i = d.i + 1 }, leb (d.i + 1) d.number)
]

abbrev pub bit_of : ℕ → Option ℕ → Option Bool
bit_of k none = none
bit_of k (some v) = some (v / 2 ^ (7 - k) % 2 == 1)

-- Bit `index` of the bytes, the highest bit of each first: `v & mask == mask` with one bit in `mask`.
-- `none` is an index out of range.
unfoldable pub bit_at : List ℕ → ℕ → Option Bool
bit_at b index = bit_of (index % 8) (get_elem? b (index / 8))

-- Before the first `Next` the index is -1, which is out of range.
unfoldable pub read : Decoder → Option Bool
unfolding bit_at
read d = if d.rle then some d.last_bool else if d.i == 0 then none else bit_at d.b (d.i - 1)

abbrev pub cons_value : Option Bool → Option (List Bool × Decoder) → Option (List Bool × Decoder)
cons_value none rest = none
cons_value (some v) none = none
cons_value (some v) (some (vs, d)) = some (v ∷ vs, d)

-- The caller's loop `for d.Next() { d.Read() }` with the decoder that it leaves; `none` means that
-- the fuel ran out or that a `Read` panicked.
unfoldable pub drain : ℕ → Decoder → Option (List Bool × Decoder)
unfolding next read
drain zero d = none
drain (suc fuel) d =
    let d' = (next d).0 in
    let rest = cons_value (read d') (drain fuel d') in if (next d).1 then rest else some ([], d')
