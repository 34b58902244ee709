-- ===== src/Batch/Server.antt =====
-- The decoder and the handler of server/batch_binary.go.
use qv_lite.Prelude.{ℕ, zero, suc, ◌+◌, Bool, not, ◌||◌, Option, none, some}
use qv_lite.Prelude.{List, length, take, drop, get_or, ltb, ◌==◌, if◌then◌else◌}
use qv_lite.Wire.BigEndian.{get_be}
use qv_lite.Ingest.{StreamIngestor, new_stream_ingestor, add, finish}
use qv_lite.Batch.Blocks.{BlockReader, new_block_reader, take_bytes}

abbrev pub batch_value_float : ℕ
batch_value_float = 1

abbrev pub batch_value_int : ℕ
batch_value_int = 2

abbrev pub batch_value_uint : ℕ
batch_value_uint = 3

abbrev pub batch_value_bool : ℕ
batch_value_bool = 4

abbrev pub batch_value_string : ℕ
batch_value_string = 5

abbrev pub batch_value_json : ℕ
batch_value_json = 6

abbrev pub max_batch_points : ℕ
max_batch_points = 2000000

-- `J` is what `nativeToVariant` makes of JSON text; a float is its bits.
pub data Value (J : Type 0) : Type 0 where
  float_value int_value uint_value : ℕ → Value J
  bool_value : Bool → Value J
  string_value : List ℕ → Value J
  json_value : J → Value J

pub record TagPoint (J : Type 0) : Type 0 where
  pub tag : List ℕ
  pub timestamp : ℕ
  pub value : Value J

abbrev pub then_take : Option (List ℕ × BlockReader) → Option (List ℕ × BlockReader)
then_take none = none
then_take (some (h, r)) = take_bytes (get_be h) r

-- A length of `width` bytes, and as many bytes.
unfoldable pub take_block : ℕ → BlockReader → Option (List ℕ × BlockReader)
take_block width r = then_take (take_bytes width r)

abbrev pub with_bytes :
    {A : Type 0} → (List ℕ → A) → Option (List ℕ × BlockReader) → Option (A × BlockReader)
with_bytes f none = none
with_bytes f (some (b, r)) = some (f b, r)

module _ {J : Type 0} (native_to_variant : List ℕ → Option J) where
  abbrev pub with_json : Option (List ℕ × BlockReader) → Option (Value J × BlockReader)
  with_json none = none
  with_json (some (b, r)) = elim (native_to_variant b) [
    | none ↦ none
    | some j ↦ some (json_value j, r)
  ]

  -- The switch on the value type. The texts of the errors are left out.
  unfoldable pub parse_value : ℕ → BlockReader → Option (Value J × BlockReader)
  unfolding take_block
  parse_value vt r =
      if vt == batch_value_float
      then with_bytes (λ b. float_value (get_be b)) (take_bytes 8 r)
      else if vt == batch_value_int
      then with_bytes (λ b. int_value (get_be b)) (take_bytes 8 r)
      else if vt == batch_value_uint
      then with_bytes (λ b. uint_value (get_be b)) (take_bytes 8 r)
      else if vt == batch_value_bool
      then with_bytes (λ b. bool_value (not (get_or b 0 0 == 0))) (take_bytes 1 r)
      else if vt == batch_value_string
      then with_bytes string_value (take_block 2 r)
      else if vt == batch_value_json
      then with_json (take_block 4 r)
      else none

  abbrev pub with_value :
      List ℕ → List ℕ → Option (Value J × BlockReader) → Option (TagPoint J × BlockReader)
  with_value tag h none = none
  with_value tag h (some (v, r)) = some (record { tag = tag; timestamp = get_be h; value = v }, r)

  abbrev pub with_timestamp :
      ℕ → List ℕ → Option (List ℕ × BlockReader) → Option (TagPoint J × BlockReader)
  with_timestamp vt tag none = none
  with_timestamp vt tag (some (h, r)) = with_value tag h (parse_value vt r)

  abbrev pub with_tag : ℕ → Option (List ℕ × BlockReader) → Option (TagPoint J × BlockReader)
  with_tag vt none = none
  with_tag vt (some (tag, r)) = with_timestamp vt tag (take_bytes 8 r)

  unfoldable pub parse_binary_point : ℕ → BlockReader → Option (TagPoint J × BlockReader)
  unfolding take_block parse_value
  parse_binary_point vt r = with_tag vt (take_block 2 r)

pub data HeaderError : Type 0 where
  too_short bad_magic bad_version truncated_table truncated_count too_many : HeaderError

pub data Header : Type 0 where
  malformed : HeaderError → Header
  header : List ℕ → ℕ → ℕ → List ℕ → Header

-- `tail` is what follows the table's name.
abbrev pub read_count : List ℕ → ℕ → List ℕ → Header
read_count table vt tail =
    let count = get_be (take 4 tail) in
    if ltb (length tail) 4
    then malformed truncated_count
    else if ltb max_batch_points count
    then malformed too_many
    else header table vt count (drop 4 tail)

-- The table, the value type, the count of the points and the bytes after the header.
unfoldable pub read_batch_header : List ℕ → Header
read_batch_header b =
    let tl = get_be (take 2 (drop 4 b)) in
    if ltb (length b) 6
    then malformed too_short
    else if not (get_or b 0 0 == 84) || not (get_or b 1 0 == 83)
    then malformed bad_magic
    else if not (get_or b 2 0 == 1)
    then malformed bad_version
    else if ltb (length (drop 6 b)) tl
    then malformed truncated_table
    else read_count (take tl (drop 6 b)) (get_or b 3 0) (drop tl (drop 6 b))

-- What the handler answers: status 400 for a malformed header or the point of an index, 500 when a
-- call of `ingest` fails, and else the count of the points written.
pub data Reply : Type 0 where
  rejected : HeaderError → Reply
  bad_point : ℕ → Reply
  ingest_failed : Reply
  written : ℕ → Reply

abbrev pub reply_of : {G : Type 0} → (G × Bool) × ℕ → G × Reply
reply_of ((g, fine), n) = if fine then (g, written n) else (g, ingest_failed)

-- `ingest` and `visit` are as in the stream ingestor.
module _ {J : Type 0} (native_to_variant : List ℕ → Option J)
    (ingest : List ℕ → List (TagPoint J) → Option ℕ) (visit : List (List ℕ) → List (List ℕ)) where
  -- The loop over the points, from the point `i` on, and the call of `Finish` behind it.
  unfoldable pub add_points :
      List ℕ
      → ℕ
      → ℕ
      → ℕ
      → BlockReader
      → StreamIngestor (TagPoint J)
      → StreamIngestor (TagPoint J) × Reply
  unfolding parse_binary_point add finish
  add_points table vt zero i r g = reply_of (finish (TagPoint J) ingest visit g)
  add_points table vt (suc count) i r g = elim (parse_binary_point native_to_variant vt r) [
    | none ↦ (g, bad_point i)
    | some (p, r') ↦
        let added = add (TagPoint J) ingest visit table p g in
        let later = add_points table vt count (i + 1) r' added.0 in
        if added.1 then later else (added.0, ingest_failed)
  ]

  -- What follows the header. Where the handler answers without a stream, the stream here is a new one.
  unfoldable pub stream_body : List ℕ → Header → StreamIngestor (TagPoint J) × Reply
  unfolding add_points
  stream_body schedule (malformed e) = (new_stream_ingestor (TagPoint J), rejected e)
  stream_body schedule (header table vt count rest) =
      let g = new_stream_ingestor (TagPoint J) in
      let streamed = add_points table vt count 0 (new_block_reader rest schedule) g in
      if count == 0 then (g, written 0) else streamed

  -- `http.MaxBytesReader` delivers the first `max_body_bytes` of the request and then an error.
  unfoldable pub handle_batch_binary : ℕ → List ℕ → List ℕ → StreamIngestor (TagPoint J) × Reply
  unfolding read_batch_header stream_body
  handle_batch_binary max_body_bytes schedule request =
      stream_body schedule (read_batch_header (take max_body_bytes request))
