-- ===== src/Tests/Batches.antt =====
-- The binary batch format at concrete inputs.
use qv_lite.Prelude.{
  ℕ, ◌≡◌, ◌≤◌, ◌<◌, refl, ap, arith, List, [], ◌∷◌, Option, some, none, length, take, drop,
}
use qv_lite.Wire.BigEndian.{put_be}
use qv_lite.Ingest.{new_stream_ingestor, add_all, finish}
use qv_lite.Batch.Client
use qv_lite.Batch.Server
use qv_lite.Batch.Blocks.{BlockReader, new_block_reader, take_bytes, remaining, take_bytes_lem}
use qv_lite.Batch.Points.{Matches, as_int, streamed, of_table}
use qv_lite.Batch.RoundTrip.{batch_round_trip}

-- Integers are as many digits as they count.
abbrev tally : Client.Scalars
tally = record {
  unquote = λ raw. some raw;
  float_bits = λ raw. none;
  parse_int = λ raw. some (length raw);
  parse_uint = λ raw. none;
  parse_bool = λ raw. none;
}

abbrev no_json : List ℕ → Option ℕ
no_json text = none

abbrev sent : Client.TagPoint
sent = record {
  tag = 97 ∷ [];
  timestamp = 1000;
  value = record { kind = Client.int_name; raw = 49 ∷ 49 ∷ [] };
}

abbrev received : Server.TagPoint ℕ
received = record { tag = 97 ∷ []; timestamp = 1000; value = Server.int_value 2 }

abbrev length_of : Client.Encoded tally → ℕ
length_of (Client.body b) = length b
length_of Client.too_large = 0
length_of Client.bad_value = 0
length_of Client.fallback = 0
length_of Client.panics = 0

int_known : Client.binary_value_type Client.int_name ≡ some 2
unfolding Client.binary_value_type
int_known = refl

sent-Matches : Matches tally no_json 2 sent received
unfolding Client.parse_int_raw
sent-Matches = record {
  short = omega arith;
  word = omega arith;
  tags = refl;
  times = refl;
  means = as_int 2 refl refl (omega arith) refl;
}

abbrev count_points : List ℕ → List (Server.TagPoint ℕ) → Option ℕ
count_points table points = some (length points)

abbrev one_table : List (List ℕ) → List (List ℕ)
one_table tables = tables

sent_size :
    (b : List ℕ)
    → Client.encode_batch_binary tally (116 ∷ []) (sent ∷ []) ≡ Client.body b
    → length b ≤ 67108864
unfolding Client.encode_batch_binary Client.parse_int_raw put_be
sent_size b h = let size : 30 ≡ length b = ap length_of h in omega (arith, size)

-- One point, of which the stream makes one call of `ingest`.
batch_round_trip_example :
    (b : List ℕ) × (Client.encode_batch_binary tally (116 ∷ []) (sent ∷ []) ≡ Client.body b)
    × (Server.handle_batch_binary no_json count_points one_table 67108864 (3 ∷ 5 ∷ 1 ∷ []) b
        ≡ streamed tally no_json count_points one_table (
            add_all
              (Server.TagPoint ℕ)
              count_points
              one_table
              (of_table tally no_json (116 ∷ []) (received ∷ []))
              (new_stream_ingestor (Server.TagPoint ℕ))))
batch_round_trip_example =
    batch_round_trip tally no_json count_points one_table 67108864 (116 ∷ []) sent []
      (received ∷ []) 2 (omega arith) (omega arith) int_known refl (sent-Matches, tt) sent_size
      (3 ∷ 5 ∷ 1 ∷ [])

reply_received :
    (streamed tally no_json count_points one_table (
      add_all
        (Server.TagPoint ℕ)
        count_points
        one_table
        (of_table tally no_json (116 ∷ []) (received ∷ []))
        (new_stream_ingestor (Server.TagPoint ℕ)))).1
    ≡ Server.written 1
unfolding add_all finish
reply_received = refl

abbrev arriving : BlockReader
arriving = new_block_reader (1 ∷ 2 ∷ 3 ∷ 4 ∷ []) (1 ∷ 1 ∷ [])

take_bytes_lem_example :
    (3 ≤ length (remaining arriving)
      → (r' : BlockReader) × (take_bytes 3 arriving ≡ some (take 3 (remaining arriving), r'))
        × (remaining r' ≡ drop 3 (remaining arriving)))
    × (length (remaining arriving) < 3 → take_bytes 3 arriving ≡ none)
take_bytes_lem_example = take_bytes_lem 3 arriving
