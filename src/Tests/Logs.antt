-- ===== src/Tests/Logs.antt =====
-- The write-ahead log at concrete inputs: points of Booleans.
use qv_lite.Prelude.{
  ℕ, ◌+◌, ◌^◌, ◌<◌, ◌≡◌, refl, arith, Bool, true, false, List, [], ◌∷◌, ◌++◌, none, some, take,
  length, get_or, ◌==◌, ltb, if◌then◌else◌, All,
}
use qv_lite.Wire.{sub64}
use qv_lite.Wire.BigEndian.{put_be}
use qv_lite.Wal.Frames.{Values, Entry, append_serialized, open_wal_file}
use qv_lite.Wal.Layout.{IsLossless, IsSized, records}
use qv_lite.Wal.Recovery.{open_wal_file-torn, open_wal_file-corrupt}
use qv_lite.Wal.Buffer.{
  ReadBuffer, Point, new_wal_read_buffer, append_values, append_matching, each_entry, for_each,
  match_entries,
}
use qv_lite.Wal.Buffer.Contents.{IsTidy, append_values-contents, append_values-read}
use qv_lite.Wal.States.{no_states, load_tag_state, store_tag_state}
use qv_lite.Wal.States.Map.{load_tag_state-store}
use qv_lite.Wal.Policy.{Policy, dedup_runs, written_entries}
use qv_lite.Wal.Policy.OneByOne.{accept_each}
use qv_lite.Wal.Policy.Accepted.{dedup_runs-accept_each}
use qv_lite.Wal.Files.{
  Config, File, WalFile, Disk, rotated, writer_works, TagRun, write_failed, write_batch, write_runs,
  entries_of,
}
use qv_lite.Wal.Files.Contents.{
  new_wal_read_buffer-IsTidy, IsLog, IsLogOf, Succeeds, Holds, write_batch-accepts,
}
use qv_lite.Wal.Files.FastPath.{IsSame, write_runs-write_batch}
use qv_lite.Wal.Reads.{read_by_time, for_each_complete_file}
use qv_lite.Wal.Reads.Modes.{read_by_time-IsLogOf, for_each_complete_file-lists}
use qv_lite.Wal.Upkeep.{new_wal_file, truncate}
use qv_lite.Wal.Upkeep.Restart.{new_wal_file-IsLogOf, truncate-IsLog}
use qv_lite.Wal.Upkeep.Retries.{write_batch-retried}

abbrev flags : Values Bool
flags = record {
  append_binary = λ b. (if b then 1 else 0) ∷ [];
  is_binary_format = λ b. true;
  unmarshal_binary = λ b. some (get_or b 0 0 == 1);
  unmarshal_json = λ b. none;
  is_equal = λ a b. if a then b else (if b then false else true);
  is_reference = λ b. false;
  zero_value = false;
}

flags-IsLossless : IsLossless flags
flags-IsLossless = record { binary = λ b. refl; decoded = decodes; some_bytes = λ b. omega arith }
  where
    decodes : (b : Bool) → flags.unmarshal_binary (flags.append_binary b) ≡ some b
    decodes true = refl
    decodes false = refl

abbrev point_at : ℕ → ℕ → Bool → Entry Bool
point_at key t v = record { key = key; timestamp = t; value = v }

point_at-IsSized :
    (key t : ℕ) (v : Bool) → key < 2 ^ 32 → t < 2 ^ 64 → IsSized flags (point_at key t v)
point_at-IsSized key t v hk ht = record { code = hk; time = ht; fits = omega arith }

abbrev first_points : List (Entry Bool)
first_points = point_at 7 100 true ∷ point_at 8 90 false ∷ []

abbrev torn_point : Entry Bool
torn_point = point_at 7 120 false

first_points-IsSized : All (IsSized flags) first_points
first_points-IsSized = (
  point_at-IsSized 7 100 true (omega arith) (omega arith),
  (point_at-IsSized 8 90 false (omega arith) (omega arith), tt),
)

torn_point-IsSized : IsSized flags torn_point
torn_point-IsSized = point_at-IsSized 7 120 false (omega arith) (omega arith)

open_wal_file-torn_example :
    ((open_wal_file flags
        (records flags first_points ++ take 9 (append_serialized flags torn_point))).0
      ≡ records flags first_points)
    × ((open_wal_file flags
          (records flags first_points ++ take 9 (append_serialized flags torn_point))).1.entries
        ≡ first_points)
    × ((open_wal_file flags (records flags first_points)).1.entries ≡ first_points)
unfolding append_serialized put_be
open_wal_file-torn_example =
    open_wal_file-torn flags first_points torn_point 9 flags-IsLossless first_points-IsSized
      torn_point-IsSized (omega arith)

open_wal_file-corrupt_example :
    ((open_wal_file flags
        (records flags first_points ++ (put_be 4 0 ++ append_serialized flags torn_point))).0
      ≡ records flags first_points ++ (put_be 4 0 ++ append_serialized flags torn_point))
    × ((open_wal_file flags (
          records flags first_points
          ++ (put_be 4 0 ++ append_serialized flags torn_point))).1.entries
        ≡ first_points)
open_wal_file-corrupt_example =
    open_wal_file-corrupt flags first_points 0 (append_serialized flags torn_point) flags-IsLossless
      first_points-IsSized (omega arith)

-- Chunks of one entry, so that every entry begins a new one.
abbrev small_buffer : ReadBuffer Bool
small_buffer = new_wal_read_buffer 1

append_values-read_example :
    IsTidy (append_values flags first_points small_buffer)
    × ((tag from to : ℕ) (dst : List (Point Bool))
        → append_matching dst tag from to (append_values flags first_points small_buffer)
          ≡ dst ++ match_entries tag from to first_points)
    × ((fn : Entry Bool → ℕ → ℕ × Bool) (s : ℕ)
        → for_each fn (append_values flags first_points small_buffer) s
          ≡ each_entry fn first_points s)
append_values-read_example =
    append_values-read flags first_points small_buffer
      (record { active = omega arith; spare = tt; counted = refl })

load_tag_state-store_example :
    load_tag_state 70 (store_tag_state 70 (5, true) no_states) ≡ some (5, true)
load_tag_state-store_example = load_tag_state-store 70 (5, true) no_states 70

abbrev spaced : Policy
spaced = record { min_interval = 10; dedup_window = 0 }

abbrev unlimited : Policy
unlimited = record { min_interval = 0; dedup_window = 0 }

abbrev settings : Config
settings = record {
  max_file_number = 3;
  max_file_size = 40;
  max_buffer_batch_size = 2;
  close_buffer = false;
}

abbrev good_disk : Disk
good_disk = record { failed_write = none; rotation = rotated }

abbrev bad_disk : Disk
bad_disk = record { failed_write = some 3; rotation = rotated }

abbrev empty_file : File Bool
empty_file = record { bytes = []; length = 0; buffer = new_wal_read_buffer 2; needs_sort = false }

abbrev empty_log : Policy → WalFile Bool
empty_log p = record {
  complete = [];
  last = empty_file;
  spare = none;
  states = no_states;
  is_open = true;
  writer = writer_works;
  strays = 0;
  policy = p;
  config = settings;
}

empty_log-IsLog : (p : Policy) → IsLog flags (empty_log p) [] []
empty_log-IsLog p = record {
  old = tt;
  here = record {
    bytes = refl;
    size = refl;
    tidy = record { active = omega arith; spare = tt; counted = refl };
    cached = λ _. refl;
  };
  spare = tt;
}

write_batch-accepts_example :
    Succeeds flags
      (write_batch flags good_disk (first_points ++ (point_at 8 95 true ∷ [])) (empty_log spaced))
      2
      first_points
unfolding load_tag_state sub64
write_batch-accepts_example =
    write_batch-accepts flags good_disk (first_points ++ (point_at 8 95 true ∷ [])) []
      (empty_log spaced) refl refl refl refl refl ([], [], empty_log-IsLog spaced, refl)

abbrev two_runs : List (TagRun flags)
two_runs = (7, (100, true) ∷ (120, false) ∷ []) ∷ (8, (90, false) ∷ []) ∷ []

write_runs-write_batch_example :
    IsSame flags
      (write_runs flags bad_disk two_runs (empty_log unlimited))
      (write_batch flags bad_disk (entries_of flags two_runs) (empty_log unlimited))
write_runs-write_batch_example =
    write_runs-write_batch flags bad_disk two_runs (empty_log unlimited) refl

write_batch-retried_example :
    ((write_batch flags bad_disk (torn_point ∷ []) (empty_log spaced)).2 ≡ some write_failed)
    × ((write_batch flags good_disk
          (torn_point ∷ [])
          (write_batch flags bad_disk (torn_point ∷ []) (empty_log spaced)).0).1
        ≡ 0)
    × ((write_batch flags good_disk
          (torn_point ∷ [])
          (write_batch flags bad_disk (torn_point ∷ []) (empty_log spaced)).0).2
        ≡ none)
    × ((write_batch flags good_disk
          (torn_point ∷ [])
          (write_batch flags bad_disk (torn_point ∷ []) (empty_log spaced)).0).0.last.bytes
        ≡ (write_batch flags bad_disk (torn_point ∷ []) (empty_log spaced)).0.last.bytes)
unfolding load_tag_state
write_batch-retried_example =
    write_batch-retried flags bad_disk good_disk 3 torn_point (empty_log spaced) refl refl
      (omega arith) refl refl refl

new_wal_file-IsLogOf_example :
    IsLogOf flags
      (new_wal_file flags spaced settings
        (records flags first_points ∷ [])
        (records flags first_points ++ take 9 (append_serialized flags torn_point)))
      (first_points ++ first_points)
unfolding append_serialized put_be
new_wal_file-IsLogOf_example =
    new_wal_file-IsLogOf flags spaced settings (first_points ∷ []) first_points torn_point 9
      flags-IsLossless first_points-IsSized first_points-IsSized torn_point-IsSized (omega arith)

abbrev mixed_points : List (Entry Bool)
mixed_points = point_at 7 100 true ∷ point_at 8 90 false ∷ point_at 7 105 true ∷ []

dedup_runs-accept_each_example :
    (written_entries 0 (dedup_runs flags spaced mixed_points 0 false no_states).0 ≡ first_points)
    × ((dedup_runs flags spaced mixed_points 0 false no_states).1.batch_buf
        ≡ records flags first_points)
    × ((dedup_runs flags spaced mixed_points 0 false no_states).1.length
        ≡ 0 + length (records flags first_points))
    × ((dedup_runs flags spaced mixed_points 0 false no_states).1.needs_sort ≡ false)
    × ((k : ℕ)
        → load_tag_state k (dedup_runs flags spaced mixed_points 0 false no_states).1.states
          ≡ (accept_each flags spaced mixed_points (λ k. load_tag_state k no_states)).states k)
unfolding load_tag_state sub64
dedup_runs-accept_each_example = dedup_runs-accept_each flags spaced mixed_points 0 false no_states

abbrev file_of : List (Entry Bool) → File Bool
file_of es = record {
  bytes = records flags es;
  length = length (records flags es);
  buffer = append_values flags es (new_wal_read_buffer 2);
  needs_sort = false;
}

file_of-Holds : (closed : Bool) (es : List (Entry Bool)) → Holds flags closed (file_of es) es
file_of-Holds closed es =
    let (tidy, all) =
      append_values-contents flags es (new_wal_read_buffer 2)
        (new_wal_read_buffer-IsTidy flags 2).0 in
    record { bytes = refl; size = refl; tidy = tidy; cached = λ _. all }

-- The buffers are closed, so that the files are read.
abbrev two_files : WalFile Bool
two_files = record {
  complete = file_of first_points ∷ [];
  last = file_of (torn_point ∷ []);
  spare = none;
  states = no_states;
  is_open = true;
  writer = writer_works;
  strays = 0;
  policy = spaced;
  config = record settings { close_buffer = true };
}

two_files-IsLog : IsLog flags two_files (first_points ∷ []) (torn_point ∷ [])
two_files-IsLog = record {
  old = (file_of-Holds true first_points, tt);
  here = file_of-Holds true (torn_point ∷ []);
  spare = tt;
}

abbrev three_files : WalFile Bool
three_files = record two_files { complete = file_of first_points ∷ file_of (torn_point ∷ []) ∷ [] }

three_files-IsLog :
    IsLog flags three_files (first_points ∷ (torn_point ∷ []) ∷ []) (torn_point ∷ [])
three_files-IsLog = record {
  old = (file_of-Holds true first_points, (file_of-Holds true (torn_point ∷ []), tt));
  here = file_of-Holds true (torn_point ∷ []);
  spare = tt;
}

abbrev unsorted : List (Point Bool) → List (Point Bool)
unsorted points = points

read_by_time-IsLogOf_example :
    read_by_time flags unsorted 7 0 110 two_files ≡ ((100, true) ∷ [], true)
read_by_time-IsLogOf_example =
    read_by_time-IsLogOf flags unsorted 7 0 110 two_files (first_points ++ (torn_point ∷ []))
      flags-IsLossless (first_points ∷ [], torn_point ∷ [], two_files-IsLog, refl)
      (first_points-IsSized.0, (first_points-IsSized.1.0, (torn_point-IsSized, tt)))

-- The callback adds up the offsets and stops behind time 95.
abbrev offsets_until_95 : ℕ → Entry Bool → ℕ → ℕ → ℕ × Bool
offsets_until_95 i e offset n = (n + offset, ltb 95 e.timestamp)

-- The second file is beyond the limit.
for_each_complete_file-lists_example :
    for_each_complete_file flags (some 1) offsets_until_95 three_files 0 ≡ (51, 0, true)
unfolding append_serialized put_be
for_each_complete_file-lists_example =
    for_each_complete_file-lists flags (some 1) offsets_until_95 three_files 0
      (first_points ∷ (torn_point ∷ []) ∷ []) (torn_point ∷ []) flags-IsLossless three_files-IsLog
      (first_points-IsSized.0, (first_points-IsSized.1.0, (torn_point-IsSized, tt)))

truncate-IsLog_example : IsLog flags (truncate 56 9 two_files) [] (torn_point ∷ [])
truncate-IsLog_example =
    truncate-IsLog flags 56 9 two_files (first_points ∷ []) (torn_point ∷ []) two_files-IsLog
