-- ===== src/Wal/Files.antt =====
-- The walFile of tsdb/file_wal.go: its operations on the log files.
pub mod Contents
pub mod Runs
pub mod FastPath
pub mod Limits
use qv_lite.Prelude.{
  ℕ, zero, suc, ◌+◌, ◌-◌, Bool, true, false, not, ◌&&◌, ◌||◌, Option, none, some, List, [], ◌∷◌,
  ◌++◌, length, get_or, take, drop, map, ltb, leb, ◌==◌, if◌then◌else◌,
}
use qv_lite.Wire.{leb64, ltb64}
use qv_lite.Wal.Frames.{Values, Entry, append_serialized}
use qv_lite.Wal.Buffer.{
  ReadBuffer, new_wal_read_buffer, append_values, reset_for_reuse,
  max_retained_wal_read_buffer_bytes, chunk_at,
}
use qv_lite.Wal.States.{TagState, TagStates, load_tag_state, store_tag_state}
use qv_lite.Wal.Policy.{Policy, has_policy, dedup_runs, written_entries}

pub data WalError : Type 0 where
  wal_closed cache_full write_failed rotation_failed already_closed : WalError

pub record Config : Type 0 where
  pub max_file_number : ℕ
  pub max_file_size : ℕ
  pub max_buffer_batch_size : ℕ
  pub close_buffer : Bool

-- `bytes` is what is on the disk.
pub record File (V : Type 0) : Type 0 where
  pub bytes : List ℕ
  pub length : ℕ
  pub buffer : ReadBuffer V
  pub needs_sort : Bool

-- The `bufio.Writer` and its file: a write that fails leaves an error that the writer keeps until it is
-- reset, and a file that was closed, though `Close` gave an error, takes no more writes.
pub data Writer : Type 0 where
  writer_works writer_failed writer_closed : Writer

-- `walFiles` is never empty: its last file is `last`. `strays` counts the empty files on the disk that
-- are not among them.
pub record WalFile (V : Type 0) : Type 0 where
  pub complete : List (File V)
  pub last : File V
  pub spare : Option (ReadBuffer V)
  pub states : TagStates V
  pub is_open : Bool
  pub writer : Writer
  pub strays : ℕ
  pub policy : Policy
  pub config : Config

-- Whether the next file is opened and the old one then closed.
pub data Rotation : Type 0 where
  rotated open_fails close_fails : Rotation

-- What the system does in one operation: how many bytes a failing write has written, and how a
-- rotation goes.
pub record Disk : Type 0 where
  pub failed_write : Option ℕ
  pub rotation : Rotation

abbrev pub Outcome : Type 0 → Type 0
Outcome V = WalFile V × ℕ × Option WalError

abbrev pub has_failed : Writer → Bool
has_failed writer_works = false
has_failed writer_failed = true
has_failed writer_closed = false

abbrev pub is_closed : Writer → Bool
is_closed writer_works = false
is_closed writer_failed = false
is_closed writer_closed = true

-- A file that is closed already cannot be closed again.
abbrev pub rotation_of : Writer → Rotation → Rotation
rotation_of writer_works r = r
rotation_of writer_failed r = r
rotation_of writer_closed rotated = close_fails
rotation_of writer_closed open_fails = open_fails
rotation_of writer_closed close_fails = close_fails

module _ {V : Type 0} where
  abbrev pub is_full : WalFile V → Bool
  is_full w =
      ltb 0 w.config.max_file_number
      && (leb w.config.max_file_size w.last.length
          && leb w.config.max_file_number (length w.complete + 1))

  abbrev pub put_out : Writer → Option ℕ → List ℕ → WalFile V → WalFile V × Bool
  put_out writer_works none bytes w =
      (record w { last = record w.last { bytes = w.last.bytes ++ bytes } }, true)
  put_out writer_works (some k) bytes w = (
    record w {
      last = record w.last { bytes = w.last.bytes ++ take k bytes };
      writer = writer_failed;
    },
    false,
  )
  put_out writer_failed out bytes w = (w, false)
  put_out writer_closed out bytes w = (record w { writer = writer_failed }, false)

  -- `Write` and `Flush` of the bytes, if there are any; the Boolean tells whether they succeed.
  abbrev pub write_out : Option ℕ → List ℕ → WalFile V → WalFile V × Bool
  write_out out bytes w = if length bytes == 0 then (w, true) else put_out w.writer out bytes w

  abbrev pub fits_spare : ℕ → Option (ReadBuffer V) → Bool
  fits_spare cap none = false
  fits_spare cap (some b) = b.chunk_cap == cap

  abbrev pub next_buffer : ℕ → Option (ReadBuffer V) → ReadBuffer V
  next_buffer cap none = new_wal_read_buffer cap
  next_buffer cap (some b) = if b.chunk_cap == cap then b else new_wal_read_buffer cap

  -- When `Close` fails, the new file stays on the disk, empty and unused, and the writer keeps the old
  -- one, which is closed for good.
  abbrev pub next_file : Rotation → WalFile V → WalFile V × Option WalError
  next_file rotated w =
      let cap = w.config.max_buffer_batch_size in
      (
        record w {
          complete = w.complete ++ (w.last ∷ []);
          last = record {
            bytes = [];
            length = 0;
            buffer = next_buffer cap w.spare;
            needs_sort = false;
          };
          spare = if fits_spare cap w.spare then none else w.spare;
          writer = writer_works;
        },
        none,
      )
  next_file open_fails w = (w, some rotation_failed)
  next_file close_fails w =
      (record w { writer = writer_closed; strays = w.strays + 1 }, some rotation_failed)

  -- It is called only when the writer has not failed.
  unfoldable pub add_wal_file : Disk → WalFile V → WalFile V × Option WalError
  add_wal_file disk w = next_file (rotation_of w.writer disk.rotation) w

  unfoldable pub rotate_if_full : Disk → WalFile V → WalFile V × Option WalError
  unfolding add_wal_file
  rotate_if_full disk w =
      if leb w.config.max_file_size w.last.length
      then if has_failed w.writer
        then (w, some write_failed)
        else if ltb 0 w.config.max_file_number
            && leb w.config.max_file_number (length w.complete + 1)
        then (w, none)
        else add_wal_file disk w
      else (w, none)

  abbrev pub with_written : ℕ → WalFile V × Option WalError → Outcome V
  with_written n (w, error) = (w, n, error)

  abbrev pub with_states : TagStates V → Bool → WalFile V → WalFile V
  with_states states needs_sort w = record w {
    states = states;
    last = record w.last { needs_sort = needs_sort };
  }

module _ {V : Type 0} (values : Values V) where
  -- The written points become part of the file and, unless it is closed, of its read buffer.
  abbrev pub accept : ℕ → List (Entry V) → WalFile V → WalFile V
  accept length written w = record w {
    last = record w.last {
      length = length;
      buffer =
          if w.config.close_buffer
          then w.last.buffer
          else append_values values written w.last.buffer;
    };
  }

  abbrev pub commit :
      Disk → TagStates V → Bool → List ℕ → ℕ → ℕ → List (Entry V) → WalFile V → Outcome V
  commit disk states needs_sort batch_buf new_length count written w =
      let (w', succeeds) =
        write_out disk.failed_write batch_buf (with_states states needs_sort w) in
      let rotated : Outcome V =
        with_written count (rotate_if_full disk (accept new_length written w')) in
      if succeeds then rotated else (w', 0, some write_failed)

  abbrev pub is_empty : {A : Type 0} → List A → Bool
  is_empty [] = true
  is_empty (x ∷ xs) = false

  unfoldable pub write_batch : Disk → List (Entry V) → WalFile V → Outcome V
  unfolding dedup_runs rotate_if_full
  write_batch disk entries w =
      let (ends, d) = dedup_runs values w.policy entries w.last.length w.last.needs_sort w.states in
      let written = written_entries w.last.length ends in
      if not w.is_open
      then (w, 0, some wal_closed)
      else if is_empty entries
      then (w, 0, none)
      else if is_full w
      then (w, 0, some cache_full)
      else commit disk d.states d.needs_sort d.batch_buf d.length (length written) written w

  -- The points of a tag that are handed over together.
  abbrev pub TagRun : Type 0
  TagRun = ℕ × List (ℕ × V)

  abbrev pub run_entries : ℕ → List (ℕ × V) → List (Entry V)
  run_entries key [] = []
  run_entries key ((t, v) ∷ points) =
      record { key = key; timestamp = t; value = v } ∷ run_entries key points

  abbrev pub entries_of : List TagRun → List (Entry V)
  entries_of [] = []
  entries_of ((key, points) ∷ runs) = run_entries key points ++ entries_of runs

  -- The variables of the loop of `WriteRuns`; `state` is that of the run's tag.
  pub record RunWrite : Type 0 where
    pub state : TagState V
    pub states : TagStates V
    pub batch_buf : List ℕ
    pub new_length : ℕ
    pub written : ℕ
    pub needs_sort : Bool

  abbrev pub is_before : ℕ → TagState V → Bool
  is_before t none = false
  is_before t (some (max, v)) = ltb64 t max

  abbrev pub newer : ℕ → V → TagState V → TagState V
  newer t v none = some (t, v)
  newer t v (some (max, w)) = if leb64 max t then some (t, v) else some (max, w)

  abbrev pub take_points : ℕ → List (ℕ × V) → RunWrite → RunWrite
  take_points key [] r = r
  take_points key ((t, v) ∷ points) r =
      let bytes = append_serialized values (record { key = key; timestamp = t; value = v }) in
      take_points key points (record r {
        state = newer t v r.state;
        batch_buf = r.batch_buf ++ bytes;
        new_length = r.new_length + length bytes;
        written = r.written + 1;
        needs_sort = r.needs_sort || is_before t r.state;
      })

  abbrev pub store_state : ℕ → TagState V → TagStates V → TagStates V
  store_state key none states = states
  store_state key (some state) states = store_tag_state key state states

  abbrev pub take_run : TagRun → RunWrite → RunWrite
  take_run (key, points) r =
      let r' = take_points key points (record r { state = load_tag_state key r.states }) in
      record r' { states = store_state key r'.state r'.states }

  abbrev pub take_runs : List TagRun → RunWrite → RunWrite
  take_runs [] r = r
  take_runs (run ∷ runs) r = take_runs runs (take_run run r)

  abbrev pub runs_start : WalFile V → RunWrite
  runs_start w = record {
    state = none;
    states = w.states;
    batch_buf = [];
    new_length = w.last.length;
    written = 0;
    needs_sort = w.last.needs_sort;
  }

  unfoldable pub write_runs : Disk → List TagRun → WalFile V → Outcome V
  unfolding write_batch
  write_runs disk runs w =
      let r = take_runs runs (runs_start w) in
      if is_empty runs
      then (w, 0, none)
      else if has_policy w.policy
      then write_batch disk (entries_of runs) w
      else if not w.is_open
      then (w, 0, some wal_closed)
      else if is_full w
      then (w, 0, some cache_full)
      else commit disk r.states r.needs_sort r.batch_buf r.new_length r.written (entries_of runs) w
