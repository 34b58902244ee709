-- ===== src/Wal/Reads.antt =====
-- Reading a walFile of tsdb/file_wal.go, from its read buffers or from its files.
pub mod Modes
use qv_lite.Prelude.{
  ℕ, suc, ◌+◌, ◌-◌, Bool, true, false, ◌&&◌, ◌||◌, Option, none, some, List, [], ◌∷◌, ◌++◌, length,
  get_or, take, map, ltb, leb, ◌==◌, if◌then◌else◌,
}
use qv_lite.Wire.{leb64}
use qv_lite.Wal.Frames.{Values, Entry, for_each_wal_file}
use qv_lite.Wal.Buffer.{
  ReadBuffer, Point, chunk_at, each_entry, for_each, match_entries, append_matching,
}
use qv_lite.Wal.States.{TagState, load_tag_state}
use qv_lite.Wal.Files.{File, WalFile}

module _ {V : Type 0} where
  abbrev pub entries_only : List (Entry V × ℕ) → List (Entry V)
  entries_only xs = map (λ x. x.0) xs

  -- The points at the end of a walk, sorted if there are any.
  abbrev pub sorted : (List (Point V) → List (Point V)) → List (Point V) → List (Point V)
  sorted sort [] = []
  sorted sort (x ∷ xs) = sort (x ∷ xs)

  abbrev pub match_buffers : ℕ → ℕ → ℕ → List (File V) → List (Point V) → List (Point V)
  match_buffers tag from to [] points = points
  match_buffers tag from to (f ∷ fs) points =
      match_buffers tag from to fs (append_matching points tag from to f.buffer)

  -- The newest point of a tag among the entries of a chunk, from a state on.
  abbrev pub newest : ℕ → List (Entry V) → TagState V → TagState V
  newest key [] state = state
  newest key (e ∷ es) none =
      newest key es
        (if e.key == key && leb64 0 e.timestamp then some (e.timestamp, e.value) else none)
  newest key (e ∷ es) (some (t, v)) =
      newest key es
        (if e.key == key && leb64 t e.timestamp then some (e.timestamp, e.value) else some (t, v))

  unfoldable pub get_tag_max_timestamp : ℕ → WalFile V → TagState V
  get_tag_max_timestamp key w =
      let b = w.last.buffer in
      let state = load_tag_state key w.states in
      if ltb 0 b.active_chunks
      then newest key (chunk_at b.chunks (b.active_chunks - 1)) state
      else state

  abbrev pub any_needs_sort : List (File V) → Bool
  any_needs_sort [] = false
  any_needs_sort (f ∷ fs) = f.needs_sort || any_needs_sort fs

  unfoldable pub complete_file_state : WalFile V → ℕ × Bool
  complete_file_state w = (length w.complete, any_needs_sort w.complete)

  unfoldable pub need_flush : WalFile V → Bool
  need_flush w = ltb 1 (length w.complete + 1)

  -- A callback gets the file's index, an entry and an offset, and answers whether to go on.
  abbrev pub visit : {S : Type 0} → (Entry V → ℕ → S → S × Bool) → List (Entry V × ℕ) → S → S × Bool
  visit fc [] s = (s, true)
  visit fc ((e, offset) ∷ es) s =
      let later = visit fc es (fc e offset s).0 in
      if (fc e offset s).1 then later else ((fc e offset s).0, false)

module _ {V : Type 0} (values : Values V) where
  -- The error of a file replaces that of the file before it.
  abbrev pub match_files : ℕ → ℕ → ℕ → List (File V) → List (Point V) × Bool → List (Point V) × Bool
  match_files tag from to [] (points, fine) = (points, fine)
  match_files tag from to (f ∷ fs) (points, fine) =
      let (es, ends_well) = for_each_wal_file values f.bytes in
      match_files tag from to fs (points ++ match_entries tag from to (entries_only es), ends_well)

  -- The points of all files, and whether the error is nil.
  unfoldable pub read_by_time :
      (List (Point V) → List (Point V)) → ℕ → ℕ → ℕ → WalFile V → List (Point V) × Bool
  unfolding for_each_wal_file append_matching
  read_by_time sort tag from to w =
      let files = w.complete ++ (w.last ∷ []) in
      let (points, fine) = match_files tag from to files ([], true) in
      if w.config.close_buffer
      then (sorted sort points, fine)
      else (sorted sort (match_buffers tag from to files []), true)

  -- How many files are done, and whether the error is nil.
  abbrev pub walk_files :
      {S : Type 0} → (ℕ → Entry V → ℕ → S → S × Bool) → ℕ → List (File V) → S → S × ℕ × Bool
  walk_files fc i [] s = (s, i, true)
  walk_files fc i (f ∷ fs) s =
      let (es, ends_well) = for_each_wal_file values f.bytes in
      let (s', on) = visit (fc i) es s in
      let later = walk_files fc (suc i) fs s' in
      if on then if ends_well then later else (s', i, false) else (s', i, true)

  abbrev pub walk_buffers :
      {S : Type 0} → (ℕ → Entry V → ℕ → S → S × Bool) → ℕ → List (File V) → S → S × ℕ × Bool
  walk_buffers fc i [] s = (s, i, true)
  walk_buffers fc i (f ∷ fs) s =
      let (s', on) = for_each (λ e. fc i e 0) f.buffer s in
      let later = walk_buffers fc (suc i) fs s' in if on then later else (s', i, true)

  -- `none` is a negative limit.
  abbrev pub snapshot : Option ℕ → List (File V) → List (File V)
  snapshot none fs = fs
  snapshot (some limit) fs = take limit fs

  unfoldable pub for_each_complete_file :
      {S : Type 0} → Option ℕ → (ℕ → Entry V → ℕ → S → S × Bool) → WalFile V → S → S × ℕ × Bool
  unfolding for_each_wal_file for_each
  for_each_complete_file limit fc w s =
      let files = snapshot limit w.complete in
      if w.config.close_buffer then walk_files fc 0 files s else walk_buffers fc 0 files s
