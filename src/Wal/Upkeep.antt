-- ===== src/Wal/Upkeep.antt =====
-- Keeping a walFile of tsdb/file_wal.go: its start, its truncation and its settings.
pub mod Restart
pub mod Retries
use qv_lite.Prelude.{
  ℕ, zero, suc, ◌+◌, ◌-◌, Bool, true, false, not, ◌&&◌, ◌||◌, Option, none, some, List, [], ◌∷◌,
  ◌++◌, length, take, drop, ltb, leb, ◌==◌, if◌then◌else◌,
}
use qv_lite.Wire.{ltb64}
use qv_lite.Wal.Frames.{Values, Entry, Loaded, open_wal_file}
use qv_lite.Wal.Buffer.{
  ReadBuffer, new_wal_read_buffer, append_values, reset_for_reuse,
  max_retained_wal_read_buffer_bytes,
}
use qv_lite.Wal.States.{
  TagState, TagStates, no_states, max_dense_wal_tag_code, load_tag_state, store_tag_state,
}
use qv_lite.Wal.Policy.{Policy}
use qv_lite.Wal.Files.{
  Config, File, WalFile, WalError, wal_closed, write_failed, already_closed, writer_works,
  has_failed, is_closed, fits_spare,
}

-- `setDefaultValues`, where a number that is not positive is 0.
abbrev pub set_default_values : Config → Config
set_default_values c = record c {
  max_file_size = if c.max_file_size == 0 then 67108864 else c.max_file_size;
  max_buffer_batch_size = if c.max_buffer_batch_size == 0 then 4096 else c.max_buffer_batch_size;
}

-- The two maps of a restart, with the same keys.
abbrev pub TagMap : Type 0 → Type 0
TagMap V = List (ℕ × (ℕ × V))

module _ {V : Type 0} where
  unfoldable pub set_last_point : ℕ → ℕ → V → WalFile V → WalFile V
  set_last_point key t v w = elim (load_tag_state key w.states) [
    | none ↦ record w { states = store_tag_state key (t, v) w.states }
    | some s ↦ if ltb64 s.0 t then record w { states = store_tag_state key (t, v) w.states } else w
  ]

  unfoldable pub update_wal_config : Config → WalFile V → WalFile V
  update_wal_config config w =
      let c = set_default_values config in
      record w {
        config = c;
        spare =
            if c.close_buffer || not (fits_spare c.max_buffer_batch_size w.spare)
            then none
            else w.spare;
      }

  -- The read buffer of the last of `n` files, if there is one.
  abbrev pub last_buffer : ℕ → List (File V) → Option (ReadBuffer V)
  last_buffer n [] = none
  last_buffer zero (f ∷ fs) = none
  last_buffer (suc zero) (f ∷ fs) = some f.buffer
  last_buffer (suc (suc n)) (f ∷ fs) = last_buffer (suc n) fs

  abbrev pub reset_spare : ℕ → Option (ReadBuffer V) → Option (ReadBuffer V)
  reset_spare entry_bytes none = none
  reset_spare entry_bytes (some b) =
      some (reset_for_reuse entry_bytes max_retained_wal_read_buffer_bytes b)

  abbrev pub is_none : Option (ReadBuffer V) → Bool
  is_none none = true
  is_none (some b) = false

  -- The files are removed from the disk, or renamed; `entry_bytes` is the size of an entry in memory.
  unfoldable pub truncate : ℕ → ℕ → WalFile V → WalFile V
  truncate entry_bytes n w =
      let n' : ℕ = if leb (length w.complete + 1) n then length w.complete else n in
      if n' == 0 then w else record w {
        complete = drop n' w.complete;
        spare =
            if not w.config.close_buffer && is_none w.spare
            then reset_spare entry_bytes (last_buffer n' w.complete)
            else w.spare;
      }

  abbrev pub cut_file : ℕ → ℕ → List (File V) → List (File V)
  cut_file i size [] = []
  cut_file zero size (f ∷ fs) = record f { bytes = take size f.bytes } ∷ fs
  cut_file (suc i) size (f ∷ fs) = f ∷ cut_file i size fs

  -- The disk works; a size behind the end of the file, which would fill it with zeros, is not used.
  unfoldable pub retain_wal_file_prefix : ℕ → ℕ → WalFile V → WalFile V × Option WalError
  retain_wal_file_prefix index size w =
      if index == length w.complete
      then if has_failed w.writer
        then (w, some write_failed)
        else if is_closed w.writer
        then (w, some already_closed)
        else (record w { last = record w.last { bytes = take size w.last.bytes } }, none)
      else (record w { complete = cut_file index size w.complete }, none)

  -- `Close`, on a disk that works; `Flush` of a writer that has failed gives its error again.
  unfoldable pub close : WalFile V → WalFile V × Option WalError
  close w =
      if not w.is_open
      then (w, none)
      else if has_failed w.writer
      then (w, some write_failed)
      else if is_closed w.writer
      then (w, some already_closed)
      else (record w { is_open = false; spare = none }, none)

  abbrev pub find : ℕ → TagMap V → TagState V
  find key [] = none
  find key ((k, s) ∷ xs) = let later = find key xs in if k == key then some s else later

  abbrev pub put : ℕ → ℕ × V → TagMap V → TagMap V
  put key state [] = (key, state) ∷ []
  put key state ((k, s) ∷ xs) =
      let later = put key state xs in if k == key then (k, state) ∷ xs else (k, s) ∷ later

  abbrev pub is_older : ℕ → TagState V → Bool
  is_older t none = false
  is_older t (some (max, v)) = ltb64 t max

  abbrev pub is_newer : ℕ → TagState V → Bool
  is_newer t none = true
  is_newer t (some (max, v)) = ltb64 max t

  abbrev pub recover_entries : List (Entry V) → TagMap V × Bool → TagMap V × Bool
  recover_entries [] (m, needs_sort) = (m, needs_sort)
  recover_entries (e ∷ es) (m, needs_sort) =
      let state = find e.key m in
      recover_entries es (
        if is_newer e.timestamp state then put e.key (e.timestamp, e.value) m else m,
        needs_sort || is_older e.timestamp state,
      )

  abbrev pub move_dense : TagMap V → TagStates V → TagStates V
  move_dense [] states = states
  move_dense ((k, s) ∷ xs) states =
      move_dense xs (if leb k max_dense_wal_tag_code then store_tag_state k s states else states)

  abbrev pub count_others : TagMap V → ℕ
  count_others [] = 0
  count_others ((k, s) ∷ xs) =
      if leb k max_dense_wal_tag_code then count_others xs else suc (count_others xs)

  -- The codes up to the bound are moved into the slice; the order in which Go visits them is the list's.
  abbrev pub recover_states : TagMap V → TagStates V
  recover_states m =
      let states = move_dense m no_states in
      record states {
        others = λ k. if leb k max_dense_wal_tag_code then none else find k m;
        tag_state_count = states.tag_state_count + count_others m;
      }

module _ {V : Type 0} (values : Values V) where
  -- One file, opened: what is left of it, and its entries.
  abbrev pub recover_opened : Config → List ℕ × Loaded values → TagMap V → File V × TagMap V
  recover_opened config (kept, loaded) m =
      let cap = config.max_buffer_batch_size in
      let buffer = append_values values loaded.entries (new_wal_read_buffer cap) in
      let (m', needs_sort) = recover_entries loaded.entries (m, false) in
      (
        record {
          bytes = kept;
          length = loaded.offset;
          buffer = if config.close_buffer then new_wal_read_buffer cap else buffer;
          needs_sort = needs_sort;
        },
        m',
      )

  abbrev pub recover_file : Config → List ℕ → TagMap V → File V × TagMap V
  recover_file config bytes m = recover_opened config (open_wal_file values bytes) m

  abbrev pub recover_files : Config → List (List ℕ) → TagMap V → List (File V) × TagMap V
  recover_files config [] m = ([], m)
  recover_files config (b ∷ bs) m =
      let (f, m') = recover_file config b m in
      let (fs, m'') = recover_files config bs m' in (f ∷ fs, m'')

  -- The files are `old` and then `newest`; where there is none, `newest` is a new one and empty.
  unfoldable pub new_wal_file : Policy → Config → List (List ℕ) → List ℕ → WalFile V
  unfolding open_wal_file
  new_wal_file policy config old newest =
      let c = set_default_values config in
      let (complete, m) = recover_files c old [] in
      let (last, m') = recover_file c newest m in
      record {
        complete = complete;
        last = last;
        spare = none;
        states = recover_states m';
        is_open = true;
        writer = writer_works;
        strays = 0;
        policy = policy;
        config = c;
      }
