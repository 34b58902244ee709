-- ===== src/Wal/Policy.antt =====
-- The sampling and deduplication of tsdb/file_wal.go: dedupRuns.
pub mod OneByOne
pub mod Accepted
use qv_lite.Prelude.{
  ℕ, ◌+◌, Bool, true, false, not, ◌&&◌, ◌||◌, none, some, List, [], ◌∷◌, ◌++◌, length, ltb, leb,
  ◌==◌, if◌then◌else◌,
}
use qv_lite.Wire.{leb64, ltb64, sub64}
use qv_lite.Wal.Frames.{Values, Entry, append_serialized}
use qv_lite.Wal.States.{TagState, TagStates, load_tag_state, store_tag_state}

-- `minIntervalMs` and `dedupWindowMs`, as patterns of int64.
pub record Policy : Type 0 where
  pub min_interval : ℕ
  pub dedup_window : ℕ

abbrev pub has_policy : Policy → Bool
has_policy p = ltb64 0 p.min_interval || ltb64 0 p.dedup_window

-- The locals of the loop: the tag of the run and its state so far.
pub record Run (V : Type 0) : Type 0 where
  pub cur_key : ℕ
  pub cur_max : ℕ
  pub cur_last : V
  pub prev_known : Bool
  pub have_run : Bool

pub record Dedup (V : Type 0) : Type 0 where
  pub run : Run V
  pub states : TagStates V
  pub batch_buf : List ℕ
  pub length : ℕ
  pub needs_sort : Bool

abbrev pub publish : {V : Type 0} → Dedup V → Dedup V
publish d =
    if d.run.have_run
    then record d {
      states = store_tag_state d.run.cur_key (d.run.cur_max, d.run.cur_last) d.states;
    }
    else d

module _ {V : Type 0} where
  -- The entries whose end position lies behind the old end of the file.
  abbrev pub written_entries : ℕ → List (Entry V × ℕ) → List (Entry V)
  written_entries start [] = []
  written_entries start (x ∷ xs) =
      let rest = written_entries start xs in if leb x.1 start then rest else x.0 ∷ rest

module _ {V : Type 0} (values : Values V) where
  abbrev pub load_run : ℕ → TagState V → Run V
  load_run key none = record {
    cur_key = key;
    cur_max = 0;
    cur_last = values.zero_value;
    prev_known = false;
    have_run = true;
  }
  load_run key (some (t, v)) = record {
    cur_key = key;
    cur_max = t;
    cur_last = v;
    prev_known = true;
    have_run = true;
  }

  abbrev pub enter_run : Entry V → Dedup V → Dedup V
  enter_run e d =
      if d.run.have_run && d.run.cur_key == e.key
      then d
      else record (publish d) { run = load_run e.key (load_tag_state e.key (publish d).states) }

  -- Whether the point `e` is dropped after a point at `t` with the value `v`.
  abbrev pub is_dropped : Policy → ℕ → V → Entry V → Bool
  is_dropped p t v e =
      if ltb64 e.timestamp t
      then has_policy p
      else (ltb64 0 p.min_interval && ltb64 (sub64 e.timestamp t) p.min_interval)
        || (ltb64 0 p.dedup_window
            && (leb64 (sub64 e.timestamp t) p.dedup_window && values.is_equal v e.value))

  abbrev pub advance : Entry V → Run V → Run V
  advance e r =
      if not r.prev_known || leb64 r.cur_max e.timestamp
      then record r { cur_max = e.timestamp; cur_last = e.value; prev_known = true }
      else r

  -- The new state, and the end position of the entry: 0 when it is dropped.
  abbrev pub take_entry : Policy → Entry V → Dedup V → Dedup V × ℕ
  take_entry p e d =
      let bytes = append_serialized values e in
      if d.run.prev_known && is_dropped p d.run.cur_max d.run.cur_last e then (d, 0) else (
        record d {
          run = advance e d.run;
          batch_buf = d.batch_buf ++ bytes;
          length = d.length + length bytes;
          needs_sort = d.needs_sort || (d.run.prev_known && ltb64 e.timestamp d.run.cur_max);
        },
        d.length + length bytes,
      )

  abbrev pub dedup_entries : Policy → List (Entry V) → Dedup V → List (Entry V × ℕ) × Dedup V
  dedup_entries p [] d = ([], publish d)
  dedup_entries p (e ∷ es) d =
      let (d', end) = take_entry p e (enter_run e d) in
      let (ends, last) = dedup_entries p es d' in ((e, end) ∷ ends, last)

  -- No run yet: the values of its variables are the zero values of Go.
  abbrev pub no_run : Run V
  no_run = record {
    cur_key = 0;
    cur_max = 0;
    cur_last = values.zero_value;
    prev_known = false;
    have_run = false;
  }

  unfoldable pub dedup_runs :
      Policy → List (Entry V) → ℕ → Bool → TagStates V → List (Entry V × ℕ) × Dedup V
  dedup_runs p chunk length needs_sort states = dedup_entries p chunk (record {
    run = no_run;
    states = states;
    batch_buf = [];
    length = length;
    needs_sort = needs_sort;
  })
