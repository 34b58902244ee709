-- ===== src/Wal/Policy/OneByOne.antt =====
-- Points that the log takes one after the other, and the runs of dedupRuns.
use qv_lite.Prelude.{
  ℕ, ◌+◌, ◌≡◌, refl, sym, ap, ◌∙◌, arith, Bool, true, false, not, ◌&&◌, ◌||◌, Bool-cases, inl, inr,
  none, some, List, [], ◌∷◌, ◌++◌, length, ◌==◌, if◌then◌else◌,
}
use qv_lite.Wire.{leb64, ltb64}
use qv_lite.Wal.Frames.{Values, Entry, append_serialized}
use qv_lite.Wal.States.{TagState, load_tag_state}
use qv_lite.Wal.States.Map.{load_tag_state-store}
use qv_lite.Wal.Policy.{Policy, Run, Dedup, publish, load_run, enter_run, is_dropped, take_entry}

pub or_assoc : (a b c : Bool) → ((a || b) || c) ≡ (a || (b || c))
or_assoc true b c = refl
or_assoc false b c = refl

pub or_false : (a : Bool) → (a || false) ≡ a
or_false true = refl
or_false false = refl

module _ {V : Type 0} (values : Values V) where
  -- What is taken of some points, given a map from tags to states: the points, whether one of them is
  -- late, and the map afterwards.
  pub record Accepted : Type 0 where
    pub entries : List (Entry V)
    pub late : Bool
    pub states : ℕ → TagState V

  abbrev pub accepts : Policy → Entry V → TagState V → Bool
  accepts p e none = true
  accepts p e (some (t, v)) = not (is_dropped values p t v e)

  abbrev pub is_late : Entry V → TagState V → Bool
  is_late e none = false
  is_late e (some (t, v)) = ltb64 e.timestamp t

  abbrev pub next_state : Entry V → TagState V → TagState V
  next_state e none = some (e.timestamp, e.value)
  next_state e (some (t, v)) =
      if leb64 t e.timestamp then some (e.timestamp, e.value) else some (t, v)

  abbrev pub with_state : ℕ → TagState V → (ℕ → TagState V) → ℕ → TagState V
  with_state key state m k = if k == key then state else m k

  abbrev pub accept_each : Policy → List (Entry V) → (ℕ → TagState V) → Accepted
  accept_each p [] m = record { entries = []; late = false; states = m }
  accept_each p (e ∷ es) m =
      let taken = accept_each p es (with_state e.key (next_state e (m e.key)) m) in
      let dropped = accept_each p es m in
      if accepts p e (m e.key)
      then record {
        entries = e ∷ taken.entries;
        late = is_late e (m e.key) || taken.late;
        states = taken.states;
      }
      else dropped

  -- The state of a run, and the map that the loop stands for at some point.
  abbrev pub run_state : Run V → TagState V
  run_state r = if r.prev_known then some (r.cur_max, r.cur_last) else none

  abbrev pub view : Dedup V → ℕ → TagState V
  view d k =
      if d.run.have_run && k == d.run.cur_key then run_state d.run else load_tag_state k d.states

  abbrev pub IsSettled : Dedup V → Type 0
  IsSettled d = d.run.have_run ≡ true → d.run.prev_known ≡ true

  pub publish-view :
      (d : Dedup V) (k : ℕ) → IsSettled d → load_tag_state k (publish d).states ≡ view d k
  publish-view d k settled = elim (Bool-cases d.run.have_run) [
    | inr off ↦ rw off refl
    | inl on ↦
        rw
          (
            on,
            load_tag_state-store d.run.cur_key (d.run.cur_max, d.run.cur_last) d.states k,
            settled on,
          )
          refl
  ]

  run_state-load : (key : ℕ) (s : TagState V) → run_state (load_run values key s) ≡ s
  run_state-load key none = refl
  run_state-load key (some s) = refl

  pub record Entered (e : Entry V) (d d' : Dedup V) : Type 0 where
    pub runs : d'.run.have_run ≡ true
    pub key : d'.run.cur_key ≡ e.key
    pub views : (k : ℕ) → view d' k ≡ view d k
    pub buffer : d'.batch_buf ≡ d.batch_buf
    pub end : d'.length ≡ d.length
    pub order : d'.needs_sort ≡ d.needs_sort

  pub publish_keeps :
      (d : Dedup V)
      → ((publish d).batch_buf ≡ d.batch_buf)
        × ((publish d).length ≡ d.length)
        × ((publish d).needs_sort ≡ d.needs_sort)
  publish_keeps d = elim (Bool-cases d.run.have_run) [
    | inl on ↦ rw on (refl, refl, refl)
    | inr off ↦ rw off (refl, refl, refl)
  ]

  load_run-runs :
      (key : ℕ) (s : TagState V)
      → ((load_run values key s).have_run ≡ true) × ((load_run values key s).cur_key ≡ key)
  load_run-runs key none = (refl, refl)
  load_run-runs key (some s) = (refl, refl)

  -- A new run is entered with the state of its tag.
  new_run-view :
      (e : Entry V) (d : Dedup V) (k : ℕ)
      → view (record d { run = load_run values e.key (load_tag_state e.key d.states) }) k
        ≡ load_tag_state k d.states
  new_run-view e d k =
      let state = load_tag_state e.key d.states in
      let (runs, key) = load_run-runs e.key state in
      elim (Bool-cases (k == e.key)) [
        | inl same ↦
            let here : k ≡ e.key = ground arith in
            rw (runs, key, same)
              (run_state-load e.key state ∙ ap (λ j. load_tag_state j d.states) (sym here))
        | inr differs ↦ rw (runs, key, differs) refl
      ]

  pub enter_run-Entered :
      (e : Entry V) (d : Dedup V) → IsSettled d → Entered e d (enter_run values e d)
  enter_run-Entered e d settled = elim (Bool-cases (d.run.have_run && d.run.cur_key == e.key)) [
    | inl inside ↦ rw inside record {
      runs = ground arith;
      key = ground arith;
      views = λ k. refl;
      buffer = refl;
      end = refl;
      order = refl;
    }
    | inr outside ↦
        let d' = publish d in
        let (runs, key) = load_run-runs e.key (load_tag_state e.key d'.states) in
        let (buffer, end, order) = publish_keeps d in
        rw outside record {
          runs = runs;
          key = key;
          views = λ k. new_run-view e d' k ∙ publish-view d k settled;
          buffer = buffer;
          end = end;
          order = order;
        }
  ]

  pub record Taken (e : Entry V) (d d' : Dedup V) (end : ℕ) : Type 0 where
    pub known : d'.run.prev_known ≡ true
    pub runs : d'.run.have_run ≡ d.run.have_run
    pub key : d'.run.cur_key ≡ d.run.cur_key
    pub state : run_state d'.run ≡ next_state e (run_state d.run)
    pub states : d'.states ≡ d.states
    pub buffer : d'.batch_buf ≡ d.batch_buf ++ append_serialized values e
    pub size : d'.length ≡ d.length + length (append_serialized values e)
    pub place : end ≡ d.length + length (append_serialized values e)
    pub order : d'.needs_sort ≡ (d.needs_sort || is_late e (run_state d.run))

  pub take_entry-Taken :
      (p : Policy) (e : Entry V) (d : Dedup V)
      → accepts p e (run_state d.run) ≡ true
      → Taken e d (take_entry values p e d).0 (take_entry values p e d).1
  take_entry-Taken p e d accepted = elim (Bool-cases d.run.prev_known) [
    | inr new ↦ rw new record {
      known = refl;
      runs = refl;
      key = refl;
      state = refl;
      states = refl;
      buffer = refl;
      size = refl;
      place = refl;
      order = refl;
    }
    | inl old ↦
        let accepted' : not (is_dropped values p d.run.cur_max d.run.cur_last e) ≡ true =
          rw old at accepted in
        let kept : is_dropped values p d.run.cur_max d.run.cur_last e ≡ false = ground arith in
        elim (Bool-cases (leb64 d.run.cur_max e.timestamp)) [
          | inl later ↦
              rw (old, kept, later)
                record {
                  known = refl;
                  runs = refl;
                  key = refl;
                  state = rw later refl;
                  states = refl;
                  buffer = refl;
                  size = refl;
                  place = refl;
                  order = refl;
                }
          | inr earlier ↦
              rw (old, kept, earlier)
                record {
                  known = refl;
                  runs = refl;
                  key = refl;
                  state = rw earlier refl;
                  states = refl;
                  buffer = refl;
                  size = refl;
                  place = refl;
                  order = refl;
                }
        ]
  ]

  pub take_entry-dropped :
      (p : Policy) (e : Entry V) (d : Dedup V)
      → accepts p e (run_state d.run) ≡ false
      → (take_entry values p e d ≡ (d, 0)) × (d.run.prev_known ≡ true)
  take_entry-dropped p e d refused = elim (Bool-cases d.run.prev_known) [
    | inr new ↦ let wrong : true ≡ false = rw new at refused in cc
    | inl old ↦
        let refused' : not (is_dropped values p d.run.cur_max d.run.cur_last e) ≡ false =
          rw old at refused in
        let out : is_dropped values p d.run.cur_max d.run.cur_last e ≡ true = ground arith in
        (rw (old, out) refl, old)
  ]
