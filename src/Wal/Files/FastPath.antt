-- ===== src/Wal/Files/FastPath.antt =====
-- `WriteRuns` and `WriteBatch` give the same result.
use qv_lite.Prelude.{
  ℕ, ◌+◌, ◌≡◌, refl, sym, ap, ap₂, subst, ◌∙◌, arith, Bool, true, false, not, ◌&&◌, if-false,
  Bool-cases, inl, inr, Option, none, some, List, [], ◌∷◌, length, ltb, leb, ◌==◌, if◌then◌else◌,
}
use qv_lite.Wal.Frames.{Values, Entry}
use qv_lite.Wal.Layout.{records}
use qv_lite.Wal.States.{TagState, TagStates, no_states, load_tag_state}
use qv_lite.Wal.Policy.{has_policy, dedup_runs, written_entries}
use qv_lite.Wal.Policy.Accepted.{dedup_runs-accept_each}
use qv_lite.Wal.Files.{
  write_failed, WalFile, Disk, Writer, writer_works, writer_failed, writer_closed, has_failed,
  put_out, Rotation, rotated, open_fails, close_fails, rotation_of, next_file, Outcome, is_full,
  write_out, rotate_if_full, add_wal_file, with_states, with_written, accept, commit, write_batch,
  is_empty, TagRun, entries_of, take_runs, runs_start, write_runs,
}
use qv_lite.Wal.Files.Runs.{take_runs-Gathers, accept_each-all}

module _ {V : Type 0} (values : Values V) where
  abbrev set_states : TagStates V → WalFile V → WalFile V
  set_states s w = record w { states = s }

  abbrev set_both : TagStates V → Outcome V → Outcome V
  set_both s (w, n, error) = (set_states s w, n, error)

  -- Two outcomes differ at most in how the tag states are represented.
  abbrev pub IsSame : Outcome V → Outcome V → Type 0
  IsSame a b =
      (set_both no_states a ≡ set_both no_states b)
      × ((k : ℕ) → load_tag_state k a.0.states ≡ load_tag_state k b.0.states)

  next_file-states :
      (r : Rotation) (s : TagStates V) (w : WalFile V)
      → ((next_file r (set_states s w)).0 ≡ set_states s (next_file r w).0)
        × ((next_file r (set_states s w)).1 ≡ (next_file r w).1)
  next_file-states rotated s w = (refl, refl)
  next_file-states open_fails s w = (refl, refl)
  next_file-states close_fails s w = (refl, refl)

  rotate-states :
      (disk : Disk) (s : TagStates V) (w : WalFile V)
      → ((rotate_if_full disk (set_states s w)).0 ≡ set_states s (rotate_if_full disk w).0)
        × ((rotate_if_full disk (set_states s w)).1 ≡ (rotate_if_full disk w).1)
  unfolding rotate_if_full add_wal_file
  rotate-states disk s w = elim (Bool-cases (leb w.config.max_file_size w.last.length)) [
    | inr room ↦ rw room (refl, refl)
    | inl long ↦ elim (Bool-cases (has_failed w.writer)) [
      | inl fails ↦ rw (long, fails) (refl, refl)
      | inr writes ↦
          elim (Bool-cases (
            ltb 0 w.config.max_file_number
            && leb w.config.max_file_number (length w.complete + 1))) [
              | inl bounded ↦ rw (long, writes, bounded) (refl, refl)
              | inr free ↦
                  rw (long, writes, free)
                    (next_file-states (rotation_of w.writer disk.rotation) s w)
            ]
    ]
  ]

  abbrev set_first : TagStates V → WalFile V × Bool → WalFile V × Bool
  set_first s (w, b) = (set_states s w, b)

  put_out-states :
      (writer : Writer) (out : Option ℕ) (bytes : List ℕ) (s : TagStates V) (w : WalFile V)
      → put_out writer out bytes (set_states s w) ≡ set_first s (put_out writer out bytes w)
  put_out-states writer_works none bytes s w = refl
  put_out-states writer_works (some k) bytes s w = refl
  put_out-states writer_failed out bytes s w = refl
  put_out-states writer_closed out bytes s w = refl

  write_out-states :
      (out : Option ℕ) (bytes : List ℕ) (s : TagStates V) (w : WalFile V)
      → write_out out bytes (set_states s w) ≡ set_first s (write_out out bytes w)
  write_out-states out [] s w = refl
  write_out-states out (x ∷ xs) s w =
      let some_left : (length (x ∷ xs) == 0) ≡ false = ground arith in
      if-false _ _ some_left
      ∙ put_out-states w.writer out (x ∷ xs) s w
      ∙ ap (set_first s) (sym (if-false _ _ some_left))

  abbrev finish_write : Disk → ℕ → ℕ → List (Entry V) → WalFile V × Bool → Outcome V
  finish_write disk len count written (w, succeeds) =
      let rotated : Outcome V =
        with_written count (rotate_if_full disk (accept values len written w)) in
      if succeeds then rotated else (w, 0, some write_failed)

  finish_write-states :
      (disk : Disk) (len count : ℕ) (written : List (Entry V)) (s : TagStates V) (w : WalFile V)
      (b : Bool)
      → finish_write disk len count written (set_states s w, b)
        ≡ set_both s (finish_write disk len count written (w, b))
  finish_write-states disk len count written s w false = refl
  finish_write-states disk len count written s w true =
      let (files, errors) = rotate-states disk s (accept values len written w) in
      ap₂ (λ f e. (f, count, e)) files errors

  commit-states :
      (disk : Disk) (s t : TagStates V) (needs_sort : Bool) (buf : List ℕ) (len count : ℕ)
      (written : List (Entry V)) (w : WalFile V)
      → commit values disk s needs_sort buf len count written w
        ≡ set_both s (commit values disk t needs_sort buf len count written w)
  commit-states disk s t needs_sort buf len count written w =
      let w' = with_states t needs_sort w in
      let out = write_out disk.failed_write buf w' in
      ap (finish_write disk len count written) (write_out-states disk.failed_write buf s w')
      ∙ finish_write-states disk len count written s out.0 out.1

  IsSame-commit :
      (disk : Disk) (s t : TagStates V) (sort sort' : Bool) (buf buf' : List ℕ)
      (len len' count count' : ℕ) (es es' : List (Entry V)) (w : WalFile V)
      → sort ≡ sort'
      → buf ≡ buf'
      → len ≡ len'
      → count ≡ count'
      → es ≡ es'
      → ((k : ℕ) → load_tag_state k s ≡ load_tag_state k t)
      → IsSame
          (commit values disk s sort buf len count es w)
          (commit values disk t sort' buf' len' count' es' w)
  IsSame-commit disk s t sort sort' buf buf' len len' count count' es es' w h1 h2 h3 h4 h5 h =
      let c = commit values disk t sort' buf' len' count' es' w in
      let first : commit values disk s sort buf len count es w ≡ set_both s c =
        ap (λ b. commit values disk s b buf len count es w) h1
        ∙ ap (λ b. commit values disk s sort' b len count es w) h2
        ∙ ap (λ n. commit values disk s sort' buf' n count es w) h3
        ∙ ap (λ n. commit values disk s sort' buf' len' n es w) h4
        ∙ ap (λ l. commit values disk s sort' buf' len' count' l w) h5
        ∙ commit-states disk s t sort' buf' len' count' es' w in
      let second : c ≡ set_both t c = commit-states disk t t sort' buf' len' count' es' w in
      let both : IsSame (set_both s c) (set_both t c) = (refl, h) in
      subst (λ o. IsSame o c) (sym first) (subst (IsSame (set_both s c)) (sym second) both)

  -- Without a policy both collect the same bytes, counts and states.
  commits-IsSame :
      (disk : Disk) (runs : List (TagRun values)) (w : WalFile V)
      → has_policy w.policy ≡ false
      → let r = take_runs values runs (runs_start values w) in
        let es = entries_of values runs in
        let b = dedup_runs values w.policy es w.last.length w.last.needs_sort w.states in
        let written = written_entries w.last.length b.0 in
        IsSame (commit values disk r.states r.needs_sort r.batch_buf r.new_length r.written es w) (
          commit values disk b.1.states b.1.needs_sort b.1.batch_buf b.1.length
            (length written)
            written
            w)
  commits-IsSame disk runs w free =
      let es = entries_of values runs in
      let m : ℕ → TagState V = λ k. load_tag_state k w.states in
      let all = accept_each-all values w.policy es m free in
      let (g, states) =
        take_runs-Gathers values w.policy runs (runs_start values w) m free (λ k. refl) in
      let (written, bytes, size, order, states') =
        dedup_runs-accept_each values w.policy es w.last.length w.last.needs_sort w.states in
      let here = written ∙ all in
      IsSame-commit disk _ _ _ _ _ _ _ _ _ _ _ _ w (g.order ∙ sym order)
        (g.buffer ∙ sym (bytes ∙ ap (records values) all))
        (g.size ∙ sym (size ∙ ap (λ l. w.last.length + length (records values l)) all))
        (omega (arith, g.count, ap length here)) (sym here) (λ k. states k ∙ sym (states' k))

  pub write_batch-open :
      (disk : Disk) (es : List (Entry V)) (w : WalFile V)
      → w.is_open ≡ true
      → is_empty values es ≡ false
      → is_full w ≡ false
      → let b = dedup_runs values w.policy es w.last.length w.last.needs_sort w.states in
        let written = written_entries w.last.length b.0 in
        write_batch values disk es w
        ≡ commit values disk b.1.states b.1.needs_sort b.1.batch_buf b.1.length
            (length written)
            written
            w
  unfolding write_batch
  write_batch-open disk es w opened filled room =
      if-false _ _ (ap not opened) ∙ if-false _ _ filled ∙ if-false _ _ room

  pub write_runs-open :
      (disk : Disk) (run : TagRun values) (runs : List (TagRun values)) (w : WalFile V)
      → has_policy w.policy ≡ false
      → w.is_open ≡ true
      → is_full w ≡ false
      → let r = take_runs values (run ∷ runs) (runs_start values w) in
        write_runs values disk (run ∷ runs) w
        ≡ commit values disk r.states r.needs_sort r.batch_buf r.new_length r.written
            (entries_of values (run ∷ runs))
            w
  unfolding write_runs
  write_runs-open disk run runs w free opened room =
      if-false _ _ free ∙ if-false _ _ (ap not opened) ∙ if-false _ _ room

-- Points that `WriteRuns` gets as runs of tags have the effect that `WriteBatch` has on the same
-- points, on an open or closed log, a full one, and whatever the disk does: the same files and read
-- buffers, the same count and error, and the same state for each tag. There is at least one point.
pub write_runs-write_batch :
    {V : Type 0} (values : Values V) (disk : Disk) (runs : List (TagRun values)) (w : WalFile V)
    → is_empty values (entries_of values runs) ≡ false
    → IsSame values
        (write_runs values disk runs w)
        (write_batch values disk (entries_of values runs) w)
unfolding write_runs write_batch
write_runs-write_batch values disk [] w some_points = let wrong : true ≡ false = some_points in cc
write_runs-write_batch values disk (run ∷ runs) w some_points =
    elim (Bool-cases (has_policy w.policy)) [
      | inl policy ↦ rw policy (refl, λ k. refl)
      | inr free ↦ elim (Bool-cases w.is_open) [
        | inr closed ↦ rw (free, closed) (refl, λ k. refl)
        | inl opened ↦ elim (Bool-cases (is_full w)) [
          | inl full ↦ rw (free, opened, some_points, full) (refl, λ k. refl)
          | inr room ↦
              let fast = write_runs-open values disk run runs w free opened room in
              let slow =
                write_batch-open values disk (entries_of values (run ∷ runs)) w opened some_points
                  room in
              subst
                (λ o. IsSame values o (write_batch values disk (entries_of values (run ∷ runs)) w))
                (sym fast)
                (subst (IsSame values _) (sym slow)
                  (commits-IsSame values disk (run ∷ runs) w free))
        ]
      ]
    ]
