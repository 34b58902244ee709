-- ===== src/Wal/Upkeep/Retries.antt =====
-- A write that fails has already changed the tag states of the log.
use qv_lite.Prelude.{
  ℕ, ◌≤◌, ◌<◌, ◌^◌, ◌≡◌, refl, sym, ap, subst, ◌∙◌, arith, Bool, true, false, not, if-true,
  if-false, Bool-cases, inl, inr, Option, none, some, List, [], ◌∷◌, append-nil, length, leb, ◌==◌,
  if◌then◌else◌,
}
use qv_lite.Wire.{leb64, ltb64, sub64}
use qv_lite.Wal.Frames.{Values, Entry, append_serialized}
use qv_lite.Wal.Layout.{records}
use qv_lite.Wal.States.{TagState, TagStates, load_tag_state}
use qv_lite.Wal.Policy.{Policy, has_policy, is_dropped, dedup_runs, written_entries}
use qv_lite.Wal.Policy.OneByOne.{accepts, next_state, accept_each}
use qv_lite.Wal.Policy.Accepted.{dedup_runs-accept_each, some_bytes}
use qv_lite.Wal.Files.{
  WalFile, write_failed, Disk, Writer, writer_works, writer_failed, writer_closed, put_out, Outcome,
  is_full, write_out, rotate_if_full, with_states, with_written, accept, commit, write_batch,
}
use qv_lite.Wal.Files.FastPath.{write_batch-open}

module _ {V : Type 0} (values : Values V) where
  -- What a write that fails leaves alone.
  record Failed (w w' : WalFile V) : Type 0 where
    states : w'.states ≡ w.states
    opened : w'.is_open ≡ w.is_open
    size : w'.last.length ≡ w.last.length
    rules : w'.policy ≡ w.policy
    limits : w'.config ≡ w.config

  put_out-Failed :
      (writer : Writer) (k : ℕ) (bytes : List ℕ) (w : WalFile V)
      → Failed w (put_out writer (some k) bytes w).0 × ((put_out writer (some k) bytes w).1 ≡ false)
  put_out-Failed writer_works k bytes w =
      (record { states = refl; opened = refl; size = refl; rules = refl; limits = refl }, refl)
  put_out-Failed writer_failed k bytes w =
      (record { states = refl; opened = refl; size = refl; rules = refl; limits = refl }, refl)
  put_out-Failed writer_closed k bytes w =
      (record { states = refl; opened = refl; size = refl; rules = refl; limits = refl }, refl)

  write_out-Failed :
      (k : ℕ) (bytes : List ℕ) (w : WalFile V)
      → 1 ≤ length bytes
      → Failed w (write_out (some k) bytes w).0 × ((write_out (some k) bytes w).1 ≡ false)
  write_out-Failed k bytes w h =
      let filled : (length bytes == 0) ≡ false = ground arith in
      let P : WalFile V × Bool → Type 0 = λ r. Failed w r.0 × (r.1 ≡ false) in
      subst P (sym (if-false _ _ filled)) (put_out-Failed w.writer k bytes w)

  -- An accepted point becomes the state of its tag when there is a policy.
  next_state-accepted :
      (p : Policy) (e : Entry V) (s : TagState V)
      → has_policy p ≡ true
      → accepts values p e s ≡ true
      → next_state values e s ≡ some (e.timestamp, e.value)
  next_state-accepted p e none h k = refl
  next_state-accepted p e (some (t, v)) h k = elim (Bool-cases (ltb64 e.timestamp t)) [
    | inl early ↦ let wrong : false ≡ true = rw (early, h) at k in cc
    | inr late ↦ let after : leb64 t e.timestamp ≡ true = ground (arith, late) in if-true _ _ after
  ]

  -- The same point again is too close to itself.
  dropped_again :
      (p : Policy) (e : Entry V)
      → e.timestamp < 2 ^ 64
      → ltb64 0 p.min_interval ≡ true
      → is_dropped values p e.timestamp e.value e ≡ true
  unfolding sub64
  dropped_again p e h positive =
      let same : ltb64 e.timestamp e.timestamp ≡ false = ground arith in
      let no_time : sub64 e.timestamp e.timestamp ≡ 0 = omega (arith, h) in
      rw (same, no_time, positive) refl

  commit-nothing :
      (disk : Disk) (states : TagStates V) (needs_sort : Bool) (len : ℕ) (w : WalFile V)
      → leb w.config.max_file_size len ≡ false
      → commit values disk states needs_sort [] len 0 [] w
        ≡ (accept values len [] (with_states states needs_sort w), 0, none)
  unfolding rotate_if_full
  commit-nothing disk states needs_sort len w h =
      ap (with_written 0)
        (if-false _ (accept values len [] (with_states states needs_sort w), none) h)

  one_entry :
      (p : Policy) (e : Entry V) (m : ℕ → TagState V)
      → accepts values p e (m e.key) ≡ true
      → ((accept_each values p (e ∷ []) m).entries ≡ e ∷ [])
        × ((accept_each values p (e ∷ []) m).states e.key ≡ next_state values e (m e.key))
  one_entry p e m h =
      let same_key : (e.key == e.key) ≡ true = ground arith in rw (h, same_key) (refl, refl)

  -- The first attempt.
  abbrev attempt : Disk → Entry V → WalFile V → Outcome V
  attempt disk e w = write_batch values disk (e ∷ []) w

  first_attempt :
      (disk : Disk) (k : ℕ) (e : Entry V) (w : WalFile V)
      → disk.failed_write ≡ some k
      → w.is_open ≡ true
      → has_policy w.policy ≡ true
      → is_full w ≡ false
      → accepts values w.policy e (load_tag_state e.key w.states) ≡ true
      → ((attempt disk e w).2 ≡ some write_failed)
        × (load_tag_state e.key (attempt disk e w).0.states ≡ some (e.timestamp, e.value))
        × ((attempt disk e w).0.is_open ≡ true)
        × ((attempt disk e w).0.last.length ≡ w.last.length)
        × ((attempt disk e w).0.policy ≡ w.policy)
        × ((attempt disk e w).0.config ≡ w.config)
  first_attempt disk k e w fails opened policy room accepted =
      let (ends, d) =
        dedup_runs values w.policy (e ∷ []) w.last.length w.last.needs_sort w.states in
      let m : ℕ → TagState V = λ j. load_tag_state j w.states in
      let new = written_entries w.last.length ends in
      let (written, bytes, size, order, states) =
        dedup_runs-accept_each values w.policy (e ∷ []) w.last.length w.last.needs_sort w.states in
      let (entries, state) = one_entry w.policy e m accepted in
      let buf = bytes ∙ ap (records values) entries ∙ append-nil (append_serialized values e) in
      let w1 = with_states d.states d.needs_sort w in
      let (kept, stops) =
        write_out-Failed k d.batch_buf w1 (omega (arith, ap length buf, some_bytes values e)) in
      let result : attempt disk e w
          ≡ ((write_out (some k) d.batch_buf w1).0, 0, some write_failed) =
        write_batch-open values disk (e ∷ []) w opened refl room
        ∙ ap
            (λ (o : Option ℕ).
              let r = write_out o d.batch_buf w1 in
              let rotated : Outcome V =
                with_written (length new) (rotate_if_full disk (accept values d.length new r.0)) in
              if r.1 then rotated else (r.0, 0, some write_failed))
            fails
        ∙ if-false _ _ stops in
      let stored : load_tag_state e.key d.states ≡ some (e.timestamp, e.value) =
        states e.key ∙ state ∙ next_state-accepted w.policy e (m e.key) policy accepted in
      subst
        (λ (o : Outcome V).
          (o.2 ≡ some write_failed)
          × (load_tag_state e.key o.0.states ≡ some (e.timestamp, e.value))
          × (o.0.is_open ≡ true)
          × (o.0.last.length ≡ w.last.length)
          × (o.0.policy ≡ w.policy)
          × (o.0.config ≡ w.config))
        (sym result)
        (
          refl,
          ap (load_tag_state e.key) kept.states ∙ stored,
          kept.opened ∙ opened,
          kept.size,
          kept.rules,
          kept.limits,
        )

  -- The point is already the state of its tag.
  second_attempt :
      (disk : Disk) (e : Entry V) (w : WalFile V)
      → w.is_open ≡ true
      → e.timestamp < 2 ^ 64
      → ltb64 0 w.policy.min_interval ≡ true
      → leb w.config.max_file_size w.last.length ≡ false
      → load_tag_state e.key w.states ≡ some (e.timestamp, e.value)
      → ((attempt disk e w).1 ≡ 0)
        × ((attempt disk e w).2 ≡ none)
        × ((attempt disk e w).0.last.bytes ≡ w.last.bytes)
  second_attempt disk e w opened small positive low state =
      let (ends, d) =
        dedup_runs values w.policy (e ∷ []) w.last.length w.last.needs_sort w.states in
      let m : ℕ → TagState V = λ j. load_tag_state j w.states in
      let (written, bytes, size, order, states) =
        dedup_runs-accept_each values w.policy (e ∷ []) w.last.length w.last.needs_sort w.states in
      let room : is_full w ≡ false = ground (arith, low) in
      let refused : accepts values w.policy e (m e.key) ≡ false =
        ap (accepts values w.policy e) state ∙ ap not (dropped_again w.policy e small positive) in
      let nothing : (accept_each values w.policy (e ∷ []) m).entries ≡ [] = rw refused refl in
      let same_size : d.length ≡ w.last.length =
        omega (arith, size, ap (λ l. length (records values l)) nothing) in
      let result : attempt disk e w
          ≡ (accept values d.length [] (with_states d.states d.needs_sort w), 0, none) =
        write_batch-open values disk (e ∷ []) w opened refl room
        ∙ ap (λ l. commit values disk d.states d.needs_sort d.batch_buf d.length (length l) l w)
            (written ∙ nothing)
        ∙ ap (λ b. commit values disk d.states d.needs_sort b d.length 0 [] w)
            (bytes ∙ ap (records values) nothing)
        ∙ commit-nothing disk d.states d.needs_sort d.length w
            (ap (leb w.config.max_file_size) same_size ∙ low) in
      subst (λ (o : Outcome V). (o.1 ≡ 0) × (o.2 ≡ none) × (o.0.last.bytes ≡ w.last.bytes))
        (sym result) (refl, refl, refl)

-- With a minimal interval, a point whose write fails is lost to a retry: the log has already noted it
-- as the last point of its tag, so that the same point is dropped as its own successor, and the second
-- attempt reports no error and writes nothing, although the disk works again.
-- The log is open and its last file below its size, and the point would have been accepted.
pub write_batch-retried :
    {V : Type 0} (values : Values V) (disk retry : Disk) (k : ℕ) (e : Entry V) (w : WalFile V)
    → disk.failed_write ≡ some k
    → w.is_open ≡ true
    → e.timestamp < 2 ^ 64
    → ltb64 0 w.policy.min_interval ≡ true
    → leb w.config.max_file_size w.last.length ≡ false
    → accepts values w.policy e (load_tag_state e.key w.states) ≡ true
    → ((write_batch values disk (e ∷ []) w).2 ≡ some write_failed)
      × ((write_batch values retry (e ∷ []) (write_batch values disk (e ∷ []) w).0).1 ≡ 0)
      × ((write_batch values retry (e ∷ []) (write_batch values disk (e ∷ []) w).0).2 ≡ none)
      × ((write_batch values retry (e ∷ []) (write_batch values disk (e ∷ []) w).0).0.last.bytes
          ≡ (write_batch values disk (e ∷ []) w).0.last.bytes)
write_batch-retried values disk retry k e w fails opened small positive low accepted =
    let policy : has_policy w.policy ≡ true = ground (arith, positive) in
    let room : is_full w ≡ false = ground (arith, low) in
    let (failed, state, opened', size, rules, limits) =
      first_attempt values disk k e w fails opened policy room accepted in
    let w' = (write_batch values disk (e ∷ []) w).0 in
    let positive' : ltb64 0 w'.policy.min_interval ≡ true =
      ap (λ p. ltb64 0 p.min_interval) rules ∙ positive in
    let low' : leb w'.config.max_file_size w'.last.length ≡ false =
      ap (leb w'.config.max_file_size) size
      ∙ ap (λ c. leb c.max_file_size w.last.length) limits
      ∙ low in
    let (count, error, bytes) =
      second_attempt values retry e w' opened' small positive' low' state in
    (failed, count, error, bytes)
