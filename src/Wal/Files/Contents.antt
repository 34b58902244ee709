-- ===== src/Wal/Files/Contents.antt =====
-- What the files and their read buffers hold: the entries that were accepted.
use qv_lite.Prelude.{
  ℕ, ◌+◌, ◌≡◌, refl, sym, ap, ap₂, subst, ◌∙◌, arith, Bool, true, false, not, ◌&&◌, ◌⊎◌, if-true,
  if-false, Bool-cases, inl, inr, Option, none, some, List, [], ◌∷◌, ◌++◌, append-nil, append_assoc,
  length, length-append, ltb, leb, ◌==◌, if◌then◌else◌,
}
use qv_lite.Wal.Frames.{Values, Entry, append_serialized}
use qv_lite.Wal.Layout.{records}
use qv_lite.Wal.Buffer.{ReadBuffer, new_wal_read_buffer, append_values}
use qv_lite.Wal.Buffer.Contents.{contents, concat, IsTidy, append_values-contents}
use qv_lite.Wal.States.{TagStates, load_tag_state}
use qv_lite.Wal.Policy.{dedup_runs}
use qv_lite.Wal.Policy.OneByOne.{accept_each}
use qv_lite.Wal.Policy.Accepted.{dedup_runs-accept_each}
use qv_lite.Wal.Files.{
  write_failed, File, WalFile, Disk, rotated, writer_works, has_failed, put_out, Outcome, is_full,
  write_out, next_buffer, fits_spare, add_wal_file, rotate_if_full, with_written, with_states,
  accept, commit, write_batch,
}

module _ {V : Type 0} (values : Values V) where
  -- A file and its read buffer hold the entries `es`; a closed buffer holds anything.
  pub record Holds (closed : Bool) (f : File V) (es : List (Entry V)) : Type 0 where
    pub bytes : f.bytes ≡ records values es
    pub size : f.length ≡ length f.bytes
    pub tidy : IsTidy f.buffer
    pub cached : closed ≡ false → contents f.buffer ≡ es

  abbrev pub HoldsEach : Bool → List (File V) → List (List (Entry V)) → Type 0
  HoldsEach closed [] [] = Unit
  HoldsEach closed [] (es ∷ ess) = ⊥
  HoldsEach closed (f ∷ fs) [] = ⊥
  HoldsEach closed (f ∷ fs) (es ∷ ess) = Holds closed f es × HoldsEach closed fs ess

  abbrev pub IsSpare : Option (ReadBuffer V) → Type 0
  IsSpare none = Unit
  IsSpare (some b) = IsTidy b × (contents b ≡ [])

  -- The complete files hold the entries `ess`, and the last one `es`.
  pub record IsLog (w : WalFile V) (ess : List (List (Entry V))) (es : List (Entry V))
      : Type 0 where
    pub old : HoldsEach w.config.close_buffer w.complete ess
    pub here : Holds w.config.close_buffer w.last es
    pub spare : IsSpare w.spare

  pub records-append :
      (xs ys : List (Entry V)) → records values (xs ++ ys) ≡ records values xs ++ records values ys
  records-append [] ys = refl
  records-append (x ∷ xs) ys =
      ap (λ l. append_serialized values x ++ l) (records-append xs ys)
      ∙ sym (append_assoc (append_serialized values x) (records values xs) (records values ys))

  pub concat-append_one :
      (ess : List (List (Entry V))) (es : List (Entry V))
      → concat (ess ++ (es ∷ [])) ≡ concat ess ++ es
  concat-append_one [] es = append-nil es
  concat-append_one (fs ∷ ess) es =
      ap (λ l. fs ++ l) (concat-append_one ess es) ∙ sym (append_assoc fs (concat ess) es)

  pub HoldsEach-append_one :
      (closed : Bool) (fs : List (File V)) (ess : List (List (Entry V))) (f : File V)
      (es : List (Entry V))
      → HoldsEach closed fs ess
      → Holds closed f es
      → HoldsEach closed (fs ++ (f ∷ [])) (ess ++ (es ∷ []))
  HoldsEach-append_one closed [] [] f es h k = (k, tt)
  HoldsEach-append_one closed [] (gs ∷ ess) f es h k = absurd h
  HoldsEach-append_one closed (g ∷ fs) [] f es h k = absurd h
  HoldsEach-append_one closed (g ∷ fs) (gs ∷ ess) f es (h, hs) k =
      (h, HoldsEach-append_one closed fs ess f es hs k)

  pub new_wal_read_buffer-IsTidy :
      (cap : ℕ)
      → IsTidy (new_wal_read_buffer {V = V} cap) × (contents (new_wal_read_buffer {V = V} cap) ≡ [])
  new_wal_read_buffer-IsTidy cap =
      (record { active = omega arith; spare = tt; counted = refl }, refl)

  next_buffer-blank :
      (cap : ℕ) (spare : Option (ReadBuffer V))
      → IsSpare spare
      → IsTidy (next_buffer cap spare)
        × (contents (next_buffer cap spare) ≡ [])
        × IsSpare (if fits_spare cap spare then none else spare)
  next_buffer-blank cap none h =
      let (tidy, blank) = new_wal_read_buffer-IsTidy cap in (tidy, blank, tt)
  next_buffer-blank cap (some b) (tidy, blank) =
      let (tidy', blank') = new_wal_read_buffer-IsTidy cap in
      elim (Bool-cases (b.chunk_cap == cap)) [
        | inl fits ↦ rw fits (tidy, blank, tt)
        | inr other ↦ rw other (tidy', blank', (tidy, blank))
      ]

  -- A log with all the entries `all`, in its files in this order.
  abbrev pub IsLogOf : WalFile V → List (Entry V) → Type 0
  IsLogOf w all =
      (ess : List (List (Entry V))) × (es : List (Entry V)) × IsLog w ess es
      × (concat ess ++ es ≡ all)

  add_wal_file-IsLogOf :
      (disk : Disk) (w : WalFile V) (all : List (Entry V))
      → disk.rotation ≡ rotated
      → w.writer ≡ writer_works
      → IsLogOf w all
      → IsLogOf (add_wal_file disk w).0 all × ((add_wal_file disk w).1 ≡ none)
  unfolding add_wal_file
  add_wal_file-IsLogOf disk w all works writes (ess, es, log, split) =
      let (tidy, blank, spare) =
        next_buffer-blank w.config.max_buffer_batch_size w.spare log.spare in
      rw (writes, works)
        (
          (
            ess ++ (es ∷ []),
            [],
            record {
              old =
                  HoldsEach-append_one w.config.close_buffer w.complete ess w.last es log.old
                    log.here;
              here = record { bytes = refl; size = refl; tidy = tidy; cached = λ _. blank };
              spare = spare;
            },
            append-nil (concat (ess ++ (es ∷ []))) ∙ concat-append_one ess es ∙ split,
          ),
          refl,
        )

  rotate_if_full-cases :
      (disk : Disk) (w : WalFile V)
      → w.writer ≡ writer_works
      → (rotate_if_full disk w ≡ (w, none)) ⊎ (rotate_if_full disk w ≡ add_wal_file disk w)
  unfolding rotate_if_full
  rotate_if_full-cases disk w works =
      let writes = ap has_failed works in
      elim (Bool-cases (leb w.config.max_file_size w.last.length)) [
        | inr room ↦ inl (if-false _ _ room)
        | inl long ↦
            elim (Bool-cases (
              ltb 0 w.config.max_file_number
              && leb w.config.max_file_number (length w.complete + 1))) [
                | inl bounded ↦ inl (if-true _ _ long ∙ if-false _ _ writes ∙ if-true _ _ bounded)
                | inr free ↦ inr (if-true _ _ long ∙ if-false _ _ writes ∙ if-false _ _ free)
              ]
      ]

  rotate_if_full-IsLogOf :
      (disk : Disk) (w : WalFile V) (all : List (Entry V))
      → disk.rotation ≡ rotated
      → w.writer ≡ writer_works
      → IsLogOf w all
      → IsLogOf (rotate_if_full disk w).0 all × ((rotate_if_full disk w).1 ≡ none)
  rotate_if_full-IsLogOf disk w all works writes log = elim (rotate_if_full-cases disk w writes) [
    | inl same ↦ subst (λ r. IsLogOf r.0 all × (r.1 ≡ none)) (sym same) (log, refl)
    | inr added ↦
        subst (λ r. IsLogOf r.0 all × (r.1 ≡ none)) (sym added)
          (add_wal_file-IsLogOf disk w all works writes log)
  ]

  write_out-all :
      (failed : Option ℕ) (bytes : List ℕ) (w : WalFile V)
      → failed ≡ none
      → w.writer ≡ writer_works
      → write_out failed bytes w
        ≡ (record w { last = record w.last { bytes = w.last.bytes ++ bytes } }, true)
  write_out-all failed [] w works writes =
      ap (λ b. (record w { last = record w.last { bytes = b } }, true))
        (sym (append-nil w.last.bytes))
  write_out-all failed (x ∷ xs) w works writes =
      let some_bytes : (length (x ∷ xs) == 0) ≡ false = ground arith in
      if-false _ _ some_bytes ∙ ap₂ (λ s o. put_out s o (x ∷ xs) w) writes works

  -- The last file after the points `new`.
  accept-IsLogOf :
      (w : WalFile V) (bytes : List ℕ) (new_length : ℕ) (new all : List (Entry V))
      → bytes ≡ records values new
      → new_length ≡ w.last.length + length (records values new)
      → IsLogOf w all
      → IsLogOf
          (accept values new_length new
            (record w { last = record w.last { bytes = w.last.bytes ++ bytes } }))
          (all ++ new)
  accept-IsLogOf w bytes new_length new all hb hl (ess, es, log, split) =
      let here = log.here in
      let (tidy, more) = append_values-contents values new w.last.buffer here.tidy in
      let joined : w.last.bytes ++ bytes ≡ records values (es ++ new) =
        ap (λ l. l ++ bytes) here.bytes
        ∙ ap (λ l. records values es ++ l) hb
        ∙ sym (records-append es new) in
      let size : new_length ≡ length (w.last.bytes ++ bytes) =
        omega (arith, hl, here.size, length-append w.last.bytes bytes, ap length hb) in
      let order = sym (append_assoc (concat ess) es new) ∙ ap (λ l. l ++ new) split in
      let closed = w.config.close_buffer in
      let b = w.last.buffer in
      elim (Bool-cases closed) [
        | inl off ↦ (
          ess,
          es ++ new,
          record {
            old = log.old;
            here = record {
              bytes = joined;
              size = size;
              tidy = subst IsTidy (sym (if-true b (append_values values new b) off)) here.tidy;
              cached = λ on. let wrong : true ≡ false = sym off ∙ on in cc;
            };
            spare = log.spare;
          },
          order,
        )
        | inr on ↦ (
          ess,
          es ++ new,
          record {
            old = log.old;
            here = record {
              bytes = joined;
              size = size;
              tidy = subst IsTidy (sym (if-false b (append_values values new b) on)) tidy;
              cached = λ _.
                  ap contents (if-false b (append_values values new b) on)
                  ∙ more
                  ∙ ap (λ l. l ++ new) (here.cached on);
            };
            spare = log.spare;
          },
          order,
        )
      ]

  -- An operation on a log of `before` succeeds, writes `count` points, and leaves a log of `after`.
  abbrev pub Succeeds : Outcome V → ℕ → List (Entry V) → Type 0
  Succeeds o count after = IsLogOf o.0 after × (o.1 ≡ count) × (o.2 ≡ none)

  pub commit-Succeeds :
      (disk : Disk) (states : TagStates V) (needs_sort : Bool) (batch_buf : List ℕ)
      (new_length count : ℕ) (new all : List (Entry V)) (w : WalFile V)
      → disk.failed_write ≡ none
      → disk.rotation ≡ rotated
      → w.writer ≡ writer_works
      → batch_buf ≡ records values new
      → new_length ≡ w.last.length + length (records values new)
      → IsLogOf w all
      → Succeeds
          (commit values disk states needs_sort batch_buf new_length count new w)
          count
          (all ++ new)
  commit-Succeeds disk states needs_sort batch_buf new_length count new all w works rotates writes
        hb hl (ess, es, log, split) =
      let w1 = with_states states needs_sort w in
      let here = log.here in
      let log1 : IsLogOf w1 all = (
        ess,
        es,
        record {
          old = log.old;
          here = record {
            bytes = here.bytes;
            size = here.size;
            tidy = here.tidy;
            cached = here.cached;
          };
          spare = log.spare;
        },
        split,
      ) in
      let out = write_out-all disk.failed_write batch_buf w1 works writes in
      let log2 = accept-IsLogOf w1 batch_buf new_length new all hb hl log1 in
      let (log3, fine) =
        rotate_if_full-IsLogOf disk
          (accept values new_length new
            (record w1 { last = record w1.last { bytes = w1.last.bytes ++ batch_buf } }))
          (all ++ new) rotates writes log2 in
      subst
        (λ r.
          Succeeds
            (if r.1
              then with_written count (rotate_if_full disk (accept values new_length new r.0))
              else (r.0, 0, some write_failed))
            count (all ++ new))
        (sym out) (log3, refl, fine)

-- On an open log of the points `all` that has room, a batch of points adds to the log, in their order,
-- those that the policy accepts, counts them, and gives no error, whether it fills the last file and
-- begins a new one or not: every file's bytes and length and, unless it is closed, its read buffer
-- are again those of its points. The disk works.
pub write_batch-accepts :
    {V : Type 0} (values : Values V) (disk : Disk) (batch all : List (Entry V)) (w : WalFile V)
    → disk.failed_write ≡ none
    → disk.rotation ≡ rotated
    → w.writer ≡ writer_works
    → w.is_open ≡ true
    → is_full w ≡ false
    → IsLogOf values w all
    → Succeeds values
        (write_batch values disk batch w)
        (length (accept_each values w.policy batch (λ k. load_tag_state k w.states)).entries)
        (all ++ (accept_each values w.policy batch (λ k. load_tag_state k w.states)).entries)
unfolding write_batch
write_batch-accepts values disk [] all w works rotates writes opened room log =
    subst (λ o. Succeeds values o 0 (all ++ [])) (sym (if-false _ _ (ap not opened)))
      (subst (IsLogOf values w) (sym (append-nil all)) log, refl, refl)
write_batch-accepts values disk (e ∷ es) all w works rotates writes opened room log =
    let batch = e ∷ es in
    let r = dedup_runs values w.policy batch w.last.length w.last.needs_sort w.states in
    let a = accept_each values w.policy batch (λ k. load_tag_state k w.states) in
    let (written, bytes, size, order, states) =
      dedup_runs-accept_each values w.policy batch w.last.length w.last.needs_sort w.states in
    let done =
      commit-Succeeds values disk r.1.states r.1.needs_sort r.1.batch_buf r.1.length
        (length a.entries) a.entries all w works rotates writes bytes size log in
    subst (λ o. Succeeds values o (length a.entries) (all ++ a.entries))
      (sym (
        if-false _ _ (ap not opened)
        ∙ if-false _ _ room
        ∙ ap
            (λ l.
              commit values disk r.1.states r.1.needs_sort r.1.batch_buf r.1.length (length l) l w)
            written))
      done
