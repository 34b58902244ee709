-- ===== src/Wal/Reads/Modes.antt =====
-- A log is read alike from its read buffers and from its files.
use qv_lite.Prelude.{
  ℕ, zero, suc, ◌≡◌, refl, sym, ap, subst, ◌∙◌, Bool, true, false, if-true, if-false, Bool-cases,
  inl, inr, Option, none, some, List, [], ◌∷◌, ◌++◌, append-nil, append_assoc, map, take, All,
  All-split, All-append, if◌then◌else◌,
}
use qv_lite.Wal.Frames.{Values, Entry, for_each_wal_file}
use qv_lite.Wal.Layout.{IsLossless, IsSized}
use qv_lite.Wal.Recovery.{with_offsets, for_each_wal_file-records}
use qv_lite.Wal.Buffer.{Point, each_entry, match_entries}
use qv_lite.Wal.Buffer.Contents.{concat, match-append, append_matching-contents, for_each-contents}
use qv_lite.Wal.Files.{File, WalFile}
use qv_lite.Wal.Files.Contents.{
  Holds, HoldsEach, IsLog, IsLogOf, HoldsEach-append_one, concat-append_one,
}
use qv_lite.Wal.Reads.{
  entries_only, sorted, snapshot, match_buffers, match_files, read_by_time, visit, walk_files,
  walk_buffers, for_each_complete_file,
}

module _ {V : Type 0} where
  -- What a flush does with the entries of the files, each with its offset.
  abbrev walk_lists :
      {S : Type 0}
      → (ℕ → Entry V → ℕ → S → S × Bool)
      → ℕ
      → List (List (Entry V × ℕ))
      → S
      → S × ℕ × Bool
  walk_lists fc i [] s = (s, i, true)
  walk_lists fc i (es ∷ ess) s =
      let (s', on) = visit (fc i) es s in
      let later = walk_lists fc (suc i) ess s' in if on then later else (s', i, true)

  -- The first lists, or all of them when the limit is negative.
  abbrev first_lists : Option ℕ → List (List (Entry V)) → List (List (Entry V))
  first_lists none ess = ess
  first_lists (some limit) ess = take limit ess

  abbrev without_offset : Entry V → Entry V × ℕ
  without_offset e = (e, 0)

  All-concat-take :
      (Q : Entry V → Type 0) (n : ℕ) (ess : List (List (Entry V)))
      → All Q (concat ess)
      → All Q (concat (take n ess))
  All-concat-take Q zero ess h = tt
  All-concat-take Q (suc n) [] h = h
  All-concat-take Q (suc n) (es ∷ ess) h =
      let (here, later) = All-split Q es (concat ess) h in
      All-append Q es (concat (take n ess)) here (All-concat-take Q n ess later)

  All-first_lists :
      (Q : Entry V → Type 0) (limit : Option ℕ) (ess : List (List (Entry V)))
      → All Q (concat ess)
      → All Q (concat (first_lists limit ess))
  All-first_lists Q none ess h = h
  All-first_lists Q (some n) ess h = All-concat-take Q n ess h

-- The offset of an entry in the file, behind its record, or 0 when it comes from a read buffer.
abbrev marked : {V : Type 0} → Values V → Bool → List (List (Entry V)) → List (List (Entry V × ℕ))
marked values true ess = map (λ es. with_offsets values es 0) ess
marked values false ess = map (map without_offset) ess

module _ {V : Type 0} (values : Values V) (lossless : IsLossless values) where
  entries_only-with_offsets :
      (es : List (Entry V)) (offset : ℕ) → entries_only (with_offsets values es offset) ≡ es
  entries_only-with_offsets [] offset = refl
  entries_only-with_offsets (e ∷ es) offset = ap (λ l. e ∷ l) (entries_only-with_offsets es _)

  file_records :
      (closed : Bool) (f : File V) (es : List (Entry V))
      → Holds values closed f es
      → All (IsSized values) es
      → for_each_wal_file values f.bytes ≡ (with_offsets values es 0, true)
  file_records closed f es h s =
      ap (for_each_wal_file values) h.bytes ∙ for_each_wal_file-records values lossless es s

  match_files-concat :
      (closed : Bool) (tag from to : ℕ) (fs : List (File V)) (ess : List (List (Entry V)))
      (points : List (Point V))
      → HoldsEach values closed fs ess
      → All (IsSized values) (concat ess)
      → match_files values tag from to fs (points, true)
        ≡ (points ++ match_entries tag from to (concat ess), true)
  match_files-concat closed tag from to [] [] points h s =
      ap (λ l. (l, true)) (sym (append-nil points))
  match_files-concat closed tag from to [] (es ∷ ess) points h s = absurd h
  match_files-concat closed tag from to (f ∷ fs) [] points h s = absurd h
  match_files-concat closed tag from to (f ∷ fs) (es ∷ ess) points (h, hs) s =
      let (here, later) = All-split (IsSized values) es (concat ess) s in
      let found = match_entries tag from to es in
      ap
        (λ r.
          match_files values tag from to fs
            (points ++ match_entries tag from to (entries_only r.0), r.1))
        (file_records closed f es h here)
      ∙ ap (λ l. match_files values tag from to fs (points ++ match_entries tag from to l, true))
          (entries_only-with_offsets es 0)
      ∙ match_files-concat closed tag from to fs ess (points ++ found) hs later
      ∙ ap (λ l. (l, true))
          (append_assoc points found (match_entries tag from to (concat ess))
            ∙ ap (λ l. points ++ l) (sym (match-append tag from to es (concat ess))))

  match_buffers-concat :
      (tag from to : ℕ) (fs : List (File V)) (ess : List (List (Entry V))) (points : List (Point V))
      → HoldsEach values false fs ess
      → match_buffers tag from to fs points ≡ points ++ match_entries tag from to (concat ess)
  match_buffers-concat tag from to [] [] points h = sym (append-nil points)
  match_buffers-concat tag from to [] (es ∷ ess) points h = absurd h
  match_buffers-concat tag from to (f ∷ fs) [] points h = absurd h
  match_buffers-concat tag from to (f ∷ fs) (es ∷ ess) points (h, hs) =
      let found = match_entries tag from to es in
      ap (match_buffers tag from to fs) (
        append_matching-contents tag from to f.buffer points
        ∙ ap (λ l. points ++ match_entries tag from to l) (h.cached refl))
      ∙ match_buffers-concat tag from to fs ess (points ++ found) hs
      ∙ append_assoc points found (match_entries tag from to (concat ess))
      ∙ ap (λ l. points ++ l) (sym (match-append tag from to es (concat ess)))

  HoldsEach-take :
      (closed : Bool) (n : ℕ) (fs : List (File V)) (ess : List (List (Entry V)))
      → HoldsEach values closed fs ess
      → HoldsEach values closed (take n fs) (take n ess)
  HoldsEach-take closed zero fs ess h = tt
  HoldsEach-take closed (suc n) [] [] h = h
  HoldsEach-take closed (suc n) [] (es ∷ ess) h = absurd h
  HoldsEach-take closed (suc n) (f ∷ fs) [] h = absurd h
  HoldsEach-take closed (suc n) (f ∷ fs) (es ∷ ess) (h, hs) = (h, HoldsEach-take closed n fs ess hs)

  HoldsEach-snapshot :
      (closed : Bool) (limit : Option ℕ) (fs : List (File V)) (ess : List (List (Entry V)))
      → HoldsEach values closed fs ess
      → HoldsEach values closed (snapshot values limit fs) (first_lists limit ess)
  HoldsEach-snapshot closed none fs ess h = h
  HoldsEach-snapshot closed (some n) fs ess h = HoldsEach-take closed n fs ess h

  visit-without_offset :
      {S : Type 0} (fn : Entry V → ℕ → S → S × Bool) (es : List (Entry V)) (s : S)
      → visit fn (map without_offset es) s ≡ each_entry (λ e. fn e 0) es s
  unfolding each_entry
  visit-without_offset fn [] s = refl
  visit-without_offset fn (e ∷ es) s =
      ap (λ r. if (fn e 0 s).1 then r else ((fn e 0 s).0, false))
        (visit-without_offset fn es (fn e 0 s).0)

  walk_files-lists :
      {S : Type 0} (closed : Bool) (fc : ℕ → Entry V → ℕ → S → S × Bool) (i : ℕ)
      (fs : List (File V)) (ess : List (List (Entry V))) (s : S)
      → HoldsEach values closed fs ess
      → All (IsSized values) (concat ess)
      → walk_files values fc i fs s ≡ walk_lists fc i (marked values true ess) s
  walk_files-lists closed fc i [] [] s h k = refl
  walk_files-lists closed fc i [] (es ∷ ess) s h k = absurd h
  walk_files-lists closed fc i (f ∷ fs) [] s h k = absurd h
  walk_files-lists closed fc i (f ∷ fs) (es ∷ ess) s (h, hs) k =
      let (here, later) = All-split (IsSized values) es (concat ess) k in
      let v = visit (fc i) (with_offsets values es 0) s in
      ap
        (λ r.
          let v = visit (fc i) r.0 s in
          if v.1
          then if r.1 then walk_files values fc (suc i) fs v.0 else (v.0, i, false)
          else (v.0, i, true))
        (file_records closed f es h here)
      ∙ ap (λ r. if v.1 then r else (v.0, i, true))
          (walk_files-lists closed fc (suc i) fs ess v.0 hs later)

  walk_buffers-lists :
      {S : Type 0} (fc : ℕ → Entry V → ℕ → S → S × Bool) (i : ℕ) (fs : List (File V))
      (ess : List (List (Entry V))) (s : S)
      → HoldsEach values false fs ess
      → walk_buffers values fc i fs s ≡ walk_lists fc i (marked values false ess) s
  walk_buffers-lists fc i [] [] s h = refl
  walk_buffers-lists fc i [] (es ∷ ess) s h = absurd h
  walk_buffers-lists fc i (f ∷ fs) [] s h = absurd h
  walk_buffers-lists fc i (f ∷ fs) (es ∷ ess) s (h, hs) =
      let v = visit (fc i) (map without_offset es) s in
      ap (λ r. if r.1 then walk_buffers values fc (suc i) fs r.0 else (r.0, i, true))
        (for_each-contents (λ e. fc i e 0) f.buffer s
          ∙ ap (λ l. each_entry (λ e. fc i e 0) l s) (h.cached refl)
          ∙ sym (visit-without_offset (fc i) es s))
      ∙ ap (λ r. if v.1 then r else (v.0, i, true)) (walk_buffers-lists fc (suc i) fs ess v.0 hs)

-- Whether the read buffers are closed or not, a query of a log by time gives the points of its tag and
-- range among all those that the log holds, in the order of `sort` if there are any, and no error.
-- The values' binary form is recognised, decoded and not empty, and the records fit their fields.
pub read_by_time-IsLogOf :
    {V : Type 0} (values : Values V) (sort : List (Point V) → List (Point V)) (tag from to : ℕ)
    (w : WalFile V) (all : List (Entry V))
    → IsLossless values
    → IsLogOf values w all
    → All (IsSized values) all
    → read_by_time values sort tag from to w ≡ (sorted sort (match_entries tag from to all), true)
unfolding read_by_time
read_by_time-IsLogOf values sort tag from to w all lossless (ess, es, log, split) sized =
    let files = w.complete ++ (w.last ∷ []) in
    let whole = concat-append_one values ess es ∙ split in
    let held =
      HoldsEach-append_one values w.config.close_buffer w.complete ess w.last es log.old log.here in
    let found =
      match_files-concat values lossless w.config.close_buffer tag from to files (ess ++ (es ∷ []))
        [] held (subst (All (IsSized values)) (sym whole) sized) in
    elim (Bool-cases w.config.close_buffer) [
      | inl closed ↦
          if-true _ _ closed
          ∙ ap (λ r. (sorted sort r.0, r.1)) found
          ∙ ap (λ l. (sorted sort (match_entries tag from to l), true)) whole
      | inr cached ↦
          if-false _ _ cached
          ∙ ap (λ l. (sorted sort l, true))
              (match_buffers-concat values lossless tag from to files (ess ++ (es ∷ [])) []
                (subst (λ c. HoldsEach values c files (ess ++ (es ∷ []))) cached held))
          ∙ ap (λ l. (sorted sort (match_entries tag from to l), true)) whole
    ]

-- A flush hands the entries of its complete files, of the first `limit` ones or of all when the limit
-- is negative, to the callback, file after file and in the order of each, until it asks to stop, and
-- counts the files that are done, without an error. An entry comes with the offset behind its record
-- when the flush walks the files, and with 0 when it walks the read buffers.
-- The values' binary form is recognised, decoded and not empty, and the records fit their fields.
pub for_each_complete_file-lists :
    {V S : Type 0} (values : Values V) (limit : Option ℕ) (fc : ℕ → Entry V → ℕ → S → S × Bool)
    (w : WalFile V) (s : S) (ess : List (List (Entry V))) (es : List (Entry V))
    → IsLossless values
    → IsLog values w ess es
    → All (IsSized values) (concat ess)
    → for_each_complete_file values limit fc w s
      ≡ walk_lists fc 0 (marked values w.config.close_buffer (first_lists limit ess)) s
unfolding for_each_complete_file
for_each_complete_file-lists values limit fc w s ess es lossless log sized =
    let closed = w.config.close_buffer in
    let held = HoldsEach-snapshot values lossless closed limit w.complete ess log.old in
    let files = snapshot values limit w.complete in
    let lists = first_lists limit ess in
    elim (Bool-cases closed) [
      | inl files_only ↦
          if-true _ _ files_only
          ∙ walk_files-lists values lossless closed fc 0 files lists s held
              (All-first_lists (IsSized values) limit ess sized)
          ∙ sym (ap (λ c. walk_lists fc 0 (marked values c lists) s) files_only)
      | inr cached ↦
          if-false _ _ cached
          ∙ walk_buffers-lists values lossless fc 0 files lists s
              (subst (λ c. HoldsEach values c files lists) cached held)
          ∙ sym (ap (λ c. walk_lists fc 0 (marked values c lists) s) cached)
    ]
