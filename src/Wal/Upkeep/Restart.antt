-- ===== src/Wal/Upkeep/Restart.antt =====
-- A log that is opened again, and one whose old files are removed.
use qv_lite.Prelude.{
  ℕ, zero, suc, ◌+◌, ◌<◌, ◌≡◌, refl, sym, ap, subst, ◌∙◌, arith, Bool, not, ◌&&◌, if-true, if-false,
  Bool-cases, inl, inr, Option, none, some, List, [], ◌∷◌, ◌++◌, append-nil, All, All-split, map,
  length, take, drop, drop_past, leb, ◌==◌, if◌then◌else◌,
}
use qv_lite.Wal.Frames.{Values, Entry, Loaded, append_serialized}
use qv_lite.Wal.Layout.{IsLossless, IsSized, records}
use qv_lite.Wal.Recovery.{open_wal_file-front}
use qv_lite.Wal.Buffer.{ReadBuffer, new_wal_read_buffer, max_retained_wal_read_buffer_bytes}
use qv_lite.Wal.Buffer.Contents.{
  concat, contents, IsTidy, append_values-contents, reset_for_reuse-IsTidy,
}
use qv_lite.Wal.Policy.{Policy}
use qv_lite.Wal.Files.{Config, File, WalFile}
use qv_lite.Wal.Files.Contents.{
  Holds, HoldsEach, IsSpare, IsLog, IsLogOf, new_wal_read_buffer-IsTidy,
}
use qv_lite.Wal.Upkeep.{
  TagMap, set_default_values, recover_opened, recover_file, recover_files, new_wal_file,
  last_buffer, reset_spare, is_none, truncate,
}

module _ {V : Type 0} (values : Values V) where
  recover_opened-Holds :
      (c : Config) (es : List (Entry V)) (loaded : Loaded values) (m : TagMap V)
      → loaded.entries ≡ es
      → loaded.offset ≡ length (records values es)
      → Holds values c.close_buffer (recover_opened values c (records values es, loaded) m).0 es
  recover_opened-Holds c es loaded m entries offset =
      let cap = c.max_buffer_batch_size in
      let b : ReadBuffer V = new_wal_read_buffer cap in
      let (tidy, blank) = new_wal_read_buffer-IsTidy values cap in
      let (tidy', all) = append_values-contents values loaded.entries b tidy in
      record {
        bytes = refl;
        size = offset;
        tidy = elim (Bool-cases c.close_buffer) [
          | inl closed ↦ subst IsTidy (sym (if-true _ _ closed)) tidy
          | inr cached ↦ subst IsTidy (sym (if-false _ _ cached)) tidy'
        ];
        cached = λ cached.
            ap contents (if-false _ _ cached) ∙ all ∙ ap (λ l. l ++ loaded.entries) blank ∙ entries;
      }

  recover_file-Holds :
      (c : Config) (es : List (Entry V)) (e : Entry V) (k : ℕ) (m : TagMap V)
      → IsLossless values
      → All (IsSized values) es
      → IsSized values e
      → k < length (append_serialized values e)
      → Holds values c.close_buffer
          (recover_file values c (records values es ++ take k (append_serialized values e)) m).0
          es
  recover_file-Holds c es e k m lossless ss s hk =
      let (ending, opened) = open_wal_file-front values es e k lossless ss s hk in
      subst (λ r. Holds values c.close_buffer (recover_opened values c r m).0 es) (sym opened)
        (recover_opened-Holds c es
          (record { entries = es; offset = length (records values es); ending = ending }) m refl
          refl)

  recover_files-HoldsEach :
      (c : Config) (ess : List (List (Entry V))) (e : Entry V) (m : TagMap V)
      → IsLossless values
      → All (IsSized values) (concat ess)
      → IsSized values e
      → 0 < length (append_serialized values e)
      → HoldsEach values c.close_buffer (recover_files values c (map (records values) ess) m).0 ess
  recover_files-HoldsEach c [] e m lossless ss s h = tt
  recover_files-HoldsEach c (es ∷ ess) e m lossless ss s h =
      let (here, later) = All-split (IsSized values) es (concat ess) ss in
      let whole = append-nil (records values es) in
      let m' = (recover_file values c (records values es) m).1 in
      (
        subst (λ b. Holds values c.close_buffer (recover_file values c b m).0 es) whole
            (recover_file-Holds c es e 0 m lossless here s h),
        recover_files-HoldsEach c ess e m' lossless later s h,
      )

-- A log that is opened again holds what its files hold: all the entries of the complete files and of
-- the newest one, in their order, whether a crash has torn the last record of the newest file or not,
-- and every file's length, bytes and read buffer agree again.
-- The values' binary form is recognised, decoded and not empty, and the records fit their fields.
pub new_wal_file-IsLogOf :
    {V : Type 0} (values : Values V) (policy : Policy) (config : Config)
    (ess : List (List (Entry V))) (es : List (Entry V)) (e : Entry V) (k : ℕ)
    → IsLossless values
    → All (IsSized values) (concat ess)
    → All (IsSized values) es
    → IsSized values e
    → k < length (append_serialized values e)
    → IsLogOf values
        (new_wal_file values policy config
          (map (records values) ess)
          (records values es ++ take k (append_serialized values e)))
        (concat ess ++ es)
unfolding new_wal_file
new_wal_file-IsLogOf values policy config ess es e k lossless old new s hk =
    let c = set_default_values config in
    let m = (recover_files values c (map (records values) ess) []).1 in
    (
      ess,
      es,
      record {
        old = recover_files-HoldsEach values c ess e [] lossless old s (omega arith);
        here = recover_file-Holds values c es e k m lossless new s hk;
        spare = tt;
      },
      refl,
    )

module _ {V : Type 0} (values : Values V) where
  HoldsEach-drop :
      (closed : Bool) (n : ℕ) (fs : List (File V)) (ess : List (List (Entry V)))
      → HoldsEach values closed fs ess
      → HoldsEach values closed (drop n fs) (drop n ess)
  HoldsEach-drop closed zero fs ess h = h
  HoldsEach-drop closed (suc n) [] [] h = tt
  HoldsEach-drop closed (suc n) [] (es ∷ ess) h = absurd h
  HoldsEach-drop closed (suc n) (f ∷ fs) [] h = absurd h
  HoldsEach-drop closed (suc n) (f ∷ fs) (es ∷ ess) (h, hs) = HoldsEach-drop closed n fs ess hs

  abbrev IsTidyIfAny : Option (ReadBuffer V) → Type 0
  IsTidyIfAny none = Unit
  IsTidyIfAny (some b) = IsTidy b

  last_buffer-IsTidy :
      (closed : Bool) (n : ℕ) (fs : List (File V)) (ess : List (List (Entry V)))
      → HoldsEach values closed fs ess
      → IsTidyIfAny (last_buffer n fs)
  last_buffer-IsTidy closed n [] ess h = tt
  last_buffer-IsTidy closed zero (f ∷ fs) ess h = tt
  last_buffer-IsTidy closed (suc n) (f ∷ fs) [] h = absurd h
  last_buffer-IsTidy closed (suc zero) (f ∷ fs) (es ∷ ess) (h, hs) = h.tidy
  last_buffer-IsTidy closed (suc (suc n)) (f ∷ fs) (es ∷ ess) (h, hs) =
      last_buffer-IsTidy closed (suc n) fs ess hs

  reset_spare-IsSpare :
      (entry_bytes : ℕ) (o : Option (ReadBuffer V))
      → IsTidyIfAny o
      → IsSpare values (reset_spare entry_bytes o)
  reset_spare-IsSpare entry_bytes none h = tt
  reset_spare-IsSpare entry_bytes (some b) h =
      reset_for_reuse-IsTidy entry_bytes max_retained_wal_read_buffer_bytes b h

  HoldsEach-length :
      (closed : Bool) (fs : List (File V)) (ess : List (List (Entry V)))
      → HoldsEach values closed fs ess
      → length fs ≡ length ess
  HoldsEach-length closed [] [] h = refl
  HoldsEach-length closed [] (es ∷ ess) h = absurd h
  HoldsEach-length closed (f ∷ fs) [] h = absurd h
  HoldsEach-length closed (f ∷ fs) (es ∷ ess) (h, hs) = ap suc (HoldsEach-length closed fs ess hs)

  -- The files that stay, and the spare buffer, after `n` files that exist are removed.
  drop-IsLog :
      (entry_bytes n : ℕ) (w : WalFile V) (ess : List (List (Entry V))) (es : List (Entry V))
      → IsLog values w ess es
      → IsLog values
          (record w {
            complete = drop n w.complete;
            spare =
                if not w.config.close_buffer && is_none w.spare
                then reset_spare entry_bytes (last_buffer n w.complete)
                else w.spare;
          })
          (drop n ess)
          es
  drop-IsLog entry_bytes n w ess es log =
      let closed = w.config.close_buffer in
      let here = log.here in
      record {
        old = HoldsEach-drop closed n w.complete ess log.old;
        here = record {
          bytes = here.bytes;
          size = here.size;
          tidy = here.tidy;
          cached = here.cached;
        };
        spare = elim (Bool-cases (not closed && is_none w.spare)) [
          | inl kept ↦ subst (IsSpare values) (sym (if-true _ _ kept)) (
              reset_spare-IsSpare entry_bytes (last_buffer n w.complete)
                (last_buffer-IsTidy closed n w.complete ess log.old))
          | inr other ↦ subst (IsSpare values) (sym (if-false _ _ other)) log.spare
        ];
      }

  truncate-drop :
      (entry_bytes n m : ℕ) (w : WalFile V) (ess : List (List (Entry V))) (es : List (Entry V))
      → (if leb (length w.complete + 1) n then length w.complete else n) ≡ m
      → IsLog values w ess es
      → IsLog values (truncate entry_bytes n w) (drop m ess) es
  unfolding truncate
  truncate-drop entry_bytes n m w ess es h log =
      elim (Bool-cases ((if leb (length w.complete + 1) n then length w.complete else n) == 0)) [
        | inl nothing ↦
            let zero_files : m ≡ 0 = ground (arith, h) in
            subst (λ v. IsLog values v (drop m ess) es) (sym (if-true _ _ nothing))
              (subst (λ k. IsLog values w (drop k ess) es) (sym zero_files) log)
        | inr some_files ↦
            subst (λ v. IsLog values v (drop m ess) es) (sym (if-false _ _ some_files))
              (subst
                (λ k.
                  IsLog values
                    (record w {
                      complete = drop k w.complete;
                      spare =
                          if not w.config.close_buffer && is_none w.spare
                          then reset_spare entry_bytes (last_buffer k w.complete)
                          else w.spare;
                    })
                    (drop m ess) es)
                (sym h) (drop-IsLog entry_bytes m w ess es log))
      ]

-- Removing the `n` oldest files of a log leaves the entries of the other files as they are and never
-- removes the newest file, however large `n` is; a read buffer that is kept for the next file is empty.
pub truncate-IsLog :
    {V : Type 0} (values : Values V) (entry_bytes n : ℕ) (w : WalFile V)
    (ess : List (List (Entry V))) (es : List (Entry V))
    → IsLog values w ess es
    → IsLog values (truncate entry_bytes n w) (drop n ess) es
truncate-IsLog values entry_bytes n w ess es log =
    let count = HoldsEach-length values w.config.close_buffer w.complete ess log.old in
    elim (Bool-cases (leb (length w.complete + 1) n)) [
      | inl many ↦
          let all : drop (length w.complete) ess ≡ drop n ess =
            drop_past ess (length w.complete) (omega (arith, count))
            ∙ sym (drop_past ess n (ground (arith, count))) in
          subst (λ l. IsLog values (truncate entry_bytes n w) l es) all
            (truncate-drop values entry_bytes n (length w.complete) w ess es (if-true _ _ many) log)
      | inr few ↦ truncate-drop values entry_bytes n n w ess es (if-false _ _ few) log
    ]
