-- ===== src/Wal/Recovery.antt =====
-- What is read back of a log file: whole records, a torn tail, and a corrupt length.
use qv_lite.Prelude.{
  ℕ, zero, suc, ◌+◌, ◌≤◌, ◌<◌, ◌≡◌, refl, sym, ap, ◌∙◌, arith, true, false, some, List, [], ◌∷◌,
  ◌++◌, append-nil, append_assoc, length, length-append, take, drop, take-append, length-take,
  take-take, length-drop, Bool-cases, inl, inr, ltb, leb, ◌==◌, All,
}
use qv_lite.Wire.BigEndian.{put_be, get_be, get_be-put_be, length-put_be}
use qv_lite.Wal.Frames.{
  Values, Entry, Ending, at_end, short, corrupt_length, append_serialized, unmarshal_wal_value,
  Loaded, with_entry, stop, load_from, get_all_data, open_wal_file, with_record, each_from,
  for_each_wal_file,
}
use qv_lite.Wal.Layout.{
  IsLossless, IsSized, records, body, length-body, length-append_serialized, Front, record-Front,
  payload_of_body, entry_of-body,
}

module _ {V : Type 0} (values : Values V) where
  open values use {append_binary, is_binary_format, unmarshal_binary}

  -- Every record with the offset behind it, as `forEachWalFile` hands them on.
  abbrev pub with_offsets : List (Entry V) → ℕ → List (Entry V × ℕ)
  with_offsets [] offset = []
  with_offsets (e ∷ es) offset =
      let end : ℕ = offset + length (append_serialized values e) in (e, end) ∷ with_offsets es end

  module _ (lossless : IsLossless values) where
    value_of_body :
        (e : Entry V) → unmarshal_wal_value values (drop 12 (body values e)) ≡ some e.value
    value_of_body e =
        rw (payload_of_body values e, lossless.binary e.value, lossless.decoded e.value) refl

    load_record :
        (fuel offset : ℕ) (b : List ℕ) (e : Entry V) (rest : List ℕ)
        → IsSized values e
        → Front values b e rest
        → load_from values (suc fuel) b offset
          ≡ with_entry values e (load_from values fuel rest (offset + length (body values e) + 4))
    unfolding load_from
    load_record fuel offset b e rest s f =
        let nonempty : (length b == 0) ≡ false = ground (arith, f.total) in
        let four : ltb (length b) 4 ≡ false = ground (arith, f.total) in
        let long : leb (length (body values e)) 12 ≡ false =
          ground (arith, length-body values e, lossless.some_bytes e.value) in
        let enough : ltb (length (drop 4 b)) (length (body values e)) ≡ false =
          ground (arith, f.left) in
        rw
          (
            nonempty,
            four,
            f.size,
            long,
            enough,
            f.here,
            value_of_body e,
            f.size,
            f.here,
            f.after,
            entry_of-body values e s,
          )
          refl

    each_record :
        (fuel offset : ℕ) (b : List ℕ) (e : Entry V) (rest : List ℕ)
        → IsSized values e
        → Front values b e rest
        → each_from values (suc fuel) b offset
          ≡ with_record values
              (e, offset + 4 + length (body values e))
              (each_from values fuel rest (offset + 4 + length (body values e)))
    unfolding each_from
    each_record fuel offset b e rest s f =
        let nonempty : (length b == 0) ≡ false = ground (arith, f.total) in
        let four : ltb (length b) 4 ≡ false = ground (arith, f.total) in
        let long : leb (length (body values e)) 12 ≡ false =
          ground (arith, length-body values e, lossless.some_bytes e.value) in
        let enough : ltb (length (drop 4 b)) (length (body values e)) ≡ false =
          ground (arith, f.left) in
        rw
          (
            nonempty,
            four,
            f.size,
            long,
            enough,
            f.here,
            value_of_body e,
            f.size,
            f.here,
            f.after,
            entry_of-body values e s,
          )
          refl

    each_records :
        (es : List (Entry V)) (fuel offset : ℕ)
        → All (IsSized values) es
        → length (records values es) < fuel
        → each_from values fuel (records values es) offset ≡ (with_offsets es offset, true)
    unfolding each_from
    each_records es zero offset s h = absurd (omega arith)
    each_records [] (suc fuel) offset s h = refl
    each_records (e ∷ es) (suc fuel) offset (s, ss) h =
        let front = record-Front values e (records values es) s in
        let size = length-append_serialized values e s in
        let long = length-append (append_serialized values e) (records values es) in
        let end : offset + 4 + length (body values e)
            ≡ offset + length (append_serialized values e) =
          omega (arith, size, length-body values e) in
        each_record fuel offset (records values (e ∷ es)) e (records values es) s front
        ∙ ap (λ n. with_record values (e, n) (each_from values fuel (records values es) n)) end
        ∙ ap (with_record values (e, offset + length (append_serialized values e)))
            (each_records es fuel (offset + length (append_serialized values e)) ss (omega arith))

    pub for_each_wal_file-records :
        (es : List (Entry V))
        → All (IsSized values) es
        → for_each_wal_file values (records values es) ≡ (with_offsets es 0, true)
    unfolding for_each_wal_file
    for_each_wal_file-records es s =
        each_records es (suc (length (records values es))) 0 s (omega arith)

    -- The entries in front of some other bytes, as the loop leaves them.
    abbrev prepend : List (Entry V) → Loaded values → Loaded values
    prepend [] l = l
    prepend (e ∷ es) l = with_entry values e (prepend es l)

    load_records :
        (es : List (Entry V)) (rest : List ℕ) (fuel offset : ℕ)
        → All (IsSized values) es
        → length (records values es ++ rest) < fuel
        → (fuel' : ℕ) × (length rest < fuel')
          × (load_from values fuel (records values es ++ rest) offset
              ≡ prepend es (load_from values fuel' rest (offset + length (records values es))))
    load_records [] rest fuel offset s h = (fuel, h, ap (load_from values fuel rest) (omega arith))
    load_records (e ∷ es) rest zero offset s h = absurd (omega arith)
    load_records (e ∷ es) rest (suc fuel) offset (s, ss) h =
        let split = append_assoc (append_serialized values e) (records values es) rest in
        let front = record-Front values e (records values es ++ rest) s in
        let size = length-append_serialized values e s in
        let total : length (records values (e ∷ es) ++ rest)
            ≡ 16 + length (append_binary e.value) + length (records values es ++ rest) =
          ap length split
          ∙ omega (
            arith,
            length-append (append_serialized values e) (records values es ++ rest),
            size,
          ) in
        let (fuel', enough, later) =
          load_records es rest fuel (offset + length (body values e) + 4) ss (omega arith) in
        (
          fuel',
          enough,
          ap (λ l. load_from values (suc fuel) l offset) split
              ∙ load_record fuel offset (append_serialized values e ++ (records values es ++ rest))
                  e (records values es ++ rest) s front
              ∙ ap (with_entry values e) later
              ∙ ap (λ k. with_entry values e (prepend es (load_from values fuel' rest k)))
                  (omega (
                    arith,
                    length-append (append_serialized values e) (records values es),
                    size,
                    length-body values e,
                  )),
        )

    prepend-stop :
        (es : List (Entry V)) (offset : ℕ) (ending : Ending)
        → prepend es (stop values offset ending)
          ≡ record { entries = es; offset = offset; ending = ending }
    prepend-stop [] offset ending = refl
    prepend-stop (e ∷ es) offset ending = ap (with_entry values e) (prepend-stop es offset ending)

    -- A tail at which the loop stops ends the load.
    get_all_data-stop :
        (es : List (Entry V)) (rest : List ℕ) (ending : Ending)
        → All (IsSized values) es
        → ((fuel offset : ℕ)
            → length rest < fuel
            → load_from values fuel rest offset ≡ stop values offset ending)
        → get_all_data values (records values es ++ rest)
          ≡ record { entries = es; offset = length (records values es); ending = ending }
    unfolding get_all_data
    get_all_data-stop es rest ending s stops =
        let (fuel, enough, e) =
          load_records es rest (suc (length (records values es ++ rest))) 0 s (omega arith) in
        e
        ∙ ap (prepend es) (stops fuel (0 + length (records values es)) enough)
        ∙ prepend-stop es (0 + length (records values es)) ending
        ∙ ap (λ (k : ℕ). record { entries = es; offset = k; ending = ending }) (omega arith)

    stops_at_end :
        (fuel offset : ℕ) → 0 < fuel → load_from values fuel [] offset ≡ stop values offset at_end
    unfolding load_from
    stops_at_end zero offset h = absurd (omega arith)
    stops_at_end (suc fuel) offset h = refl

    stops_short :
        (e : Entry V) (k : ℕ)
        → IsSized values e
        → 0 < k
        → k < length (append_serialized values e)
        → (fuel offset : ℕ) → 0 < fuel
        → load_from values fuel (take k (append_serialized values e)) offset
          ≡ stop values offset short
    unfolding load_from
    stops_short e k s h0 hk zero offset hf = absurd (omega arith)
    stops_short e k s h0 hk (suc fuel) offset hf =
        let r = append_serialized values e in
        let cut = take k r in
        let size : length cut ≡ k = length-take k r (omega arith) in
        let nonempty : (length cut == 0) ≡ false = ground (arith, size) in
        elim (Bool-cases (ltb (length cut) 4)) [
          | inl tiny ↦ rw (nonempty, tiny) refl
          | inr four ↦
              let front = record-Front values e [] s in
              let header : get_be (take 4 cut) ≡ length (body values e) =
                ap get_be (take-take 4 k r (ground (arith, size)))
                ∙ ap (λ l. get_be (take 4 l)) (sym (append-nil r))
                ∙ front.size in
              let long : leb (length (body values e)) 12 ≡ false =
                ground (arith, length-body values e, lossless.some_bytes e.value) in
              let lacks : ltb (length (drop 4 cut)) (length (body values e)) ≡ true = ground (
                arith,
                length-drop 4 cut,
                size,
                length-append_serialized values e s,
                length-body values e,
              ) in
              rw (nonempty, four, header, long, lacks) refl
        ]

    stops_corrupt :
        (n : ℕ) (rest : List ℕ)
        → n ≤ 12
        → (fuel offset : ℕ) → 0 < fuel
        → load_from values fuel (put_be 4 n ++ rest) offset ≡ stop values offset corrupt_length
    unfolding load_from
    stops_corrupt n rest hn zero offset hf = absurd (omega arith)
    stops_corrupt n rest hn (suc fuel) offset hf =
        let four = length-put_be 4 n in
        let total = length-append (put_be 4 n) rest in
        let header : get_be (take 4 (put_be 4 n ++ rest)) ≡ n =
          ap get_be (take-append 4 (put_be 4 n) rest four) ∙ get_be-put_be 4 n (omega arith) in
        let nonempty : (length (put_be 4 n ++ rest) == 0) ≡ false = ground (arith, total, four) in
        let enough : ltb (length (put_be 4 n ++ rest)) 4 ≡ false = ground (arith, total, four) in
        let low : leb n 12 ≡ true = ground arith in rw (nonempty, enough, header, low) refl

  kept_front : (xs ys : List ℕ) → take (length xs) (xs ++ ys) ≡ xs
  kept_front xs ys = take-append (length xs) xs ys refl

-- Whole records and the torn beginning of another, or nothing: what is left, and what is loaded.
pub open_wal_file-front :
    {V : Type 0} (values : Values V) (es : List (Entry V)) (e : Entry V) (k : ℕ)
    → IsLossless values
    → All (IsSized values) es
    → IsSized values e
    → k < length (append_serialized values e)
    → (ending : Ending) × (open_wal_file values
          (records values es ++ take k (append_serialized values e))
        ≡ (
          records values es,
          record { entries = es; offset = length (records values es); ending = ending },
        ))
unfolding open_wal_file
open_wal_file-front values es e zero lossless ss s hk =
    let whole = get_all_data-stop values lossless es [] at_end ss (stops_at_end values lossless) in
    let loaded : Loaded values = record {
      entries = es;
      offset = length (records values es);
      ending = at_end;
    } in
    (at_end, rw whole (ap (λ b. (b, loaded)) (kept_front values (records values es) [])))
open_wal_file-front values es e (suc k) lossless ss s hk =
    let tail = take (suc k) (append_serialized values e) in
    let torn = get_all_data-stop values lossless es tail short ss (λ fuel offset h.
      stops_short values lossless e (suc k) s (omega arith) hk fuel offset (omega arith)) in
    let loaded : Loaded values = record {
      entries = es;
      offset = length (records values es);
      ending = short;
    } in
    (short, rw torn (ap (λ b. (b, loaded)) (kept_front values (records values es) tail)))

-- A log file that ends inside a record, as a crash leaves it, is opened with all the whole records in
-- front, in their order, and is cut back to them, so that records appended later are read again.
-- The values' binary form is recognised, decoded and not empty, and the records fit their fields.
pub open_wal_file-torn :
    {V : Type 0} (values : Values V) (es : List (Entry V)) (e : Entry V) (k : ℕ)
    → IsLossless values
    → All (IsSized values) es
    → IsSized values e
    → k < length (append_serialized values e)
    → ((open_wal_file values (records values es ++ take k (append_serialized values e))).0
        ≡ records values es)
      × ((open_wal_file values (records values es ++ take k (append_serialized values e))).1.entries
          ≡ es)
      × ((open_wal_file values (records values es)).1.entries ≡ es)
unfolding open_wal_file
open_wal_file-torn values es e k lossless ss s hk =
    let (ending, opened) = open_wal_file-front values es e k lossless ss s hk in
    let whole = get_all_data-stop values lossless es [] at_end ss (stops_at_end values lossless) in
    let whole' = ap (get_all_data values) (sym (append-nil (records values es))) ∙ whole in
    (ap (λ r. r.0) opened, ap (λ r. r.1.entries) opened, rw whole' refl)

-- Behind a length of at most 12 nothing is read any more, whatever bytes follow and whoever appends
-- them, and the file is left as it is, since the error of `getAllData` is nil there.
pub open_wal_file-corrupt :
    {V : Type 0} (values : Values V) (es : List (Entry V)) (n : ℕ) (rest : List ℕ)
    → IsLossless values
    → All (IsSized values) es
    → n ≤ 12
    → ((open_wal_file values (records values es ++ (put_be 4 n ++ rest))).0
        ≡ records values es ++ (put_be 4 n ++ rest))
      × ((open_wal_file values (records values es ++ (put_be 4 n ++ rest))).1.entries ≡ es)
unfolding open_wal_file
open_wal_file-corrupt values es n rest lossless ss hn =
    let stopped =
      get_all_data-stop values lossless es (put_be 4 n ++ rest) corrupt_length ss
        (λ fuel offset h. stops_corrupt values lossless n rest hn fuel offset (omega arith)) in
    (rw stopped refl, rw stopped refl)
