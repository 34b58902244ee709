-- ===== src/Wal/Policy/Accepted.antt =====
-- Which points of a batch the log takes, one point after the other.
use qv_lite.Prelude.{
  ℕ, ◌+◌, ◌≤◌, ◌≡◌, refl, sym, ap, ◌∙◌, ◌%◌, ◌^◌, arith, Bool, true, false, ◌||◌, Bool-cases, inl,
  inr, List, [], ◌∷◌, ◌++◌, append-nil, append_assoc, length, length-append, leb, ◌==◌,
}
use qv_lite.Wire.BigEndian.{put_be, length-put_be}
use qv_lite.Wal.Frames.{Values, Entry, append_serialized}
use qv_lite.Wal.Layout.{records}
use qv_lite.Wal.States.{TagState, TagStates, load_tag_state}
use qv_lite.Wal.Policy.{
  Policy, Dedup, enter_run, take_entry, dedup_entries, written_entries, no_run, dedup_runs,
}
use qv_lite.Wal.Policy.OneByOne.{
  or_assoc, or_false, Accepted, accepts, is_late, next_state, with_state, accept_each, run_state,
  view, IsSettled, publish-view, Entered, publish_keeps, enter_run-Entered, Taken, take_entry-Taken,
  take_entry-dropped,
}

module _ {V : Type 0} (values : Values V) where
  -- What is left of a batch is taken as `a` describes it, with all later end positions behind `start`.
  record Agrees (start : ℕ) (d : Dedup V) (a : Accepted values) (r : List (Entry V × ℕ) × Dedup V)
      : Type 0 where
    pub written : written_entries start r.0 ≡ a.entries
    pub bytes : r.1.batch_buf ≡ d.batch_buf ++ records values a.entries
    pub size : r.1.length ≡ d.length + length (records values a.entries)
    pub order : r.1.needs_sort ≡ (d.needs_sort || a.late)
    pub states : (k : ℕ) → load_tag_state k r.1.states ≡ a.states k

  -- The map after an accepted entry.
  Taken-view :
      (e : Entry V) (d d' : Dedup V) (end : ℕ) (m : ℕ → TagState V)
      → d.run.have_run ≡ true
      → d.run.cur_key ≡ e.key
      → ((k : ℕ) → view values d k ≡ m k)
      → Taken values e d d' end
      → (k : ℕ) → view values d' k ≡ with_state values e.key (next_state values e (m e.key)) m k
  Taken-view e d d' end m runs key views t k =
      let here : run_state values d.run ≡ m e.key =
        let same_key : (e.key == e.key) ≡ true = ground arith in
        let v = views e.key in rw (runs, key, same_key) at v in
      elim (Bool-cases (k == e.key)) [
        | inl same ↦ rw (t.runs, t.key, runs, key, same) (t.state ∙ ap (next_state values e) here)
        | inr differs ↦
            let other : load_tag_state k d.states ≡ m k =
              let v = views k in rw (runs, key, differs) at v in
            rw (t.runs, t.key, runs, key, differs, t.states) other
      ]

  -- A record has a length in front.
  pub some_bytes : (e : Entry V) → 4 ≤ length (append_serialized values e)
  unfolding append_serialized
  some_bytes e =
      let size = (12 + length (values.append_binary e.value)) % 2 ^ 32 in
      let rest = put_be 4 e.key ++ (put_be 8 e.timestamp ++ values.append_binary e.value) in
      omega (arith, length-append (put_be 4 size) rest, length-put_be 4 size)

  Agrees-Taken :
      (start : ℕ) (e : Entry V) (state : TagState V) (d d' : Dedup V) (end : ℕ)
      (a : Accepted values) (r : List (Entry V × ℕ) × Dedup V)
      → run_state values d.run ≡ state
      → start ≤ d.length
      → Taken values e d d' end
      → Agrees start d' a r
      → Agrees start d
          (record {
            entries = e ∷ a.entries;
            late = is_late values e state || a.late;
            states = a.states;
          })
          ((e, end) ∷ r.0, r.1)
  Agrees-Taken start e state d d' end a r here h t g =
      let bytes = append_serialized values e in
      let behind : leb end start ≡ false = ground (arith, t.place, some_bytes e) in
      record {
        written = rw behind (ap (λ l. e ∷ l) g.written);
        bytes =
            g.bytes
            ∙ ap (λ l. l ++ records values a.entries) t.buffer
            ∙ append_assoc d.batch_buf bytes (records values a.entries);
        size = omega (arith, g.size, t.size, length-append bytes (records values a.entries));
        order =
            g.order
            ∙ ap (λ b. b || a.late) (t.order ∙ ap (λ s. d.needs_sort || is_late values e s) here)
            ∙ or_assoc d.needs_sort (is_late values e state) a.late;
        states = g.states;
      }

  Agrees-Entered :
      (start : ℕ) (e : Entry V) (d d' : Dedup V) (a : Accepted values)
      (r : List (Entry V × ℕ) × Dedup V)
      → Entered values e d d'
      → Agrees start d' a r
      → Agrees start d a r
  Agrees-Entered start e d d' a r n g = record {
    written = g.written;
    bytes = g.bytes ∙ ap (λ l. l ++ records values a.entries) n.buffer;
    size = g.size ∙ ap (λ l. l + length (records values a.entries)) n.end;
    order = g.order ∙ ap (λ b. b || a.late) n.order;
    states = g.states;
  }

  Agrees-dropped :
      (start : ℕ) (e : Entry V) (d : Dedup V) (a : Accepted values)
      (r : List (Entry V × ℕ) × Dedup V)
      → Agrees start d a r
      → Agrees start d a ((e, 0) ∷ r.0, r.1)
  Agrees-dropped start e d a r g =
      let zero_end : leb 0 start ≡ true = ground arith in
      record {
        written = rw zero_end g.written;
        bytes = g.bytes;
        size = g.size;
        order = g.order;
        states = g.states;
      }

  dedup_entries-Agrees :
      (p : Policy) (es : List (Entry V)) (d : Dedup V) (m : ℕ → TagState V) (start : ℕ)
      → IsSettled values d
      → ((k : ℕ) → view values d k ≡ m k)
      → start ≤ d.length
      → Agrees start d (accept_each values p es m) (dedup_entries values p es d)
  dedup_entries-Agrees p [] d m start settled views h =
      let (buffer, end, order) = publish_keeps values d in
      record {
        written = refl;
        bytes = buffer ∙ sym (append-nil d.batch_buf);
        size = omega (arith, end);
        order = order ∙ sym (or_false d.needs_sort);
        states = λ k. publish-view values d k settled ∙ views k;
      }
  dedup_entries-Agrees p (e ∷ es) d m start settled views h =
      let d1 = enter_run values e d in
      let n = enter_run-Entered values e d settled in
      let views1 : (k : ℕ) → view values d1 k ≡ m k = λ k. n.views k ∙ views k in
      let same_key : (e.key == e.key) ≡ true = ground arith in
      let here : run_state values d1.run ≡ m e.key =
        let v = views1 e.key in rw (n.runs, n.key, same_key) at v in
      elim (Bool-cases (accepts values p e (m e.key))) [
        | inl taken ↦
            let t = take_entry-Taken values p e d1 (ap (accepts values p e) here ∙ taken) in
            let d2 = (take_entry values p e d1).0 in
            let end = (take_entry values p e d1).1 in
            let g =
              dedup_entries-Agrees p es d2
                (with_state values e.key (next_state values e (m e.key)) m) start (λ _. t.known)
                (Taken-view e d1 d2 end m n.runs n.key views1 t)
                (omega (arith, t.size, n.end, h)) in
            let g1 =
              Agrees-Taken start e (m e.key) d1 d2 end _ _ here (omega (arith, n.end, h)) t g in
            rw taken (Agrees-Entered start e d d1 _ _ n g1)
        | inr refused ↦
            let (same, known) =
              take_entry-dropped values p e d1 (ap (accepts values p e) here ∙ refused) in
            let g =
              dedup_entries-Agrees p es d1 m start (λ _. known) views1 (omega (arith, n.end, h)) in
            rw (refused, same) (Agrees-Entered start e d d1 _ _ n (Agrees-dropped start e d1 _ _ g))
      ]

-- A batch in any order of tags and times is filtered as if the points came one after the other and
-- each read and wrote its tag's state at once: the entries with an end position behind the old length
-- are the accepted ones, their records are what is to be written, the length and the mark of late
-- points are right, and the new tag states are those of the last accepted points.
pub dedup_runs-accept_each :
    {V : Type 0} (values : Values V) (p : Policy) (es : List (Entry V)) (start : ℕ)
    (needs_sort : Bool) (states : TagStates V)
    → (written_entries start (dedup_runs values p es start needs_sort states).0
        ≡ (accept_each values p es (λ k. load_tag_state k states)).entries)
      × ((dedup_runs values p es start needs_sort states).1.batch_buf
          ≡ records values (accept_each values p es (λ k. load_tag_state k states)).entries)
      × ((dedup_runs values p es start needs_sort states).1.length
          ≡ start
            + length
                (records values (accept_each values p es (λ k. load_tag_state k states)).entries))
      × ((dedup_runs values p es start needs_sort states).1.needs_sort
          ≡ (needs_sort || (accept_each values p es (λ k. load_tag_state k states)).late))
      × ((k : ℕ)
          → load_tag_state k (dedup_runs values p es start needs_sort states).1.states
            ≡ (accept_each values p es (λ k. load_tag_state k states)).states k)
unfolding dedup_runs
dedup_runs-accept_each values p es start needs_sort states =
    let d : Dedup _ = record {
      run = no_run values;
      states = states;
      batch_buf = [];
      length = start;
      needs_sort = needs_sort;
    } in
    let settled : false ≡ true → false ≡ true = λ h. h in
    let g =
      dedup_entries-Agrees values p es d (λ k. load_tag_state k states) start settled (λ k. refl)
        (omega arith) in
    (g.written, g.bytes, g.size, g.order, g.states)
