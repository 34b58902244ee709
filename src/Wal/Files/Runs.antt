-- ===== src/Wal/Files/Runs.antt =====
-- The fast path of `WriteRuns` does what `WriteBatch` does.
use qv_lite.Prelude.{
  ℕ, ◌+◌, ◌≡◌, refl, sym, ap, subst, ◌∙◌, arith, Bool, true, false, ◌||◌, if-true, if-false,
  Bool-cases, inl, inr, none, some, List, [], ◌∷◌, ◌++◌, append-nil, append_assoc, length,
  length-append, ◌==◌, if◌then◌else◌,
}
use qv_lite.Wire.{leb64, ltb64}
use qv_lite.Wal.Frames.{Values, Entry, append_serialized}
use qv_lite.Wal.Layout.{records}
use qv_lite.Wal.States.{TagState, TagStates, load_tag_state}
use qv_lite.Wal.States.Map.{load_tag_state-store}
use qv_lite.Wal.Policy.{Policy, has_policy}
use qv_lite.Wal.Policy.OneByOne.{
  Accepted, accepts, is_late, next_state, with_state, accept_each, or_assoc, or_false,
}
use qv_lite.Wal.Files.{
  TagRun, run_entries, entries_of, RunWrite, is_before, newer, take_points, store_state, take_run,
  take_runs,
}
use qv_lite.Wal.Files.Contents.{records-append}

module _ {V : Type 0} (values : Values V) where
  accepts_all :
      (p : Policy) (e : Entry V) (s : TagState V)
      → has_policy p ≡ false
      → accepts values p e s ≡ true
  accepts_all p e none h = refl
  accepts_all p e (some (t, v)) h =
      let no_interval : ltb64 0 p.min_interval ≡ false = ground arith in
      let no_window : ltb64 0 p.dedup_window ≡ false = ground arith in
      elim (Bool-cases (ltb64 e.timestamp t)) [
        | inl early ↦ rw (early, h) refl
        | inr late ↦ rw (late, no_interval, no_window) refl
      ]

  -- Without a policy all points are taken.
  pub accept_each-all :
      (p : Policy) (es : List (Entry V)) (m : ℕ → TagState V)
      → has_policy p ≡ false
      → (accept_each values p es m).entries ≡ es
  accept_each-all p [] m h = refl
  accept_each-all p (e ∷ es) m h =
      ap (λ (a : Accepted values). a.entries) (if-true _ _ (accepts_all p e (m e.key) h))
      ∙ ap (λ l. e ∷ l)
          (accept_each-all p es (with_state values e.key (next_state values e (m e.key)) m) h)

  accept_each-append :
      (p : Policy) (xs ys : List (Entry V)) (m : ℕ → TagState V)
      → has_policy p ≡ false
      → let a = accept_each values p xs m in
        let b = accept_each values p ys a.states in
        let c = accept_each values p (xs ++ ys) m in
        (c.late ≡ (a.late || b.late)) × (c.states ≡ b.states)
  accept_each-append p [] ys m h = (refl, refl)
  accept_each-append p (e ∷ es) ys m h =
      let m' = with_state values e.key (next_state values e (m e.key)) m in
      let (late, states) = accept_each-append p es ys m' h in
      let first = is_late values e (m e.key) in
      rw (accepts_all p e (m e.key) h) (
        ap (λ b. first || b) late ∙ sym (or_assoc first (accept_each values p es m').late _),
        states,
      )

  -- What the loop of `WriteRuns` has done with the points `es`.
  pub record Gathers (r r' : RunWrite values) (es : List (Entry V)) (late : Bool) : Type 0 where
    pub buffer : r'.batch_buf ≡ r.batch_buf ++ records values es
    pub size : r'.new_length ≡ r.new_length + length (records values es)
    pub count : r'.written ≡ r.written + length es
    pub order : r'.needs_sort ≡ (r.needs_sort || late)

  Gathers-trans :
      (r r' r'' : RunWrite values) (xs ys : List (Entry V)) (a b : Bool)
      → Gathers r r' xs a
      → Gathers r' r'' ys b
      → Gathers r r'' (xs ++ ys) (a || b)
  Gathers-trans r r' r'' xs ys a b g h =
      let bytes = records-append values xs ys in
      record {
        buffer =
            h.buffer
            ∙ ap (λ l. l ++ records values ys) g.buffer
            ∙ append_assoc r.batch_buf (records values xs) (records values ys)
            ∙ ap (λ l. r.batch_buf ++ l) (sym bytes);
        size = omega (
          arith,
          h.size,
          g.size,
          ap length bytes,
          length-append (records values xs) (records values ys),
        );
        count = omega (arith, h.count, g.count, length-append xs ys);
        order = h.order ∙ ap (λ c. c || b) g.order ∙ or_assoc r.needs_sort a b;
      }

  -- The map that the loop stands for inside the run of a tag.
  abbrev run_view : ℕ → RunWrite values → ℕ → TagState V
  run_view key r k = if k == key then r.state else load_tag_state k r.states

  newer-next_state :
      (e : Entry V) (s : TagState V) → newer values e.timestamp e.value s ≡ next_state values e s
  newer-next_state e none = refl
  newer-next_state e (some (t, v)) = refl

  is_before-is_late :
      (e : Entry V) (s : TagState V) → is_before values e.timestamp s ≡ is_late values e s
  is_before-is_late e none = refl
  is_before-is_late e (some (t, v)) = refl

  one_point :
      (key t : ℕ) (v : V) (r : RunWrite values)
      → let e : Entry V = record { key = key; timestamp = t; value = v } in
        Gathers r (take_points values key ((t, v) ∷ []) r) (e ∷ []) (is_late values e r.state)
  one_point key t v r =
      let e : Entry V = record { key = key; timestamp = t; value = v } in
      let bytes = append_serialized values e in
      record {
        buffer = ap (λ l. r.batch_buf ++ l) (sym (append-nil bytes));
        size = omega (arith, ap length (append-nil bytes));
        count = refl;
        order = ap (λ b. r.needs_sort || b) (is_before-is_late e r.state);
      }

  take_points-Gathers :
      (p : Policy) (key : ℕ) (points : List (ℕ × V)) (r : RunWrite values) (m : ℕ → TagState V)
      → has_policy p ≡ false
      → ((k : ℕ) → run_view key r k ≡ m k)
      → Gathers r
          (take_points values key points r)
          (run_entries values key points)
          (accept_each values p (run_entries values key points) m).late
        × ((k : ℕ)
            → run_view key (take_points values key points r) k
              ≡ (accept_each values p (run_entries values key points) m).states k)
  take_points-Gathers p key [] r m h views = (
    record {
      buffer = sym (append-nil r.batch_buf);
      size = omega arith;
      count = omega arith;
      order = sym (or_false r.needs_sort);
    },
    views,
  )
  take_points-Gathers p key ((t, v) ∷ points) r m h views =
      let e : Entry V = record { key = key; timestamp = t; value = v } in
      let r1 = take_points values key ((t, v) ∷ []) r in
      let same_key : (key == key) ≡ true = ground arith in
      let here : r.state ≡ m key = sym (if-true _ _ same_key) ∙ views key in
      let m1 = with_state values key (next_state values e (m key)) m in
      let views1 : (k : ℕ) → run_view key r1 k ≡ m1 k = λ k. elim (Bool-cases (k == key)) [
        | inl same ↦ rw same (newer-next_state e r.state ∙ ap (next_state values e) here)
        | inr differs ↦
            if-false _ _ differs ∙ sym (if-false _ _ differs) ∙ views k ∙ sym (if-false _ _ differs)
      ] in
      let (later, end) = take_points-Gathers p key points r1 m1 h views1 in
      let g =
        Gathers-trans r r1 (take_points values key points r1) (e ∷ [])
          (run_entries values key points) _ _ (one_point key t v r) later in
      rw (accepts_all p e (m key) h) (
        subst
            (λ s. Gathers r (take_points values key points r1) (e ∷ run_entries values key points) (
              is_late values e s || (accept_each values p (run_entries values key points) m1).late))
            here g,
        end,
      )

  store_state-view :
      (key : ℕ) (s : TagState V) (states : TagStates V) (k : ℕ)
      → (s ≡ none → load_tag_state key states ≡ none)
      → load_tag_state k (store_state values key s states)
        ≡ (if k == key then s else load_tag_state k states)
  store_state-view key none states k h = elim (Bool-cases (k == key)) [
    | inl same ↦
        let here : k ≡ key = ground arith in
        ap (λ j. load_tag_state j states) here ∙ h refl ∙ sym (if-true _ _ same)
    | inr differs ↦ sym (if-false _ _ differs)
  ]
  store_state-view key (some s) states k h = load_tag_state-store key s states k

  newer-some : (t : ℕ) (v : V) (s : TagState V) → newer values t v s ≡ none → ⊥
  newer-some t v none h = cc
  newer-some t v (some (max, w)) h = elim (Bool-cases (leb64 max t)) [
    | inl after ↦ let wrong = sym (if-true (some (t, v)) (some (max, w)) after) ∙ h in cc
    | inr before ↦ let wrong = sym (if-false (some (t, v)) (some (max, w)) before) ∙ h in cc
  ]

  take_points-keeps :
      (key : ℕ) (points : List (ℕ × V)) (r : RunWrite values)
      → ((take_points values key points r).states ≡ r.states)
        × ((take_points values key points r).state ≡ none → r.state ≡ none)
  take_points-keeps key [] r = (refl, λ h. h)
  take_points-keeps key ((t, v) ∷ points) r =
      let (states, known) = take_points-keeps key points (take_points values key ((t, v) ∷ []) r) in
      (states, λ h. absurd (newer-some t v r.state (known h)))

  pub take_runs-Gathers :
      (p : Policy) (runs : List (TagRun values)) (r : RunWrite values) (m : ℕ → TagState V)
      → has_policy p ≡ false
      → ((k : ℕ) → load_tag_state k r.states ≡ m k)
      → Gathers r
          (take_runs values runs r)
          (entries_of values runs)
          (accept_each values p (entries_of values runs) m).late
        × ((k : ℕ)
            → load_tag_state k (take_runs values runs r).states
              ≡ (accept_each values p (entries_of values runs) m).states k)
  take_runs-Gathers p [] r m h views = (
    record {
      buffer = sym (append-nil r.batch_buf);
      size = omega arith;
      count = omega arith;
      order = sym (or_false r.needs_sort);
    },
    views,
  )
  take_runs-Gathers p ((key, points) ∷ runs) r m h views =
      let es = run_entries values key points in
      let r0 : RunWrite values = record r { state = load_tag_state key r.states } in
      let r1 = take_points values key points r0 in
      let r2 = take_run values (key, points) r in
      let a = accept_each values p es m in
      let views0 : (k : ℕ) → run_view key r0 k ≡ m k = λ k. elim (Bool-cases (k == key)) [
        | inl same ↦
            let here : key ≡ k = ground arith in
            if-true _ _ same ∙ ap (λ j. load_tag_state j r.states) here ∙ views k
        | inr differs ↦ if-false _ _ differs ∙ views k
      ] in
      let (inside, end) = take_points-Gathers p key points r0 m h views0 in
      let (kept, known) = take_points-keeps key points r0 in
      let views2 : (k : ℕ) → load_tag_state k r2.states ≡ a.states k = λ k.
        store_state-view key r1.state r1.states k
          (λ nothing. ap (load_tag_state key) kept ∙ known nothing)
        ∙ end k in
      let (later, last) = take_runs-Gathers p runs r2 a.states h views2 in
      let (late, states) = accept_each-append p es (entries_of values runs) m h in
      let first : Gathers r r2 es a.late = record {
        buffer = inside.buffer;
        size = inside.size;
        count = inside.count;
        order = inside.order;
      } in
      let g =
        Gathers-trans r r2 (take_runs values runs r2) es (entries_of values runs) _ _ first later in
      (
        subst (Gathers r (take_runs values runs r2) (es ++ entries_of values runs)) (sym late) g,
        λ k. last k ∙ ap (λ f. f k) (sym states),
      )
