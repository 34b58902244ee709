-- ===== src/Wal/Buffer/Contents.antt =====
-- The read buffer is a list of entries: what it holds, and what is read of it.
use qv_lite.Prelude.{
  ℕ, zero, suc, ◌+◌, ◌-◌, ◌≤◌, ◌<◌, ◌≡◌, refl, sym, ap, ◌∙◌, arith, Bool, false, ◌&&◌, ◌||◌,
  Bool-cases, inl, inr, List, [], ◌∷◌, ◌++◌, append-nil, append_assoc, length, length-append, take,
  drop, All, leb, ◌==◌, if◌then◌else◌,
}
use qv_lite.Wire.{leb64}
use qv_lite.Wal.Frames.{Values, Entry}
use qv_lite.Wal.Buffer.{
  ReadBuffer, modify, make_room, append_value, append_values, chunk_at, cleared, reset_for_reuse,
  each_entry, each_chunk, for_each, match_entries, match_chunks, append_matching, Point,
}

module _ {V : Type 0} where
  abbrev pub concat : List (List (Entry V)) → List (Entry V)
  concat [] = []
  concat (c ∷ cs) = c ++ concat cs

  abbrev pub contents : ReadBuffer V → List (Entry V)
  contents b = concat (take b.active_chunks b.chunks)

  abbrev IsBlank : List (Entry V) → Type 0
  IsBlank c = c ≡ []

  -- Spare chunks are empty, and the counts are right.
  pub record IsTidy (b : ReadBuffer V) : Type 0 where
    pub active : b.active_chunks ≤ length b.chunks
    pub spare : All IsBlank (drop b.active_chunks b.chunks)
    pub counted : b.total ≡ length (contents b)

  take-more :
      (n : ℕ) (cs : List (List (Entry V)))
      → All IsBlank (drop n cs)
      → concat (take (suc n) cs) ≡ concat (take n cs)
  take-more zero [] h = refl
  take-more zero (c ∷ cs) (h, hs) = rw h refl
  take-more (suc n) [] h = refl
  take-more (suc n) (c ∷ cs) h = ap (λ l. c ++ l) (take-more n cs h)

  drop-more :
      (n : ℕ) (cs : List (List (Entry V))) → All IsBlank (drop n cs) → All IsBlank (drop (suc n) cs)
  drop-more zero [] h = tt
  drop-more zero (c ∷ cs) (h, hs) = hs
  drop-more (suc n) [] h = tt
  drop-more (suc n) (c ∷ cs) h = drop-more n cs h

  drop_past_end :
      (n : ℕ) (cs : List (List (Entry V))) → n ≡ length cs → drop (suc n) (cs ++ ([] ∷ [])) ≡ []
  drop_past_end zero [] h = refl
  drop_past_end zero (c ∷ cs) h = absurd (omega arith)
  drop_past_end (suc n) [] h = absurd (omega arith)
  drop_past_end (suc n) (c ∷ cs) h = drop_past_end n cs (omega arith)

  take_all_more :
      (n : ℕ) (cs : List (List (Entry V)))
      → n ≡ length cs
      → concat (take (suc n) (cs ++ ([] ∷ []))) ≡ concat (take n cs)
  take_all_more zero [] h = refl
  take_all_more zero (c ∷ cs) h = absurd (omega arith)
  take_all_more (suc n) [] h = absurd (omega arith)
  take_all_more (suc n) (c ∷ cs) h = ap (λ l. c ++ l) (take_all_more n cs (omega arith))

  make_room-IsTidy :
      (b : ReadBuffer V)
      → IsTidy b
      → IsTidy (make_room b)
        × (contents (make_room b) ≡ contents b)
        × (1 ≤ (make_room b).active_chunks)
  unfolding make_room
  make_room-IsTidy b t =
      elim (Bool-cases (
        b.active_chunks == 0
        || leb b.chunk_cap (length (chunk_at b.chunks (b.active_chunks - 1))))) [
          | inr room ↦ rw room (t, refl, ground arith)
          | inl full ↦
              let next : b.active_chunks + 1 ≡ suc b.active_chunks = omega arith in
              elim (Bool-cases (b.active_chunks == length b.chunks)) [
                | inl end ↦
                    let at_end : b.active_chunks ≡ length b.chunks = ground arith in
                    let kept = take_all_more b.active_chunks b.chunks at_end in
                    rw (full, end, next)
                      (
                        record {
                          active = omega (arith, length-append b.chunks ([] ∷ []));
                          spare = rw (drop_past_end b.active_chunks b.chunks at_end) tt;
                          counted = t.counted ∙ ap length (sym kept);
                        },
                        kept,
                        omega arith,
                      )
                | inr more ↦
                    let kept = take-more b.active_chunks b.chunks t.spare in
                    rw (full, more, next)
                      (
                        record {
                          active = ground (arith, t.active);
                          spare = drop-more b.active_chunks b.chunks t.spare;
                          counted = t.counted ∙ ap length (sym kept);
                        },
                        kept,
                        omega arith,
                      )
              ]
        ]

  modify-concat :
      (n : ℕ) (e : Entry V) (cs : List (List (Entry V)))
      → n < length cs
      → concat (take (suc n) (modify n (λ c. c ++ (e ∷ [])) cs))
        ≡ concat (take (suc n) cs) ++ (e ∷ [])
  modify-concat n e [] h = absurd (omega arith)
  modify-concat zero e (c ∷ cs) h =
      append-nil (c ++ (e ∷ [])) ∙ ap (λ l. l ++ (e ∷ [])) (sym (append-nil c))
  modify-concat (suc n) e (c ∷ cs) h =
      ap (λ l. c ++ l) (modify-concat n e cs (omega arith))
      ∙ sym (append_assoc c (concat (take (suc n) cs)) (e ∷ []))

  modify-rest :
      (n : ℕ) (f : List (Entry V) → List (Entry V)) (cs : List (List (Entry V)))
      → (drop (suc n) (modify n f cs) ≡ drop (suc n) cs) × (length (modify n f cs) ≡ length cs)
  modify-rest n f [] = (refl, refl)
  modify-rest zero f (c ∷ cs) = (refl, refl)
  modify-rest (suc n) f (c ∷ cs) = ((modify-rest n f cs).0, ap suc (modify-rest n f cs).1)

  -- The last of `a` chunks gets one more entry.
  modify_last :
      (a : ℕ) (e : Entry V) (cs : List (List (Entry V)))
      → 1 ≤ a
      → a ≤ length cs
      → (concat (take a (modify (a - 1) (λ c. c ++ (e ∷ [])) cs)) ≡ concat (take a cs) ++ (e ∷ []))
        × (drop a (modify (a - 1) (λ c. c ++ (e ∷ [])) cs) ≡ drop a cs)
  modify_last zero e cs h k = absurd (omega arith)
  modify_last (suc n) e cs h k =
      let same_place : suc n - 1 ≡ n = omega arith in
      rw same_place (modify-concat n e cs (omega arith), (modify-rest n (λ c. c ++ (e ∷ [])) cs).0)

  -- An appended entry is the last of the contents, whichever chunk takes it.
  pub append_value-contents :
      (values : Values V) (e : Entry V) (b : ReadBuffer V)
      → IsTidy b
      → IsTidy (append_value values e b)
        × (contents (append_value values e b) ≡ contents b ++ (e ∷ []))
  unfolding append_value
  append_value-contents values e b t =
      let b' = make_room b in
      let (t', kept, some_chunk) = make_room-IsTidy b t in
      let (longer, rest) = modify_last b'.active_chunks e b'.chunks some_chunk t'.active in
      let size = (modify-rest (b'.active_chunks - 1) (λ c. c ++ (e ∷ [])) b'.chunks).1 in
      (
        record {
          active = omega (arith, t'.active, size);
          spare = rw rest t'.spare;
          counted =
              omega (arith, t'.counted, ap length longer, length-append (contents b') (e ∷ []));
        },
        longer ∙ ap (λ l. l ++ (e ∷ [])) kept,
      )

  pub append_values-contents :
      (values : Values V) (es : List (Entry V)) (b : ReadBuffer V)
      → IsTidy b
      → IsTidy (append_values values es b)
        × (contents (append_values values es b) ≡ contents b ++ es)
  append_values-contents values [] b t = (t, sym (append-nil (contents b)))
  append_values-contents values (e ∷ es) b t =
      let (t', one) = append_value-contents values e b t in
      let (t'', all) = append_values-contents values es (append_value values e b) t' in
      (t'', all ∙ ap (λ l. l ++ es) one ∙ append_assoc (contents b) (e ∷ []) es)

  pub match-append :
      (tag from to : ℕ) (xs ys : List (Entry V))
      → match_entries tag from to (xs ++ ys)
        ≡ match_entries tag from to xs ++ match_entries tag from to ys
  match-append tag from to [] ys = refl
  match-append tag from to (x ∷ xs) ys =
      elim (Bool-cases (x.key == tag && (leb64 from x.timestamp && leb64 x.timestamp to))) [
        | inl hit ↦ rw (hit, match-append tag from to xs ys) refl
        | inr miss ↦ rw (miss, match-append tag from to xs ys) refl
      ]

  match_chunks-concat :
      (tag from to : ℕ) (cs : List (List (Entry V))) (dst : List (Point V))
      → match_chunks tag from to cs dst ≡ dst ++ match_entries tag from to (concat cs)
  match_chunks-concat tag from to [] dst = sym (append-nil dst)
  match_chunks-concat tag from to (c ∷ cs) dst =
      match_chunks-concat tag from to cs (dst ++ match_entries tag from to c)
      ∙ append_assoc dst (match_entries tag from to c) (match_entries tag from to (concat cs))
      ∙ ap (λ l. dst ++ l) (sym (match-append tag from to c (concat cs)))

  each_entry-append :
      {S : Type 0} (fn : Entry V → S → S × Bool) (xs ys : List (Entry V)) (s : S)
      → each_entry fn (xs ++ ys) s ≡ (
          if (each_entry fn xs s).1
          then each_entry fn ys (each_entry fn xs s).0
          else ((each_entry fn xs s).0, false))
  unfolding each_entry
  each_entry-append fn [] ys s = refl
  each_entry-append fn (x ∷ xs) ys s = elim (Bool-cases (fn x s).1) [
    | inl on ↦ rw on (each_entry-append fn xs ys (fn x s).0)
    | inr off ↦ rw off refl
  ]

  each_chunk-concat :
      {S : Type 0} (fn : Entry V → S → S × Bool) (cs : List (List (Entry V))) (s : S)
      → each_chunk fn cs s ≡ each_entry fn (concat cs) s
  unfolding each_chunk each_entry
  each_chunk-concat fn [] s = refl
  each_chunk-concat fn (c ∷ cs) s =
      let split = each_entry-append fn c (concat cs) s in
      elim (Bool-cases (each_entry fn c s).1) [
        | inl on ↦ rw (split, on) (each_chunk-concat fn cs (each_entry fn c s).0)
        | inr off ↦ rw (split, off) refl
      ]

  take-IsBlank : (m : ℕ) (cs : List (List (Entry V))) → All IsBlank cs → All IsBlank (take m cs)
  take-IsBlank zero cs h = tt
  take-IsBlank (suc m) [] h = tt
  take-IsBlank (suc m) (c ∷ cs) (h, hs) = (h, take-IsBlank m cs hs)

  pub append_matching-contents :
      (tag from to : ℕ) (b : ReadBuffer V) (dst : List (Point V))
      → append_matching dst tag from to b ≡ dst ++ match_entries tag from to (contents b)
  unfolding append_matching
  append_matching-contents tag from to b dst =
      match_chunks-concat tag from to (take b.active_chunks b.chunks) dst

  pub for_each-contents :
      {S : Type 0} (fn : Entry V → S → S × Bool) (b : ReadBuffer V) (s : S)
      → for_each fn b s ≡ each_entry fn (contents b) s
  unfolding for_each
  for_each-contents fn b s = each_chunk-concat fn (take b.active_chunks b.chunks) s

  cleared-take :
      (n m : ℕ) (cs : List (List (Entry V)))
      → All IsBlank (drop n cs)
      → All IsBlank (take m (cleared n cs))
  cleared-take n zero cs h = tt
  cleared-take n (suc m) [] h = tt
  cleared-take zero (suc m) (c ∷ cs) (h, hs) = (h, take-IsBlank m cs hs)
  cleared-take (suc n) (suc m) (c ∷ cs) h = (refl, cleared-take n m cs h)

  pub reset_for_reuse-IsTidy :
      (entry_bytes max_retained_bytes : ℕ) (b : ReadBuffer V)
      → IsTidy b
      → IsTidy (reset_for_reuse entry_bytes max_retained_bytes b)
        × (contents (reset_for_reuse entry_bytes max_retained_bytes b) ≡ [])
  unfolding reset_for_reuse
  reset_for_reuse-IsTidy entry_bytes max_retained_bytes b t = (
    record {
      active = omega arith;
      spare = cleared-take b.active_chunks _ b.chunks t.spare;
      counted = refl;
    },
    refl,
  )

-- Whatever its chunks are, the read buffer is the list of the entries appended since it was made or
-- reset: after `es` more entries it holds them behind the old ones, a query finds in it the points of
-- its tag and time in their order, and a loop visits all entries in that order until it stops itself.
-- The buffer is tidy before: its spare chunks are empty and its counts right.
pub append_values-read :
    {V S : Type 0} (values : Values V) (es : List (Entry V)) (b : ReadBuffer V)
    → IsTidy b
    → IsTidy (append_values values es b)
      × ((tag from to : ℕ) (dst : List (Point V))
          → append_matching dst tag from to (append_values values es b)
            ≡ dst ++ match_entries tag from to (contents b ++ es))
      × ((fn : Entry V → S → S × Bool) (s : S)
          → for_each fn (append_values values es b) s ≡ each_entry fn (contents b ++ es) s)
append_values-read values es b t =
    let b' = append_values values es b in
    let (t', all) = append_values-contents values es b t in
    (
      t',
      λ tag from to dst.
          append_matching-contents tag from to b' dst
          ∙ ap (λ l. dst ++ match_entries tag from to l) all,
      λ fn s. for_each-contents fn b' s ∙ ap (λ l. each_entry fn l s) all,
    )
