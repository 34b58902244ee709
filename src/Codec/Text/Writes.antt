-- ===== src/Codec/Text/Writes.antt =====
-- What the string encoder holds after a sequence of writes.
use qv_lite.Prelude.{ℕ, ◌+◌, ◌≤◌, ◌<◌, ◌≡◌, refl, sym, ap, ap₂, ◌∙◌, arith, true, false}
use qv_lite.Prelude.{
  same, same-true, some, List, [], ◌∷◌, ◌++◌, append-nil, append_assoc, map, length, length-append,
  get_or, get_or-append_front, get_or-append_back, ltb, if◌then◌else◌, Bool-cases, Option-cases,
  inl, inr, All, All-append, subst,
}
use qv_lite.Codec.Text.{
  Encoder, new_encoder, max_dict_entries, lookup, prefixed, entries, note, write_string, write_all,
}

-- While the dictionary is kept, the indices pick the strings out of it.
pub record Tracks (ss : List (List ℕ)) (e : Encoder) : Type 0 where
  pub picks : map (λ n. get_or e.order n []) e.idx ≡ ss
  pub below : All (λ n. n < length e.order) e.idx
  pub bound : length e.order ≤ max_dict_entries
  pub keys :
      (s : List ℕ) (n : ℕ)
      → lookup e.dict s ≡ some n
      → (n < length e.order) × (get_or e.order n [] ≡ s)

pub record IsFaithful (ss : List (List ℕ)) (e : Encoder) : Type 0 where
  pub kept : e.bytes ≡ entries ss
  pub tracked : e.dict_full ≡ false → Tracks ss e

entries-append : (xs ys : List (List ℕ)) → entries (xs ++ ys) ≡ entries xs ++ entries ys
entries-append [] ys = refl
entries-append (x ∷ xs) ys =
    ap (λ l. prefixed x ++ l) (entries-append xs ys)
    ∙ sym (append_assoc (prefixed x) (entries xs) (entries ys))

map-append : (f : ℕ → List ℕ) (xs ys : List ℕ) → map f (xs ++ ys) ≡ map f xs ++ map f ys
map-append f [] ys = refl
map-append f (x ∷ xs) ys = ap (◌∷◌ (f x)) (map-append f xs ys)

-- A longer dictionary does not change what the indices in range pick.
picks_longer :
    (order : List (List ℕ)) (s : List ℕ) (ns : List ℕ)
    → All (λ n. n < length order) ns
    → map (λ n. get_or (order ++ (s ∷ [])) n []) ns ≡ map (λ n. get_or order n []) ns
picks_longer order s [] h = refl
picks_longer order s (n ∷ ns) (hn, h) =
    ap₂ ◌∷◌ (get_or-append_front order (s ∷ []) n [] hn) (picks_longer order s ns h)

below_longer :
    (order : List (List ℕ)) (s : List ℕ) (ns : List ℕ)
    → All (λ n. n < length order) ns
    → All (λ n. n < length (order ++ (s ∷ []))) ns
below_longer order s [] h = tt
below_longer order s (n ∷ ns) (hn, h) =
    (omega (arith, length-append order (s ∷ [])), below_longer order s ns h)

picked_last :
    (order : List (List ℕ)) (s : List ℕ) → get_or (order ++ (s ∷ [])) (length order) [] ≡ s
picked_last order s =
    let e : length order ≡ length order + 0 = omega arith in
    ap (λ k. get_or (order ++ (s ∷ [])) k []) e ∙ get_or-append_back order (s ∷ []) 0 []

Tracks-known :
    (s : List ℕ) (n : ℕ) (ss : List (List ℕ)) (e : Encoder)
    → lookup e.dict s ≡ some n
    → Tracks ss e
    → Tracks (ss ++ (s ∷ [])) (record e { idx = e.idx ++ (n ∷ []) })
Tracks-known s n ss e h t = record {
  picks =
      map-append (λ n. get_or e.order n []) e.idx (n ∷ [])
      ∙ ap₂ ◌++◌ t.picks (ap (λ x. x ∷ []) (t.keys s n h).1);
  below = All-append (λ n. n < length e.order) e.idx (n ∷ []) t.below ((t.keys s n h).0, tt);
  bound = t.bound;
  keys = t.keys;
}

keys_longer :
    (s : List ℕ) (e : Encoder) (ss : List (List ℕ))
    → Tracks ss e
    → (k : List ℕ) (n : ℕ) → lookup ((s, length e.order) ∷ e.dict) k ≡ some n
    → (n < length (e.order ++ (s ∷ []))) × (get_or (e.order ++ (s ∷ [])) n [] ≡ k)
keys_longer s e ss t k n h = elim (Bool-cases (same s k)) [
  | inl hit ↦
      let at : some (length e.order) ≡ some n = rw hit at h in
      let n_is : length e.order ≡ n = cc in
      rw⁻¹ n_is
        (omega (arith, length-append e.order (s ∷ [])), picked_last e.order s ∙ same-true s k hit)
  | inr miss ↦
      let old = t.keys k n (rw miss at h) in
      (
        omega (arith, length-append e.order (s ∷ []), old.0),
        get_or-append_front e.order (s ∷ []) n [] old.0 ∙ old.1,
      )
]

Tracks-new :
    (s : List ℕ) (ss : List (List ℕ)) (e : Encoder)
    → length e.order < max_dict_entries
    → Tracks ss e
    → Tracks (ss ++ (s ∷ [])) (record e {
      dict = (s, length e.order) ∷ e.dict;
      order = e.order ++ (s ∷ []);
      idx = e.idx ++ (length e.order ∷ []);
    })
Tracks-new s ss e h t = record {
  picks =
      map-append (λ n. get_or (e.order ++ (s ∷ [])) n []) e.idx (length e.order ∷ [])
      ∙ ap₂ ◌++◌ (picks_longer e.order s e.idx t.below ∙ t.picks)
          (ap (λ x. x ∷ []) (picked_last e.order s));
  below =
      All-append (λ n. n < length (e.order ++ (s ∷ []))) e.idx (length e.order ∷ [])
        (below_longer e.order s e.idx t.below) (omega (arith, length-append e.order (s ∷ [])), tt);
  bound = omega (arith, length-append e.order (s ∷ []));
  keys = keys_longer s e ss t;
}

note-Tracks :
    (s : List ℕ) (ss : List (List ℕ)) (e : Encoder)
    → Tracks ss e
    → (note s e).dict_full ≡ false
    → Tracks (ss ++ (s ∷ [])) (note s e)
unfolding note
note-Tracks s ss e t h = elim (Option-cases (lookup e.dict s)) [
  | inr (n, known) ↦ rw (known, note) (Tracks-known s n ss e known t)
  | inl fresh ↦ elim (Bool-cases (ltb (length e.order) max_dict_entries)) [
    | inl room ↦ rw (fresh, note, room) (Tracks-new s ss e (ground arith) t)
    | inr full ↦ let wrong : true ≡ false = rw (fresh, note, full) at h in cc
  ]
]

note-bytes : (s : List ℕ) (e : Encoder) → (note s e).bytes ≡ e.bytes
unfolding note
note-bytes s e = elim (Option-cases (lookup e.dict s)) [
  | inr (n, known) ↦ rw (known, note) refl
  | inl fresh ↦ elim (Bool-cases (ltb (length e.order) max_dict_entries)) [
    | inl room ↦ rw (fresh, note, room) refl
    | inr full ↦ rw (fresh, note, full) refl
  ]
]

write_string-IsFaithful :
    (s : List ℕ) (ss : List (List ℕ)) (e : Encoder)
    → IsFaithful ss e
    → IsFaithful (ss ++ (s ∷ [])) (write_string s e)
unfolding write_string
write_string-IsFaithful s ss e h =
    let e' : Encoder = record e { bytes = e.bytes ++ prefixed s } in
    let stream : e.bytes ++ prefixed s ≡ entries (ss ++ (s ∷ [])) =
      ap₂ ◌++◌ h.kept (sym (append-nil (prefixed s))) ∙ sym (entries-append ss (s ∷ [])) in
    elim (Bool-cases e.dict_full) [
      | inl full ↦
          rw full (record { kept = stream; tracked = λ t. let wrong : true ≡ false = t in cc })
      | inr open' ↦
          let t = h.tracked open' in
          let t' : Tracks ss e' = record {
            picks = t.picks;
            below = t.below;
            bound = t.bound;
            keys = t.keys;
          } in
          subst (λ c. IsFaithful (ss ++ (s ∷ [])) (if c then e' else note s e')) (sym open')
            (record { kept = note-bytes s e' ∙ stream; tracked = λ f. note-Tracks s ss e' t' f })
    ]

write_all-IsFaithful :
    (ts ss : List (List ℕ)) (e : Encoder) → IsFaithful ss e → IsFaithful (ss ++ ts) (write_all ts e)
unfolding write_all
write_all-IsFaithful [] ss e h = rw append-nil h
write_all-IsFaithful (t ∷ ts) ss e h =
    subst (λ l. IsFaithful l (write_all ts (write_string t e))) (append_assoc ss (t ∷ []) ts)
      (write_all-IsFaithful ts (ss ++ (t ∷ [])) (write_string t e)
        (write_string-IsFaithful t ss e h))

pub write_all-new_encoder : (ss : List (List ℕ)) → IsFaithful ss (write_all ss new_encoder)
write_all-new_encoder ss = write_all-IsFaithful ss [] new_encoder (record {
  kept = refl;
  tracked = λ _. record { picks = refl; below = tt; bound = omega arith; keys = λ s n h. cc };
})
