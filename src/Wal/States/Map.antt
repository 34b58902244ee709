-- ===== src/Wal/States/Map.antt =====
-- The dense slice and the map together are one map from tags to states.
use qv_lite.Prelude.{
  ℕ, zero, suc, ◌+◌, ◌-◌, ◌*◌, ◌≤◌, ◌<◌, ◌≡◌, refl, ◌∙◌, arith, true, false, Bool-cases, inl, inr,
  none, some, List, [], ◌∷◌, ◌++◌, length, length-append, length-replicate, get_or, replicate, ltb,
  leb, ◌==◌, if◌then◌else◌,
}
use qv_lite.Wal.Buffer.{modify}
use qv_lite.Wal.States.{
  max_dense_wal_tag_code, slot, first_known, TagState, TagStates, double_past, new_length,
  load_tag_state, grow, store_tag_state,
}

double_past-lem : (fuel index n : ℕ) → 1 ≤ n → index < n + fuel → index < double_past fuel index n
double_past-lem zero index n h e = omega arith
double_past-lem (suc fuel) index n h e = elim (Bool-cases (ltb index n)) [
  | inl past ↦ rw past (ground arith)
  | inr short ↦ rw short (double_past-lem fuel index (n * 2) (omega arith) (ground arith))
]

new_length-past : (index n : ℕ) → index ≤ max_dense_wal_tag_code → index < new_length index n
new_length-past index n h =
    let start : ℕ = if ltb (n * 2) 64 then 64 else n * 2 in
    let some_start : 1 ≤ start = ground arith in
    let past = double_past-lem (suc index) index start some_start (omega arith) in
    elim (Bool-cases (leb (double_past (suc index) index start) (max_dense_wal_tag_code + 1))) [
      | inl low ↦ rw low past
      | inr high ↦ rw high (omega arith)
    ]

module _ {ℓ} {A : Type ℓ} where
  get_or_padded : (xs : List A) (n k : ℕ) (d : A) → get_or (xs ++ replicate n d) k d ≡ get_or xs k d
  get_or_padded [] zero k d = refl
  get_or_padded [] (suc n) zero d = refl
  get_or_padded [] (suc n) (suc k) d = get_or_padded [] n k d
  get_or_padded (x ∷ xs) n zero d = refl
  get_or_padded (x ∷ xs) n (suc k) d = get_or_padded xs n k d

module _ {A : Type 0} where
  get_or-modify :
      (xs : List A) (k j : ℕ) (a d : A)
      → k < length xs
      → get_or (modify k (λ _. a) xs) j d ≡ (if j == k then a else get_or xs j d)
  get_or-modify [] k j a d h = absurd (omega arith)
  get_or-modify (x ∷ xs) zero zero a d h = refl
  get_or-modify (x ∷ xs) zero (suc j) a d h =
      let off : (suc j == 0) ≡ false = ground arith in rw off refl
  get_or-modify (x ∷ xs) (suc k) zero a d h =
      let off : (0 == suc k) ≡ false = ground arith in rw off refl
  get_or-modify (x ∷ xs) (suc k) (suc j) a d h =
      let same_test : (suc j == suc k) ≡ (j == k) = ground arith in
      get_or-modify xs k j a d (omega arith) ∙ rw same_test refl

module _ {V : Type 0} where
  get_or-grow :
      (key k : ℕ) (dense : List (TagState V)) → get_or (grow key dense) k none ≡ get_or dense k none
  get_or-grow key k dense = elim (Bool-cases (ltb key (length dense))) [
    | inl inside ↦ rw inside refl
    | inr outside ↦
        rw outside (get_or_padded dense (new_length key (length dense) - length dense) k none)
  ]

  length-grow :
      (key : ℕ) (dense : List (TagState V))
      → key ≤ max_dense_wal_tag_code
      → key < length (grow key dense)
  length-grow key dense h = elim (Bool-cases (ltb key (length dense))) [
    | inl inside ↦ rw inside (ground arith)
    | inr outside ↦
        let n = new_length key (length dense) - length dense in
        let nothing : TagState V = none in
        rw outside (
          omega (
            arith,
            length-append dense (replicate n none),
            length-replicate n nothing,
            new_length-past key (length dense) h,
          ))
  ]

  store_tag_state-dense :
      (key : ℕ) (state : ℕ × V) (s : TagStates V)
      → leb key max_dense_wal_tag_code ≡ true
      → ((store_tag_state key state s).dense ≡ modify key (λ _. some state) (grow key s.dense))
        × ((store_tag_state key state s).others ≡ s.others)
  unfolding store_tag_state
  store_tag_state-dense key state s low = rw low (refl, refl)

  store_tag_state-other :
      (key : ℕ) (state : ℕ × V) (s : TagStates V)
      → leb key max_dense_wal_tag_code ≡ false
      → ((store_tag_state key state s).dense ≡ s.dense)
        × ((store_tag_state key state s).others
            ≡ (λ k. if k == key then some state else s.others k))
  unfolding store_tag_state
  store_tag_state-other key state s high = rw high (refl, refl)

  load_tag_state-first :
      (k : ℕ) (s : TagStates V) → load_tag_state k s ≡ first_known (slot k s.dense) (s.others k)
  unfolding load_tag_state
  load_tag_state-first k s = refl

  -- Storing a state of a tag is an update of one map from tags to states, whether the slice or the map
  -- of tags out of its range holds it, and whether the slice has to grow for it or not.
  pub load_tag_state-store :
      (key : ℕ) (state : ℕ × V) (s : TagStates V)
      → (k : ℕ)
      → load_tag_state k (store_tag_state key state s)
        ≡ (if k == key then some state else load_tag_state k s)
  load_tag_state-store key state s k =
      let before = load_tag_state-first k s in
      let after = load_tag_state-first k (store_tag_state key state s) in
      elim (Bool-cases (leb key max_dense_wal_tag_code)) [
        | inl low ↦
            let (dense, others) = store_tag_state-dense key state s low in
            let place =
              get_or-modify (grow key s.dense) key k (some state) none
                (length-grow key s.dense (ground arith)) in
            let kept = get_or-grow key k s.dense in
            elim (Bool-cases (k == key)) [
              | inl same ↦
                  let low_too : leb k max_dense_wal_tag_code ≡ true = ground arith in
                  rw (after, dense, others, low_too, place, same) refl
              | inr differs ↦ rw (after, before, dense, others, place, differs, kept) refl
            ]
        | inr high ↦
            let (dense, others) = store_tag_state-other key state s high in
            elim (Bool-cases (k == key)) [
              | inl same ↦
                  let high_too : leb k max_dense_wal_tag_code ≡ false = ground arith in
                  rw (after, dense, others, high_too, same) refl
              | inr differs ↦ rw (after, before, dense, others, differs) refl
            ]
      ]
