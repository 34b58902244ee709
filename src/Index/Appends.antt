-- ===== src/Index/Appends.antt =====
-- The derived index that `append_block` and `rebuild_tag_index` keep.
use qv_lite.Prelude.{
  ℕ, zero, suc, ◌+◌, ◌-◌, ◌≤◌, ◌<◌, ◌≡◌, refl, ap, ◌∙◌, arith, false, Bool-cases, inl, inr, subst,
}
use qv_lite.Prelude.{
  List, [], ◌∷◌, ◌++◌, length, length-append, get_or, get_or-append_front, get_or-append_back, All,
  ltb, ◌==◌, if◌then◌else◌,
}
use native.Mathlib.Nat.{le_refl}
use qv_lite.Wire.{rank}
use qv_lite.Index

-- The positions of the blocks of a tag, counted from `position` on.
abbrev pub places : ℕ → ℕ → List Index.BlockIndexEntry → List ℕ
places tag position [] = []
places tag position (b ∷ bs) =
    let rest = places tag (suc position) bs in if tag == b.attribute then position ∷ rest else rest

-- Neither begins nor ends later.
abbrev pub Before : Index.BlockIndexEntry → Index.BlockIndexEntry → Type 0
Before x y = (rank x.min_time ≤ rank y.min_time) × (rank x.max_time ≤ rank y.max_time)

abbrev pub IsSorted : List Index.BlockIndexEntry → List ℕ → Type 0
IsSorted blocks ps =
    (i j : ℕ)
    → i ≤ j
    → j < length ps
    → Before (Index.block_at blocks (get_or ps i 0)) (Index.block_at blocks (get_or ps j 0))

-- The derived fields say of the blocks `bs` what they should.
pub record IsIndexed (bs : List Index.BlockIndexEntry) (idx : Index.FileIndex) : Type 0 where
  pub listed : (tag : ℕ) → idx.tag_blocks tag ≡ places tag 0 bs
  pub sorted : (tag : ℕ) → idx.unsorted_tags tag ≡ false → IsSorted bs (idx.tag_blocks tag)

pub places-append :
    (tag position : ℕ) (xs ys : List Index.BlockIndexEntry)
    → places tag position (xs ++ ys)
      ≡ places tag position xs ++ places tag (position + length xs) ys
places-append tag position [] ys = ap (λ p. places tag p ys) (omega arith)
places-append tag position (x ∷ xs) ys =
    let next : suc position + length xs ≡ position + suc (length xs) = omega arith in
    let rest =
      places-append tag (suc position) xs ys
      ∙ ap (λ p. places tag (suc position) xs ++ places tag p ys) next in
    elim (Bool-cases (tag == x.attribute)) [
      | inl hit ↦ rw (hit, rest) refl
      | inr miss ↦ rw (miss, rest) refl
    ]

pub places-below :
    (tag position : ℕ) (xs : List Index.BlockIndexEntry)
    → All (λ p. p < position + length xs) (places tag position xs)
places-below tag position [] = tt
places-below tag position (x ∷ xs) =
    let next : suc position + length xs ≡ position + suc (length xs) = omega arith in
    let rest =
      subst (λ (m : ℕ). All (λ p. p < m) (places tag (suc position) xs)) next
        (places-below tag (suc position) xs) in
    elim (Bool-cases (tag == x.attribute)) [
      | inl hit ↦ rw hit (omega arith, rest)
      | inr miss ↦ rw miss rest
    ]

pub get_or-below :
    (n : ℕ) (ps : List ℕ) (k : ℕ) → All (λ p. p < n) ps → k < length ps → get_or ps k 0 < n
get_or-below n [] k h hk = absurd (omega arith)
get_or-below n (p ∷ ps) zero (h, hs) hk = h
get_or-below n (p ∷ ps) (suc k) (h, hs) hk = get_or-below n ps k hs (omega arith)

-- The blocks that stand already are not moved by one more.
kept_block :
    (bs : List Index.BlockIndexEntry) (b : Index.BlockIndexEntry) (ps : List ℕ) (k : ℕ)
    → All (λ p. p < length bs) ps
    → k < length ps
    → Index.block_at (bs ++ (b ∷ [])) (get_or ps k 0) ≡ Index.block_at bs (get_or ps k 0)
kept_block bs b ps k h hk =
    get_or-append_front bs (b ∷ []) (get_or ps k 0) Index.no_entry
      (get_or-below (length bs) ps k h hk)

last_block :
    (bs : List Index.BlockIndexEntry) (b : Index.BlockIndexEntry)
    → Index.block_at (bs ++ (b ∷ [])) (length bs) ≡ b
last_block bs b =
    ap (Index.block_at (bs ++ (b ∷ []))) {x = length bs} {y = length bs + 0} (omega arith)
    ∙ get_or-append_back bs (b ∷ []) 0 Index.no_entry

pub IsSorted-longer :
    (bs : List Index.BlockIndexEntry) (b : Index.BlockIndexEntry) (ps : List ℕ)
    → All (λ p. p < length bs) ps
    → IsSorted bs ps
    → IsSorted (bs ++ (b ∷ [])) ps
IsSorted-longer bs b ps h sorted i j hi hj =
    rw (kept_block bs b ps i h (omega arith), kept_block bs b ps j h hj) (sorted i j hi hj)

last_place : (ps : List ℕ) (n : ℕ) → get_or (ps ++ (n ∷ [])) (length ps) 0 ≡ n
last_place [] n = refl
last_place (p ∷ ps) n = last_place ps n

Before-newest :
    (bs : List Index.BlockIndexEntry) (b : Index.BlockIndexEntry) (ps : List ℕ) (i : ℕ)
    → i < length ps
    → IsSorted bs ps
    → Index.goes_back bs ps b ≡ false
    → Before (Index.block_at bs (get_or ps i 0)) b
Before-newest bs b ps i hi sorted forth =
    let to_last = sorted i (length ps - 1) (omega arith) (omega arith) in
    (ground arith, ground arith)

-- One more block after the last of its tag, if it does not go back.
pub IsSorted-push :
    (bs : List Index.BlockIndexEntry) (b : Index.BlockIndexEntry) (ps : List ℕ)
    → All (λ p. p < length bs) ps
    → IsSorted bs ps
    → Index.goes_back bs ps b ≡ false
    → IsSorted (bs ++ (b ∷ [])) (ps ++ (length bs ∷ []))
IsSorted-push bs b ps h sorted forth i j hi hj =
    let size = length-append ps (length bs ∷ []) in
    let newest : Index.block_at (bs ++ (b ∷ [])) (get_or (ps ++ (length bs ∷ [])) (length ps) 0)
        ≡ b =
      ap (Index.block_at (bs ++ (b ∷ []))) (last_place ps (length bs)) ∙ last_block bs b in
    let older : (k : ℕ)
        → k < length ps
        → Index.block_at (bs ++ (b ∷ [])) (get_or (ps ++ (length bs ∷ [])) k 0)
          ≡ Index.block_at bs (get_or ps k 0) =
      λ k hk.
        ap (Index.block_at (bs ++ (b ∷ []))) (get_or-append_front ps (length bs ∷ []) k 0 hk)
        ∙ kept_block bs b ps k h hk in
    elim (Bool-cases (ltb j (length ps))) [
      | inl old ↦ rw (older i (ground arith), older j (ground arith)) (sorted i j hi (ground arith))
      | inr new ↦
          let at_end : j ≡ length ps = ground (arith, size) in
          elim (Bool-cases (ltb i (length ps))) [
            | inl before ↦
                rw (at_end, newest, older i (ground arith))
                  (Before-newest bs b ps i (ground arith) sorted forth)
            | inr both ↦
                let at_end' : i ≡ length ps = ground (arith, size) in
                rw (at_end, at_end', newest) (le_refl (rank b.min_time), le_refl (rank b.max_time))
          ]
    ]
