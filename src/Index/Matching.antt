-- ===== src/Index/Matching.antt =====
-- The blocks that a query finds in the index.
use qv_lite.Prelude.{
  ℕ, zero, suc, ◌+◌, ◌≤◌, ◌<◌, ◌≡◌, refl, sym, ap, ap₂, ◌∙◌, arith, Bool, true, false, Bool-cases,
  inl, inr, subst,
}
use qv_lite.Prelude.{List, [], ◌∷◌, length, get_or, take, drop, length-drop, ◌==◌, if◌then◌else◌}
use qv_lite.Wire.{leb64, ltb64}
use qv_lite.Index
use qv_lite.Index.Search.{sort_search-Border}
use qv_lite.Index.Appends.{places, Before, IsSorted}
use qv_lite.Index.Enter.{IsWellFormed, ready_index}

-- The elements that pass a test.
abbrev select : (ℕ → Bool) → List ℕ → List ℕ
select q [] = []
select q (p ∷ ps) = let rest = select q ps in if q p then p ∷ rest else rest

select-none :
    (q : ℕ → Bool) (ps : List ℕ)
    → ((k : ℕ) → k < length ps → q (get_or ps k 0) ≡ false)
    → select q ps ≡ []
select-none q [] h = refl
select-none q (p ∷ ps) h =
    let first : q p ≡ false = h 0 (omega arith) in
    rw first (select-none q ps (λ k hk. h (suc k) (omega arith)))

select-all :
    (q : ℕ → Bool) (ps : List ℕ)
    → ((k : ℕ) → k < length ps → q (get_or ps k 0) ≡ true)
    → select q ps ≡ ps
select-all q [] h = refl
select-all q (p ∷ ps) h =
    let first : q p ≡ true = h 0 (omega arith) in
    rw first (ap (◌∷◌ p) (select-all q ps (λ k hk. h (suc k) (omega arith))))

-- A test that holds from place `r` on, and one that holds up to it.
select-drop :
    (q : ℕ → Bool) (ps : List ℕ) (r : ℕ)
    → ((k : ℕ) → k < r → k < length ps → q (get_or ps k 0) ≡ false)
    → ((k : ℕ) → r ≤ k → k < length ps → q (get_or ps k 0) ≡ true)
    → select q ps ≡ drop r ps
select-drop q [] zero low high = refl
select-drop q [] (suc r) low high = refl
select-drop q (p ∷ ps) zero low high = select-all q (p ∷ ps) (λ k hk. high k (omega arith) hk)
select-drop q (p ∷ ps) (suc r) low high =
    let first : q p ≡ false = low 0 (omega arith) (omega arith) in
    rw first (
      select-drop q ps r (λ k hr hk. low (suc k) (omega arith) (omega arith))
        (λ k hr hk. high (suc k) (omega arith) (omega arith)))

select-take :
    (q : ℕ → Bool) (ps : List ℕ) (r : ℕ)
    → ((k : ℕ) → k < r → k < length ps → q (get_or ps k 0) ≡ true)
    → ((k : ℕ) → r ≤ k → k < length ps → q (get_or ps k 0) ≡ false)
    → select q ps ≡ take r ps
select-take q [] zero low high = refl
select-take q [] (suc r) low high = refl
select-take q (p ∷ ps) zero low high = select-none q (p ∷ ps) (λ k hk. high k (omega arith) hk)
select-take q (p ∷ ps) (suc r) low high =
    let first : q p ≡ true = low 0 (omega arith) (omega arith) in
    rw first (
      ap (◌∷◌ p) (
        select-take q ps r (λ k hr hk. low (suc k) (omega arith) (omega arith))
          (λ k hr hk. high (suc k) (omega arith) (omega arith))))

scan-select :
    (blocks : List Index.BlockIndexEntry) (ps : List ℕ) (s e : ℕ)
    → Index.scan blocks ps s e
      ≡ select
          (λ p. leb64 (Index.block_at blocks p).min_time e)
          (select (λ p. leb64 s (Index.block_at blocks p).max_time) ps)
scan-select blocks [] s e = refl
scan-select blocks (p ∷ ps) s e = elim (Bool-cases (leb64 s (Index.block_at blocks p).max_time)) [
  | inr no' ↦ rw (no', scan-select blocks ps s e) refl
  | inl yes' ↦ rw (yes', scan-select blocks ps s e) refl
]

get_or-drop : (r : ℕ) (ps : List ℕ) (k : ℕ) → get_or (drop r ps) k 0 ≡ get_or ps (r + k) 0
get_or-drop zero ps k = ap (λ i. get_or ps i 0) (omega arith)
get_or-drop (suc r) [] k = refl
get_or-drop (suc r) (p ∷ ps) k =
    let e : suc r + k ≡ suc (r + k) = omega arith in rw e (get_or-drop r ps k)

IsSorted-drop :
    (blocks : List Index.BlockIndexEntry) (ps : List ℕ) (r : ℕ)
    → IsSorted blocks ps
    → IsSorted blocks (drop r ps)
IsSorted-drop blocks ps r sorted i j hi hj =
    rw (get_or-drop r ps i, get_or-drop r ps j)
      (sorted (r + i) (r + j) (omega arith) (omega (arith, length-drop r ps)))

starts_later :
    (x y : Index.BlockIndexEntry) (s : ℕ)
    → Before x y
    → leb64 s x.max_time ≡ true
    → leb64 s y.max_time ≡ true
starts_later x y s b h = ground arith

begins_later :
    (x y : Index.BlockIndexEntry) (e : ℕ)
    → Before x y
    → ltb64 e x.min_time ≡ true
    → ltb64 e y.min_time ≡ true
begins_later x y e b h = ground arith

not_after :
    (x : Index.BlockIndexEntry) (e : ℕ) → ltb64 e x.min_time ≡ false → leb64 x.min_time e ≡ true
not_after x e h = ground arith

after : (x : Index.BlockIndexEntry) (e : ℕ) → ltb64 e x.min_time ≡ true → leb64 x.min_time e ≡ false
after x e h = ground arith

-- With sorted blocks the two searches cut out exactly the blocks that a scan finds.
cut-scan :
    (blocks : List Index.BlockIndexEntry) (ps : List ℕ) (s e : ℕ)
    → IsSorted blocks ps
    → Index.cut blocks ps s e ≡ Index.scan blocks ps s e
unfolding Index.cut
cut-scan blocks ps s e sorted =
    let entry : List ℕ → ℕ → Index.BlockIndexEntry = λ l i. Index.block_at blocks (get_or l i 0) in
    let starts : ℕ → Bool = λ p. leb64 s (Index.block_at blocks p).max_time in
    let ends : ℕ → Bool = λ p. leb64 (Index.block_at blocks p).min_time e in
    let f : ℕ → Bool = λ i. starts (get_or ps i 0) in
    let first = Index.sort_search (length ps) f in
    let border =
      sort_search-Border (length ps) f
        (λ i j hi hj h. starts_later (entry ps i) (entry ps j) s (sorted i j hi hj) h) in
    let later = drop first ps in
    let g : ℕ → Bool = λ i. ltb64 e (Index.block_at blocks (get_or later i 0)).min_time in
    let sorted' = IsSorted-drop blocks ps first sorted in
    let border' =
      sort_search-Border (length later) g
        (λ i j hi hj h. begins_later (entry later i) (entry later j) e (sorted' i j hi hj) h) in
    let front = select-drop starts ps first (λ k hr hk. border.below k hr) border.above in
    let back =
      select-take ends later (Index.sort_search (length later) g)
        (λ k hr hk. not_after (entry later k) e (border'.below k hr))
        (λ k hr hk. after (entry later k) e (border'.above k hr hk)) in
    sym (scan-select blocks ps s e ∙ ap (select ends) front ∙ back)

scan-empty :
    (blocks : List Index.BlockIndexEntry) (ps : List ℕ) (s e : ℕ)
    → length ps ≡ 0
    → Index.scan blocks ps s e ≡ []
scan-empty blocks [] s e h = refl
scan-empty blocks (p ∷ ps) s e h = absurd (omega arith)

places-empty : (tag : ℕ) (bs : List Index.BlockIndexEntry) → length bs ≡ 0 → places tag 0 bs ≡ []
places-empty tag [] h = refl
places-empty tag (b ∷ bs) h = absurd (omega arith)

-- A query finds exactly the blocks of its tag that overlap its range of time, in the order of the
-- file, whether the blocks of the tag are in the order of time (two binary searches) or not (a scan).
-- The index by tag is right or not built yet, as `append_block` leaves it.
pub matching_block_positions-scan :
    (tag s e : ℕ) (idx : Index.FileIndex)
    → IsWellFormed idx
    → Index.matching_block_positions tag s e idx
      ≡ Index.scan idx.blocks (places tag 0 idx.blocks) s e
unfolding Index.matching_block_positions
matching_block_positions-scan tag s e idx h =
    let ready = if idx.has_tags then idx else Index.rebuild_tag_index idx in
    let (indexed, same) = ready_index idx h in
    let listed = indexed.listed tag in
    let scanned : Index.scan ready.blocks (ready.tag_blocks tag) s e
        ≡ Index.scan idx.blocks (places tag 0 idx.blocks) s e =
      ap₂ (λ bs ps. Index.scan bs ps s e) same listed in
    elim (Bool-cases (length idx.blocks == 0)) [
      | inl none_at_all ↦ rw (none_at_all, places-empty tag idx.blocks (ground arith)) refl
      | inr some_blocks ↦ elim (Bool-cases (length (ready.tag_blocks tag) == 0)) [
        | inl no_position ↦
            rw (some_blocks, no_position)
              (sym (scan-empty ready.blocks (ready.tag_blocks tag) s e (ground arith)) ∙ scanned)
        | inr positions ↦ elim (Bool-cases (ready.unsorted_tags tag)) [
          | inl marked ↦ rw (some_blocks, positions, marked) scanned
          | inr unmarked ↦
              rw (some_blocks, positions, unmarked)
                (cut-scan ready.blocks (ready.tag_blocks tag) s e (
                    subst (λ l. IsSorted l (ready.tag_blocks tag)) (sym same)
                      (indexed.sorted tag unmarked))
                  ∙ scanned)
        ]
      ]
    ]
