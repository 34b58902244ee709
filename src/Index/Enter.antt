-- ===== src/Index/Enter.antt =====
-- Entering a block keeps the derived index right.
use qv_lite.Prelude.{
  ℕ, suc, ◌+◌, ◌-◌, ◌<◌, ◌≡◌, refl, sym, ap, ◌∙◌, arith, Bool, true, false, Bool-cases, inl, inr,
  subst,
}
use qv_lite.Prelude.{
  List, [], ◌∷◌, ◌++◌, append-nil, append_assoc, length, length-append, get_or, get_or-append_front,
  All, ◌==◌, if◌then◌else◌,
}
use qv_lite.Index
use qv_lite.Index.Appends.{
  places, IsSorted, IsIndexed, places-append, places-below, get_or-below, IsSorted-longer,
  IsSorted-push,
}

-- The test reads only blocks that stand already.
goes_back-prefix :
    (bs rest : List Index.BlockIndexEntry) (ps : List ℕ) (b : Index.BlockIndexEntry)
    → All (λ p. p < length bs) ps
    → Index.goes_back (bs ++ rest) ps b ≡ Index.goes_back bs ps b
goes_back-prefix bs rest [] b h = refl
goes_back-prefix bs rest (p ∷ ps) b h =
    rw
      (get_or-append_front bs rest (get_or (p ∷ ps) (length (p ∷ ps) - 1) 0) Index.no_entry
        (get_or-below (length bs) (p ∷ ps) (length (p ∷ ps) - 1) h (omega arith)))
      refl

positions-below :
    (bs : List Index.BlockIndexEntry) (idx : Index.FileIndex) (tag : ℕ)
    → IsIndexed bs idx
    → All (λ p. p < length bs) (idx.tag_blocks tag)
positions-below bs idx tag h =
    let zero_first : 0 + length bs ≡ length bs = omega arith in
    rw (h.listed tag)
      (subst (λ (m : ℕ). All (λ p. p < m) (places tag 0 bs)) zero_first (places-below tag 0 bs))

places-push :
    (tag : ℕ) (bs : List Index.BlockIndexEntry) (b : Index.BlockIndexEntry)
    → places tag 0 (bs ++ (b ∷ []))
      ≡ (if tag == b.attribute then places tag 0 bs ++ (length bs ∷ []) else places tag 0 bs)
places-push tag bs b =
    let zero_first : 0 + length bs ≡ length bs = omega arith in
    elim (Bool-cases (tag == b.attribute)) [
      | inl hit ↦ rw (places-append tag 0 bs (b ∷ []), hit, zero_first) refl
      | inr miss ↦ rw (places-append tag 0 bs (b ∷ []), miss) (append-nil (places tag 0 bs))
    ]

module _ (bs rest : List Index.BlockIndexEntry) (b : Index.BlockIndexEntry) (idx : Index.FileIndex)
    (whole : idx.blocks ≡ bs ++ rest) (h : IsIndexed bs idx) where
  abbrev entered : Index.FileIndex
  entered = Index.enter b (length bs) idx

  entered-listed : (tag : ℕ) → entered.tag_blocks tag ≡ places tag 0 (bs ++ (b ∷ []))
  unfolding Index.enter
  entered-listed tag = elim (Bool-cases (tag == b.attribute)) [
    | inl hit ↦
        let same_tag : tag ≡ b.attribute = ground arith in
        rw (places-push tag bs b, hit)
          (ap (λ l. l ++ (length bs ∷ [])) (ap idx.tag_blocks (sym same_tag) ∙ h.listed tag))
    | inr miss ↦ rw (places-push tag bs b, miss) (h.listed tag)
  ]

  entered-IsSorted :
      (tag : ℕ)
      → entered.unsorted_tags tag ≡ false
      → IsSorted (bs ++ (b ∷ [])) (entered.tag_blocks tag)
  unfolding Index.enter
  entered-IsSorted tag u = elim (Bool-cases (tag == b.attribute)) [
    | inr miss ↦ elim (Bool-cases (Index.goes_back idx.blocks (idx.tag_blocks b.attribute) b)) [
      | inl back ↦ rw miss (
          IsSorted-longer bs b (idx.tag_blocks tag) (positions-below bs idx tag h)
            (h.sorted tag (rw (back, miss) at u)))
      | inr forth ↦ rw miss (
          IsSorted-longer bs b (idx.tag_blocks tag) (positions-below bs idx tag h)
            (h.sorted tag (rw forth at u)))
    ]
    | inl hit ↦
        let same_tag : tag ≡ b.attribute = ground arith in
        elim (Bool-cases (Index.goes_back idx.blocks (idx.tag_blocks b.attribute) b)) [
          | inl back ↦ let wrong : true ≡ false = rw (back, hit) at u in cc
          | inr forth ↦
              let below = positions-below bs idx b.attribute h in
              let old =
                h.sorted b.attribute
                  (subst (λ t. idx.unsorted_tags t ≡ false) same_tag (rw forth at u)) in
              let forth' : Index.goes_back bs (idx.tag_blocks b.attribute) b ≡ false =
                sym (goes_back-prefix bs rest (idx.tag_blocks b.attribute) b below)
                ∙ ap (λ l. Index.goes_back l (idx.tag_blocks b.attribute) b) (sym whole)
                ∙ forth in
              rw hit (IsSorted-push bs b (idx.tag_blocks b.attribute) below old forth')
        ]
  ]

  entered-IsIndexed : IsIndexed (bs ++ (b ∷ [])) entered
  entered-IsIndexed = record { listed = entered-listed; sorted = entered-IsSorted }

enter-blocks :
    (b : Index.BlockIndexEntry) (n : ℕ) (idx : Index.FileIndex)
    → ((Index.enter b n idx).blocks ≡ idx.blocks) × ((Index.enter b n idx).has_tags ≡ idx.has_tags)
unfolding Index.enter
enter-blocks b n idx = (refl, refl)

enter_from-IsIndexed :
    (rest bs : List Index.BlockIndexEntry) (n : ℕ) (idx : Index.FileIndex)
    → n ≡ length bs
    → idx.blocks ≡ bs ++ rest
    → IsIndexed bs idx
    → IsIndexed (bs ++ rest) (Index.enter_from rest n idx)
      × ((Index.enter_from rest n idx).blocks ≡ idx.blocks)
unfolding Index.enter_from
enter_from-IsIndexed [] bs n idx hn hw h = (rw append-nil h, refl)
enter_from-IsIndexed (b ∷ rest) bs n idx hn hw h =
    let one =
      subst (λ (m : ℕ). IsIndexed (bs ++ (b ∷ [])) (Index.enter b m idx)) (sym hn)
        (entered-IsIndexed bs (b ∷ rest) b idx hw h) in
    let split = append_assoc bs (b ∷ []) rest in
    let kept = (enter-blocks b n idx).0 in
    let (indexed, same) =
      enter_from-IsIndexed rest (bs ++ (b ∷ [])) (suc n) (Index.enter b n idx)
        (omega (arith, length-append bs (b ∷ []))) (kept ∙ hw ∙ sym split) one in
    (
      subst (λ l. IsIndexed l (Index.enter_from rest (suc n) (Index.enter b n idx))) split indexed,
      same ∙ kept,
    )

-- What `rebuild_tag_index` makes of any index.
pub rebuild_tag_index-IsIndexed :
    (idx : Index.FileIndex)
    → IsIndexed idx.blocks (Index.rebuild_tag_index idx)
      × ((Index.rebuild_tag_index idx).blocks ≡ idx.blocks)
unfolding Index.rebuild_tag_index
rebuild_tag_index-IsIndexed idx =
    enter_from-IsIndexed idx.blocks [] 0
      (record idx { has_tags = true; tag_blocks = λ t. []; unsorted_tags = λ t. false }) refl refl
      (record { listed = λ tag. refl; sorted = λ tag u i j hi hj. absurd (omega arith) })

-- The derived index is right, or it is not there yet.
abbrev pub IsWellFormed : Index.FileIndex → Type 0
IsWellFormed idx = idx.has_tags ≡ true → IsIndexed idx.blocks idx

-- What both `append_block` and `matching_block_positions` begin with.
pub ready_index :
    (idx : Index.FileIndex)
    → IsWellFormed idx
    → IsIndexed idx.blocks (if idx.has_tags then idx else Index.rebuild_tag_index idx)
      × ((if idx.has_tags then idx else Index.rebuild_tag_index idx).blocks ≡ idx.blocks)
ready_index idx h = by_tags idx.has_tags refl
  where
    by_tags :
        (t : Bool)
        → idx.has_tags ≡ t
        → IsIndexed idx.blocks (if t then idx else Index.rebuild_tag_index idx)
          × ((if t then idx else Index.rebuild_tag_index idx).blocks ≡ idx.blocks)
    by_tags true e = (h e, refl)
    by_tags false e = rebuild_tag_index-IsIndexed idx

-- `append_block` adds the block at the end, and leaves the positions of every tag right: they are the
-- places of its blocks, and a tag is unmarked only when its blocks stand in the order of time. The
-- same held before, or there was no index by tag.
pub append_block-IsIndexed :
    (b : Index.BlockIndexEntry) (idx : Index.FileIndex)
    → IsWellFormed idx
    → ((Index.append_block b idx).blocks ≡ idx.blocks ++ (b ∷ []))
      × IsIndexed (idx.blocks ++ (b ∷ [])) (Index.append_block b idx)
unfolding Index.append_block
append_block-IsIndexed b idx h =
    let ready = if idx.has_tags then idx else Index.rebuild_tag_index idx in
    let (indexed, same) = ready_index idx h in
    let indexed' = subst (λ l. IsIndexed l ready) (sym same) indexed in
    let one = entered-IsIndexed ready.blocks [] b ready (sym (append-nil ready.blocks)) indexed' in
    let blocks_are = ap (λ l. l ++ (b ∷ [])) same in
    (
      blocks_are,
      subst
          (λ l. IsIndexed l (record (Index.enter b (length ready.blocks) ready) {
            blocks = ready.blocks ++ (b ∷ []);
          }))
          blocks_are (record { listed = one.listed; sorted = one.sorted }),
    )
