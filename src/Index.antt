-- ===== src/Index.antt =====
-- FileIndex of tsdb/segment_index.go: the blocks of one data segment, and where those of a tag stand.
mod Search
pub mod Appends
pub mod Enter
pub mod Matching
use qv_lite.Prelude.{ℕ, zero, suc, ◌+◌, ◌-◌, ◌/◌, Bool, true, false, not, ◌&&◌, ◌||◌}
use qv_lite.Prelude.{List, [], ◌∷◌, ◌++◌, length, get_or, take, drop, ltb, leb, ◌==◌, if◌then◌else◌}
use qv_lite.Wire.{leb64, ltb64}

pub record BlockIndexEntry : Type 0 where
  pub attribute : ℕ
  pub min_time : ℕ
  pub max_time : ℕ
  pub offset : ℕ
  pub data_size : ℕ

abbrev pub no_entry : BlockIndexEntry
no_entry = record { attribute = 0; min_time = 0; max_time = 0; offset = 0; data_size = 0 }

-- `tag_blocks` and `unsorted_tags` are maps with a value for each tag: no positions, and `false`, when
-- the tag is missing. `has_tags` tells whether `tagBlocks` is there at all.
pub record FileIndex : Type 0 where
  pub min_time : ℕ
  pub max_time : ℕ
  pub blocks : List BlockIndexEntry
  pub has_tags : Bool
  pub tag_blocks : ℕ → List ℕ
  pub unsorted_tags : ℕ → Bool

abbrev pub new_file_index : FileIndex
new_file_index = record {
  min_time = 0;
  max_time = 0;
  blocks = [];
  has_tags = true;
  tag_blocks = λ t. [];
  unsorted_tags = λ t. false;
}

abbrev pub update : {A : Type 0} → (ℕ → A) → ℕ → A → ℕ → A
update f k a t = if t == k then a else f t

abbrev pub block_at : List BlockIndexEntry → ℕ → BlockIndexEntry
block_at blocks position = get_or blocks position no_entry

-- The last block of the tag begins or ends later than this one.
abbrev pub goes_back : List BlockIndexEntry → List ℕ → BlockIndexEntry → Bool
goes_back blocks positions block =
    let previous = block_at blocks (get_or positions (length positions - 1) 0) in
    ltb 0 (length positions)
    && (ltb64 block.min_time previous.min_time || ltb64 block.max_time previous.max_time)

-- What both loops do with one block that stands at `position`.
unfoldable pub enter : BlockIndexEntry → ℕ → FileIndex → FileIndex
enter block position idx =
    let positions = idx.tag_blocks block.attribute in
    record idx {
      unsorted_tags =
          if goes_back idx.blocks positions block
          then update idx.unsorted_tags block.attribute true
          else idx.unsorted_tags;
      tag_blocks = update idx.tag_blocks block.attribute (positions ++ (position ∷ []));
    }

unfoldable pub enter_from : List BlockIndexEntry → ℕ → FileIndex → FileIndex
unfolding enter
enter_from [] position idx = idx
enter_from (b ∷ bs) position idx = enter_from bs (suc position) (enter b position idx)

unfoldable pub rebuild_tag_index : FileIndex → FileIndex
unfolding enter_from
rebuild_tag_index idx =
    enter_from idx.blocks 0
      (record idx { has_tags = true; tag_blocks = λ t. []; unsorted_tags = λ t. false })

unfoldable pub append_block : BlockIndexEntry → FileIndex → FileIndex
unfolding rebuild_tag_index enter
append_block block idx =
    let ready = if idx.has_tags then idx else rebuild_tag_index idx in
    let entered = enter block (length ready.blocks) ready in
    record entered { blocks = ready.blocks ++ (block ∷ []) }

-- `sort.Search`: the least number below `j` at which `f` holds, from `i` on. The interval gets shorter
-- in every round, so that `n` rounds are enough for `n` numbers.
unfoldable pub search_from : ℕ → (ℕ → Bool) → ℕ → ℕ → ℕ
search_from zero f i j = i
search_from (suc fuel) f i j =
    let h = (i + j) / 2 in
    let left = search_from fuel f i h in
    let right = search_from fuel f (h + 1) j in if ltb i j then (if f h then left else right) else i

abbrev pub sort_search : ℕ → (ℕ → Bool) → ℕ
sort_search n f = search_from n f 0 n

abbrev pub overlaps : BlockIndexEntry → ℕ → ℕ → Bool
overlaps block start_time end_time =
    leb64 start_time block.max_time && leb64 block.min_time end_time

abbrev pub scan : List BlockIndexEntry → List ℕ → ℕ → ℕ → List ℕ
scan blocks [] start_time end_time = []
scan blocks (p ∷ ps) start_time end_time =
    let rest = scan blocks ps start_time end_time in
    if overlaps (block_at blocks p) start_time end_time then p ∷ rest else rest

unfoldable pub cut : List BlockIndexEntry → List ℕ → ℕ → ℕ → List ℕ
unfolding search_from
cut blocks positions start_time end_time =
    let first =
      sort_search (length positions)
        (λ i. leb64 start_time (block_at blocks (get_or positions i 0)).max_time) in
    let later = drop first positions in
    let last =
      sort_search (length later)
        (λ i. ltb64 end_time (block_at blocks (get_or later i 0)).min_time) in
    take last later

-- The index is there; the caller's `nil` index has no blocks.
unfoldable pub matching_block_positions : ℕ → ℕ → ℕ → FileIndex → List ℕ
unfolding rebuild_tag_index cut
matching_block_positions tag start_time end_time idx =
    let ready = if idx.has_tags then idx else rebuild_tag_index idx in
    let positions = ready.tag_blocks tag in
    if length idx.blocks == 0
    then []
    else if length positions == 0
    then []
    else if ready.unsorted_tags tag
    then scan ready.blocks positions start_time end_time
    else cut ready.blocks positions start_time end_time
