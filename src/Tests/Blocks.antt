-- ===== src/Tests/Blocks.antt =====
-- The block index at concrete inputs.
use qv_lite.Prelude.{ℕ, ◌≡◌, refl, [], ◌∷◌, ◌++◌, false}
use qv_lite.Index
use qv_lite.Index.Appends.{places, IsIndexed}
use qv_lite.Index.Enter.{IsWellFormed, append_block-IsIndexed}
use qv_lite.Index.Matching.{matching_block_positions-scan}

abbrev block : ℕ → ℕ → ℕ → Index.BlockIndexEntry
block tag from to = record {
  attribute = tag;
  min_time = from;
  max_time = to;
  offset = 0;
  data_size = 0;
}

-- Read from a file, with no index by tag yet.
abbrev three_blocks : Index.FileIndex
three_blocks = record Index.new_file_index {
  blocks = block 1 0 9 ∷ block 2 5 6 ∷ block 1 10 19 ∷ [];
  has_tags = false;
}

three_blocks-IsWellFormed : IsWellFormed three_blocks
three_blocks-IsWellFormed h = cc

append_block-IsIndexed_example :
    ((Index.append_block (block 1 20 29) three_blocks).blocks
      ≡ three_blocks.blocks ++ (block 1 20 29 ∷ []))
    × IsIndexed
        (three_blocks.blocks ++ (block 1 20 29 ∷ []))
        (Index.append_block (block 1 20 29) three_blocks)
append_block-IsIndexed_example =
    append_block-IsIndexed (block 1 20 29) three_blocks three_blocks-IsWellFormed

matching_block_positions-scan_example :
    Index.matching_block_positions 1 12 30 three_blocks
    ≡ Index.scan three_blocks.blocks (places 1 0 three_blocks.blocks) 12 30
matching_block_positions-scan_example =
    matching_block_positions-scan 1 12 30 three_blocks three_blocks-IsWellFormed

-- Of the two blocks of tag 1 only the later one reaches to 12.
later_block : Index.matching_block_positions 1 12 30 three_blocks ≡ 2 ∷ []
unfolding Index.matching_block_positions
later_block = refl
