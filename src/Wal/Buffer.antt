-- ===== src/Wal/Buffer.antt =====
-- The walReadBuffer of tsdb/file_wal.go: the decoded entries of a log file, in chunks.
pub mod Contents
use qv_lite.Prelude.{
  ℕ, zero, suc, ◌+◌, ◌-◌, ◌*◌, ◌/◌, Bool, true, false, not, ◌&&◌, ◌||◌, Option, none, some, List,
  [], ◌∷◌, ◌++◌, length, get_or, take, drop, replicate, map, ltb, leb, ◌==◌, if◌then◌else◌,
}
use qv_lite.Wire.{leb64}
use qv_lite.Wal.Frames.{Values, Entry}

abbrev pub max_wal_tag_index_bytes : ℕ
max_wal_tag_index_bytes = 8388608

abbrev pub min_indexed_chunk_entries : ℕ
min_indexed_chunk_entries = 512

abbrev pub max_retained_wal_read_buffer_bytes : ℕ
max_retained_wal_read_buffer_bytes = 12582912

abbrev pub min2 : ℕ → ℕ → ℕ
min2 a b = if leb a b then a else b

-- The element at a place, changed.
abbrev pub modify : {A : Type 0} → ℕ → (A → A) → List A → List A
modify n f [] = []
modify zero f (x ∷ xs) = f x ∷ xs
modify (suc n) f (x ∷ xs) = x ∷ modify n f xs

-- An index from tags to positions: the list of its tags, each once, and the positions of each.
pub record ChunkIndex : Type 0 where
  pub tags : List ℕ
  pub positions : ℕ → List ℕ

abbrev pub has_tag : List ℕ → ℕ → Bool
has_tag [] t = false
has_tag (k ∷ ks) t = k == t || has_tag ks t

abbrev pub add_position : ℕ → ℕ → ChunkIndex → ChunkIndex
add_position key j idx = record {
  tags = if has_tag idx.tags key then idx.tags else key ∷ idx.tags;
  positions = λ t. if t == key then idx.positions t ++ (j ∷ []) else idx.positions t;
}

unfoldable pub build_index : List ℕ → ℕ → ChunkIndex → ChunkIndex
build_index [] j idx = idx
build_index (key ∷ keys) j idx = build_index keys (suc j) (add_position key j idx)

abbrev pub no_positions : ChunkIndex
no_positions = record { tags = []; positions = λ t. [] }

abbrev pub set_index : List (Option ChunkIndex) → ℕ → ChunkIndex → List (Option ChunkIndex)
set_index indexes c idx =
    modify c (λ _. some idx) (indexes ++ replicate (suc c - length indexes) none)

-- A point of an answer: a timestamp and a value.
abbrev pub Point : Type 0 → Type 0
Point V = ℕ × V

-- The three parallel slices of a chunk are one list of entries. `chunks` holds the active chunks and
-- then spare ones, and `tag_indexes` an index for each chunk that has one.
pub record ReadBuffer (V : Type 0) : Type 0 where
  pub chunks : List (List (Entry V))
  pub active_chunks : ℕ
  pub total : ℕ
  pub chunk_cap : ℕ
  pub has_references : Bool
  pub tag_indexes : List (Option ChunkIndex)
  pub tag_index_size : ℕ

module _ {V : Type 0} where
  abbrev pub new_wal_read_buffer : ℕ → ReadBuffer V
  new_wal_read_buffer chunk_cap = record {
    chunks = [];
    active_chunks = 0;
    total = 0;
    chunk_cap = chunk_cap;
    has_references = false;
    tag_indexes = [];
    tag_index_size = 0;
  }

  abbrev pub chunk_at : List (List (Entry V)) → ℕ → List (Entry V)
  chunk_at chunks c = get_or chunks c []

  -- A chunk with room is the last active one.
  unfoldable pub make_room : ReadBuffer V → ReadBuffer V
  make_room b =
      if b.active_chunks == 0 || leb b.chunk_cap (length (chunk_at b.chunks (b.active_chunks - 1)))
      then record b {
        chunks = if b.active_chunks == length b.chunks then b.chunks ++ ([] ∷ []) else b.chunks;
        active_chunks = b.active_chunks + 1;
      }
      else b

  unfoldable pub append_value : Values V → Entry V → ReadBuffer V → ReadBuffer V
  unfolding make_room
  append_value values e b =
      let b' = make_room b in
      record b' {
        chunks = modify (b'.active_chunks - 1) (λ c. c ++ (e ∷ [])) b'.chunks;
        has_references = b'.has_references || values.is_reference e.value;
        total = b'.total + 1;
      }

  abbrev pub append_values : Values V → List (Entry V) → ReadBuffer V → ReadBuffer V
  append_values values [] b = b
  append_values values (e ∷ es) b = append_values values es (append_value values e b)

  -- The index of chunk `c`, whose keys the caller has copied; `none` lets it scan the chunk.
  unfoldable pub tag_index : ℕ → List ℕ → ReadBuffer V → ReadBuffer V × Option ChunkIndex
  unfolding build_index
  tag_index c keys b =
      let built = build_index keys 0 no_positions in
      let fresh : ReadBuffer V × Option ChunkIndex =
        if ltb (length keys) min_indexed_chunk_entries
          || leb max_wal_tag_index_bytes b.tag_index_size
        then (b, none)
        else (
          record b {
            tag_indexes = set_index b.tag_indexes c built;
            tag_index_size = b.tag_index_size + length built.tags * 56 + length keys * 4;
          },
          some built,
        ) in
      elim (get_or b.tag_indexes c none) [ none ↦ fresh | some idx ↦ (b, some idx) ]

  abbrev pub cleared : ℕ → List (List (Entry V)) → List (List (Entry V))
  cleared n [] = []
  cleared zero (c ∷ cs) = c ∷ cs
  cleared (suc n) (c ∷ cs) = [] ∷ cleared n cs

  -- `entry_bytes` is the size of a code, a timestamp and a variant in memory.
  unfoldable pub reset_for_reuse : ℕ → ℕ → ReadBuffer V → ReadBuffer V
  reset_for_reuse entry_bytes max_retained_bytes b =
      let chunk_bytes = b.chunk_cap * entry_bytes in
      let max_chunks =
        if ltb 0 chunk_bytes && ltb 0 max_retained_bytes
        then min2 (length b.chunks) (max_retained_bytes / chunk_bytes)
        else 0 in
      record b {
        chunks = take max_chunks (cleared b.active_chunks b.chunks);
        active_chunks = 0;
        total = 0;
        has_references = false;
        tag_indexes = [];
        tag_index_size = 0;
      }

  -- `fn` answers whether to go on; `S` is what it changes.
  unfoldable pub each_entry :
      {S : Type 0} → (Entry V → S → S × Bool) → List (Entry V) → S → S × Bool
  each_entry fn [] s = (s, true)
  each_entry fn (e ∷ es) s =
      let later = each_entry fn es (fn e s).0 in if (fn e s).1 then later else ((fn e s).0, false)

  unfoldable pub each_chunk :
      {S : Type 0} → (Entry V → S → S × Bool) → List (List (Entry V)) → S → S × Bool
  unfolding each_entry
  each_chunk fn [] s = (s, true)
  each_chunk fn (c ∷ cs) s =
      let inner = each_entry fn c s in
      let later = each_chunk fn cs inner.0 in if inner.1 then later else (inner.0, false)

  unfoldable pub for_each : {S : Type 0} → (Entry V → S → S × Bool) → ReadBuffer V → S → S × Bool
  unfolding each_chunk
  for_each fn b s = each_chunk fn (take b.active_chunks b.chunks) s

  abbrev pub match_entries : ℕ → ℕ → ℕ → List (Entry V) → List (Point V)
  match_entries tag from to [] = []
  match_entries tag from to (e ∷ es) =
      let rest = match_entries tag from to es in
      if e.key == tag && (leb64 from e.timestamp && leb64 e.timestamp to)
      then (e.timestamp, e.value) ∷ rest
      else rest

  abbrev pub match_chunks : ℕ → ℕ → ℕ → List (List (Entry V)) → List (Point V) → List (Point V)
  match_chunks tag from to [] dst = dst
  match_chunks tag from to (c ∷ cs) dst =
      match_chunks tag from to cs (dst ++ match_entries tag from to c)

  unfoldable pub append_matching : List (Point V) → ℕ → ℕ → ℕ → ReadBuffer V → List (Point V)
  append_matching dst tag from to b = match_chunks tag from to (take b.active_chunks b.chunks) dst
