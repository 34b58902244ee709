-- ===== src/Ingest.antt =====
-- StreamIngestor of server/ingest.go. A table is its name, the bytes of an interned string.
pub mod Conserved
use qv_lite.Prelude.{ℕ, zero, suc, ◌+◌, ◌-◌, Bool, true, false, ◌&&◌, ◌||◌, Option, none, some}
use qv_lite.Prelude.{List, [], ◌∷◌, ◌++◌, length, same, leb, ◌==◌, if◌then◌else◌}

abbrev pub stream_batch_size : ℕ
stream_batch_size = 50000

abbrev pub update : {A : Type 0} → (List ℕ → A) → List ℕ → A → List ℕ → A
update f k a t = if same t k then a else f t

abbrev pub has : List (List ℕ) → List ℕ → Bool
has [] t = false
has (k ∷ ks) t = same k t || has ks t

module _ (P : Type 0) where
  -- `pending` gives no points for a table that is not among `tables`. `sent` are the calls of `ingest`
  -- so far that succeeded, the last one first.
  pub record StreamIngestor : Type 0 where
    pub size : ℕ
    pub tables : List (List ℕ)
    pub pending : List ℕ → List P
    pub pending_n : ℕ
    pub written : ℕ
    pub last_table : List ℕ
    pub last_pts : List P
    pub last_valid : Bool
    pub sent : List (List ℕ × List P)

  abbrev pub new_stream_ingestor : StreamIngestor
  new_stream_ingestor = record {
    size = stream_batch_size;
    tables = [];
    pending = λ t. [];
    pending_n = 0;
    written = 0;
    last_table = [];
    last_pts = [];
    last_valid = false;
    sent = [];
  }

  -- The slice of the active table goes back into the map.
  unfoldable pub write_back : StreamIngestor → StreamIngestor
  write_back g =
      if g.last_valid then record g { pending = update g.pending g.last_table g.last_pts } else g

  abbrev pub activate : List ℕ → StreamIngestor → StreamIngestor
  activate table g = record g {
    tables = if has g.tables table then g.tables else g.tables ++ (table ∷ []);
    last_table = table;
    last_pts = g.pending table;
    last_valid = true;
  }

  -- The slice that is returned is `last_pts` of the result.
  unfoldable pub pending_slice : List ℕ → StreamIngestor → StreamIngestor
  unfolding write_back
  pending_slice table g =
      if g.last_valid && same table g.last_table then g else activate table (write_back g)

  -- `ingest` gives the count of the points that it has written, or fails; `visit` is the order in
  -- which the map's tables are visited.
  module _ (ingest : List ℕ → List P → Option ℕ) (visit : List (List ℕ) → List (List ℕ)) where
    abbrev pub hand_over : List ℕ → List P → ℕ → StreamIngestor → StreamIngestor
    hand_over table pts n g = record g {
      written = g.written + n;
      pending_n = g.pending_n - length pts;
      pending = update g.pending table [];
      last_pts = if g.last_valid && same table g.last_table then [] else g.last_pts;
      sent = (table, pts) ∷ g.sent;
    }

    -- The state, and whether no call of `ingest` has failed.
    unfoldable pub flush_tables : List (List ℕ) → StreamIngestor → StreamIngestor × Bool
    flush_tables [] g = (record g { last_valid = false }, true)
    flush_tables (table ∷ tables) g =
        let next : Option ℕ → StreamIngestor × Bool = λ o. elim o [
          | none ↦ (g, false)
          | some n ↦ flush_tables tables (hand_over table (g.pending table) n g)
        ] in
        let skip = flush_tables tables g in
        if length (g.pending table) == 0 then skip else next (ingest table (g.pending table))

    unfoldable pub flush : StreamIngestor → StreamIngestor × Bool
    unfolding flush_tables write_back
    flush g =
        let flushed = flush_tables (visit g.tables) (write_back g) in
        if g.pending_n == 0 then (g, true) else flushed

    abbrev pub append_last : P → StreamIngestor → StreamIngestor
    append_last p g = record g { last_pts = g.last_pts ++ (p ∷ []); pending_n = g.pending_n + 1 }

    unfoldable pub add : List ℕ → P → StreamIngestor → StreamIngestor × Bool
    unfolding flush pending_slice
    add table p g =
        let g' = append_last p (pending_slice table g) in
        let flushed = flush g' in if leb g'.size g'.pending_n then flushed else (g', true)

    unfoldable pub finish : StreamIngestor → (StreamIngestor × Bool) × ℕ
    unfolding flush
    finish g = (flush g, (flush g).0.written)

    -- A request: points are added until a call fails.
    unfoldable pub add_all : List (List ℕ × P) → StreamIngestor → StreamIngestor × Bool
    unfolding add
    add_all [] g = (g, true)
    add_all ((table, p) ∷ rest) g =
        let later = add_all rest (add table p g).0 in
        if (add table p g).1 then later else add table p g
