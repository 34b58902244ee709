-- ===== src/Ingest/Conserved.antt =====
-- No point that is added is lost, doubled or reordered within its table.
use qv_lite.Prelude.{ℕ, ◌≡◌, ◌&&◌}
use qv_lite.Prelude.{List, [], ◌∷◌, ◌++◌, same, if◌then◌else◌}
use qv_lite.Ingest.{StreamIngestor}

module _ (P : Type 0) where
  -- The points of a table in the calls so far, in the order of the calls.
  abbrev pub sent_to : List ℕ → List (List ℕ × List P) → List P
  sent_to t [] = []
  sent_to t ((k, pts) ∷ calls) = if same t k then sent_to t calls ++ pts else sent_to t calls

  -- The points of a table that are still held.
  abbrev pub held : StreamIngestor P → List ℕ → List P
  held g t = if g.last_valid && same t g.last_table then g.last_pts else g.pending t

  abbrev pub accounted : StreamIngestor P → List ℕ → List P
  accounted g t = sent_to t g.sent ++ held g t

  -- The points of a table among those that are added.
  abbrev pub points_of : List ℕ → List (List ℕ × P) → List P
  points_of t [] = []
  points_of t ((k, p) ∷ rest) = if same t k then p ∷ points_of t rest else points_of t rest

  -- The map holds the points of the active table too.
  abbrev IsSynced : StreamIngestor P → Type 0
  IsSynced g = (t : List ℕ) → held g t ≡ g.pending t

  -- Nothing is lost from one state to the next.
  abbrev Keeps : StreamIngestor P → StreamIngestor P → Type 0
  Keeps g g' = (t : List ℕ) → accounted g' t ≡ accounted g t
