-- ===== src/Tests/Requests.antt =====
-- The stream ingestor at concrete inputs.
use qv_lite.Prelude.{ℕ, List, [], ◌∷◌, Option, some, length}

-- Three points of two tables.
abbrev request : List (List ℕ × ℕ)
request = (97 ∷ [], 1) ∷ (98 ∷ [], 2) ∷ (97 ∷ [], 3) ∷ []

abbrev accept_all : List ℕ → List ℕ → Option ℕ
accept_all table pts = some (length pts)
