-- ===== src/Windowing/Measuring.antt =====
-- Measuring the drawn rows after a commit.
use cuttlefish.Common.{ℕ, ◌≡◌, ◌≢◌, ◌<◌, List, [], ◌∷◌, All}
use cuttlefish.Windowing.{Heights, Windowing, height_of}

-- Every measured row of the list stands in the table with its height.
abbrev pub Agrees : ℕ → Heights → List (ℕ × ℕ) → Type 0
Agrees estimate heights rows = All (λ r. height_of heights estimate r.0 ≡ r.1) rows

-- The rows that a commit draws have different indices, and each is on screen with some height.
abbrev pub Distinct : List (ℕ × ℕ) → Type 0
Distinct [] = Unit
Distinct (r ∷ rows) = All (λ q. q.0 ≢ r.0) rows × (0 < r.1) × Distinct rows
