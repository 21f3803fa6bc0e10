-- ===== src/Reactor/Waiters.antt =====
-- The reactor's `HashMap<u32, Arc<Notify>>`, as an association list.
pub mod Laws
use vcl_rs.Base.{ℕ, ◌+◌, Option, none, some, List, [], ◌∷◌, ◌==◌, if◌then◌else◌}

module _ {ℓ} {N : Type ℓ} where
  unfoldable pub find : ℕ → List (ℕ × N) → Option N
  find h [] = none
  find h ((j, n) ∷ ws) = if j == h then some n else find h ws

  -- A new key, which the map does not have.
  unfoldable pub insert_new : ℕ → N → List (ℕ × N) → List (ℕ × N)
  insert_new h n ws = (h, n) ∷ ws

  unfoldable pub remove : ℕ → List (ℕ × N) → List (ℕ × N)
  remove h [] = []
  remove h ((j, n) ∷ ws) = let rest = remove h ws in if j == h then rest else (j, n) ∷ rest
