-- ===== src/Reactor/Waiters/Laws.antt =====
-- What the map of waiters holds after each operation.
use vcl_rs.Base.{ℕ, ◌≡◌, refl, none, some, List, [], ◌∷◌, ◌==◌, arith, if◌then◌else◌}
use vcl_rs.Reactor.Waiters.{find, insert_new, remove}

module _ {ℓ} {N : Type ℓ} where
  pub find-insert_new :
      (h j : ℕ) (n : N) (ws : List (ℕ × N))
      → find j (insert_new h n ws) ≡ (if h == j then some n else find j ws)
  unfolding find insert_new
  find-insert_new h j n ws = refl

  pub find-remove :
      (h j : ℕ) (ws : List (ℕ × N)) → find j (remove h ws) ≡ (if h == j then none else find j ws)
  unfolding find remove
  find-remove h j [] = ground arith
  find-remove h j ((i, n) ∷ ws) = ground (arith, find-remove h j ws)
