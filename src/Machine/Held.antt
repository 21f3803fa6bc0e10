-- ===== src/Machine/Held.antt =====
-- The ledger of a run, from the judgements of `Balance`.
use vcl_rs.Base.{◌≡◌, true, some, List, [], ℕ, arith}
use vcl_rs.Ffi.{Vcl}
use vcl_rs.Machine.{Exit, returned, running, ok, err, State, M}
use vcl_rs.Machine.Ledger.{ledger}
use vcl_rs.Machine.Balance.{Leaves, Balanced}
use vcl_rs.Machine.Ends.{has_returned}

module _ ⦃V : Vcl⦄ where
  ledger-of_Leaves :
      {A : Type 0} (held : List ℕ) (r : Exit A) (t : State)
      → Leaves (λ _. []) [] (some held) r t
      → has_returned r ≡ true
      → ledger t.trace ≡ some held
  ledger-of_Leaves held (returned (ok a)) t h e = h
  ledger-of_Leaves held (returned (err x)) t h e = h
  ledger-of_Leaves held running t h e = ground arith

  pub closes_all :
      {A : Type 0} (m : M A) (held : List ℕ) (s : State)
      → Balanced m
      → ledger s.trace ≡ some held
      → has_returned (m s).0 ≡ true
      → ledger (m s).1.trace ≡ some held
  closes_all m held s km e done =
      ledger-of_Leaves held (m s).0 (m s).1 ((km.keeps []).at (some held) s e) done
