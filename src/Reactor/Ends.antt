-- ===== src/Reactor/Ends.antt =====
-- A registration with the reactor is one foreign call.
use vcl_rs.Base.{ℕ}
use vcl_rs.Ffi.{Vcl}
use vcl_rs.Machine.Ends.{Ends, ends_rules}
use vcl_rs.Session.Ends.{check-Ends}
use vcl_rs.Reactor.{VclReactor, register}

module _ ⦃V : Vcl⦄ where
  pub register-Ends : (r : VclReactor) (h : ℕ) → Ends (register r h)
  unfolding register
  register-Ends r h = search (ends_rules, check-Ends)
