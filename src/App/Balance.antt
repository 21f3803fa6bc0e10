-- ===== src/App/Balance.antt =====
-- Registering a thread changes no handle.
use vcl_rs.Base.{ℤ, pos, negsuc}
use vcl_rs.Ffi.{Vcl}
use vcl_rs.Machine.Balance.{Balanced, balanced_rules}
use vcl_rs.App.{registered_as, register_worker_thread}

module _ ⦃V : Vcl⦄ where
  registered_as-Balanced : (idx : ℤ) → Balanced (registered_as idx)
  unfolding registered_as
  registered_as-Balanced (pos n) = search balanced_rules
  registered_as-Balanced (negsuc n) = search balanced_rules

  pub register_worker_thread-Balanced : Balanced register_worker_thread
  unfolding register_worker_thread
  register_worker_thread-Balanced = search (balanced_rules, registered_as-Balanced)
