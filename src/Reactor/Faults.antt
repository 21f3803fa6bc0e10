-- ===== src/Reactor/Faults.antt =====
-- What `VclReactor::new` leaves open.
use vcl_rs.Base.{ℕ, ◌≡◌, refl, some, List, ◌∷◌, pos, negsuc}
use vcl_rs.Error.{api, mq_epoll_fd_negative}
use vcl_rs.Ffi.{Vcl}
use vcl_rs.Machine.{State, returned, err, ◌>>=◌}
use vcl_rs.Machine.Ledger.{ledger}
use vcl_rs.Session.{check}
use vcl_rs.Reactor.{wrap_mq_fd, new}

module _ ⦃V : Vcl⦄ where
  -- If the epoll set is created and the eventfd is then refused, `new` returns the error and leaves
  -- the set open, with nothing that could close it.
  pub new-leaks :
      (vep n : ℕ) (held : List ℕ) (s : State)
      → ledger s.trace ≡ some held
      → (V.epoll_create s.world).0 ≡ pos vep
      → (V.mq_epoll_fd (V.epoll_create s.world).1).0 ≡ negsuc n
      → ((new s).0 ≡ returned (err (api mq_epoll_fd_negative (negsuc n))))
        × (ledger (new s).1.trace ≡ some (vep ∷ held))
  unfolding new wrap_mq_fd check ◌>>=◌
  new-leaks vep n held s closed created refused =
      (rw (created, refused) refl, rw (created, refused, closed) refl)
