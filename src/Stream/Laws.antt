-- ===== src/Stream/Laws.antt =====
-- The results of a stream's reads, and what its drop leaves in the reactor.
use vcl_rs.Base.{
  ℕ, zero, suc, ◌<◌, ◌≡◌, ◌≢◌, refl, subst, ◌∙◌, ==_refl, ==_false, none, List, arith,
}
use vcl_rs.Ffi.{Vcl}
use vcl_rs.Machine.{State, returned, ok, err, ◌>>=◌}
use vcl_rs.Machine.Hoare.{
  After, Hoare, Hoare-bind, Hoare-cases, Hoare-pure, Hoare-fail, Hoare-out_of_fuel, Hoare-when,
  Hoare-Anything, Anything, Always,
}
use vcl_rs.Session.{drop_handle}
use vcl_rs.Reactor.{deregister}
use vcl_rs.Reactor.Waiters.{find}
use vcl_rs.Reactor.Waiters.Laws.{find-remove}
use vcl_rs.Stream.{VclStream, read, drop_stream}

module _ ⦃V : Vcl⦄ where
  read-positive :
      (k : ℕ) (st : VclStream) (size : ℕ)
      → Hoare Always (read k st size) (λ r s. 0 < r.0) Anything (Unit {0})
  unfolding read
  read-positive zero st size = Hoare-out_of_fuel (λ s q. tt)
  read-positive (suc k) st size =
      let again = read-positive k st size in
      Hoare-cases _ Anything Anything (Hoare-Anything _) (elim [
        | ok (zero, bytes) ↦ Hoare-fail _ (λ s q. tt)
        | ok (suc n, bytes) ↦ Hoare-pure _ (λ s q. omega arith)
        | err e ↦
            Hoare-when _ (λ t. Hoare-bind _ _ Anything _ (Hoare-Anything _) (λ u. again))
              (λ bad. Hoare-fail _ (λ s q. tt))
      ])

  -- `VclStream::read` never returns `Ok(0)`: the end of the stream is the error `Closed`.
  pub read-not_empty :
      (k : ℕ) (st : VclStream) (size n : ℕ) (bytes : List ℕ) (s t : State)
      → read k st size s ≡ (returned (ok (n, bytes)), t)
      → 0 < n
  read-not_empty k st size n bytes s t e =
      subst (λ r. After (λ a u. 0 < a.0) Anything (Unit {0}) r.0 r.1) e
        ((read-positive k st size).at s tt)

  -- The drop of a stream takes its own waiter out of the reactor's map, and no other.
  pub drop_stream-find :
      (st : VclStream) (h : ℕ) (s : State)
      → h ≢ st.handle
      → (find st.handle (drop_stream st s).1.waiters ≡ none)
        × (find h (drop_stream st s).1.waiters ≡ find h s.waiters)
  unfolding drop_stream deregister drop_handle ◌>>=◌
  drop_stream-find st h s other = (
    find-remove st.handle st.handle s.waiters ∙ rw (==_refl st.handle) refl,
    find-remove st.handle h s.waiters ∙ rw (==_false st.handle h other) refl,
  )
