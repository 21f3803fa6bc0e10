-- ===== src/Verify/Returns.antt =====
-- The drain of `verify_bind_or_err` ends.
use vcl_rs.Base.{ℕ, zero, suc, ◌+◌, ◌≤◌, ◌<◌, ◌≡◌, true, false, ℤ, pos, negsuc, ltb→lt, arith}
use vcl_rs.Net.{SocketAddr}
use vcl_rs.Ffi.{Vcl, millis}
use vcl_rs.Machine.{State, Result, ok, err}
use vcl_rs.Machine.Hoare.{
  Hoare, Hoare-bind, Hoare-pure, Hoare-when, Hoare-host, Hoare-call_out, Hoare-fact, Anything,
}
use vcl_rs.Machine.Ends.{Ends, ends_rules, Ends-of_Hoare, Hoare-of_Ends}
use vcl_rs.Session.Ends.{drop_handle-Ends, local_addr-Ends}
use vcl_rs.Verify.{drain_until, confirm, verify_watched, verify_in, verify_bind_or_err}

-- The clock does not go back, and a call of `epoll_wait` takes one nanosecond or more.
pub record DrainClock ⦃V : Vcl⦄ : Type 0 where
  pub clock : V.World → ℕ
  pub now_reads : (w : V.World) → (clock w ≤ (V.now w).0) × ((V.now w).0 ≤ clock (V.now w).1)
  pub epoll_passes : (vep n ms : ℕ) (w : V.World) → clock w + 1 ≤ clock (V.epoll_wait vep n ms w).2

module _ ⦃V : Vcl⦄ where
  confirm-Ends :
      (session : ℕ) (requested : SocketAddr) (res : Result SocketAddr)
      → Ends (confirm session requested res)
  unfolding confirm
  confirm-Ends session requested (err e) = search (ends_rules, drop_handle-Ends)
  confirm-Ends session requested (ok actual) = search ends_rules

  module _ (C : DrainClock) where
    -- The clock has `n` nanoseconds to go to the deadline at most.
    abbrev Left : ℕ → ℕ → State → Type 0
    Left deadline n s = deadline ≤ C.clock s.world + n

    drain_until-Left :
        (k n vep deadline : ℕ)
        → n < k
        → Hoare (Left deadline n) (drain_until k vep deadline) Anything Anything (false ≡ true)
    unfolding drain_until
    drain_until-Left zero n vep deadline lt = ground arith
    drain_until-Left (suc k) zero vep deadline lt =
        Hoare-bind _ _ (λ now s. (deadline ≤ now) × Left deadline 0 s) _
          (Hoare-host _ (λ s p.
            let (below, above) = C.now_reads s.world in
            (omega (arith, p, below), omega (arith, p, below, above))))
          λ now. Hoare-fact (λ late.
            Hoare-when _ (λ early. absurd (omega (arith, late, ltb→lt now deadline early)))
              (λ e. Hoare-pure _ (λ s p. tt)))
    drain_until-Left (suc k) (suc n) vep deadline lt =
        Hoare-bind _ _ (λ now. Left deadline (suc n)) _
          (Hoare-host _
            (λ s p. let (below, above) = C.now_reads s.world in omega (arith, p, below, above)))
          λ now.
            Hoare-when _
              (λ early.
                Hoare-bind _ _ (λ _. Left deadline n) _
                  (Hoare-call_out _ _ (λ s p. omega (arith, p, C.epoll_passes vep 8 30 s.world)))
                  (λ _. drain_until-Left k n vep deadline (omega (arith, lt))))
              (λ e. Hoare-pure _ (λ s p. tt))

    module _ (k : ℕ) (enough : millis 200 < k) where
      verify_watched-Ends :
          (vep session : ℕ) (requested : SocketAddr) (rv : ℤ)
          → Ends (verify_watched k vep session requested rv)
      unfolding verify_watched
      verify_watched-Ends vep session requested (negsuc n) = search ends_rules
      verify_watched-Ends vep session requested (pos n) = Ends-of_Hoare _ (
          Hoare-bind _ _ (λ start. Left (start + millis 200) (millis 200)) _
            (Hoare-host _ (λ s p. let (below, above) = C.now_reads s.world in omega (arith, above)))
            λ start.
              Hoare-bind _ _ Anything _ (drain_until-Left k (millis 200) vep _ enough)
                λ _. Hoare-of_Ends _ (search (ends_rules, local_addr-Ends, confirm-Ends)))

      verify_in-Ends :
          (session : ℕ) (requested : SocketAddr) (rc : ℤ) → Ends (verify_in k session requested rc)
      unfolding verify_in
      verify_in-Ends session requested (negsuc n) = search ends_rules
      verify_in-Ends session requested (pos vep) = search (ends_rules, verify_watched-Ends)

      pub verify_bind_or_err-Ends :
          (session : ℕ) (requested : SocketAddr) → Ends (verify_bind_or_err k session requested)
      unfolding verify_bind_or_err
      verify_bind_or_err-Ends session requested = search (ends_rules, verify_in-Ends)
