-- ===== src/Session/Errors.antt =====
-- No operation on a session fails with a time-out.
use vcl_rs.Base.{ℕ, ◌≢◌, ℤ, pos, negsuc}
use vcl_rs.Error.{VclError, timeout}
use vcl_rs.Error.Classes.{from_rc_classes}
use vcl_rs.Ffi.{Vcl}
use vcl_rs.Machine.{State}
use vcl_rs.Machine.Hoare.{
  Hoare, Hoare-bind, Hoare-pure, Hoare-fail, Hoare-call_out, Anything, Always,
}
use vcl_rs.Session.{check, accept, recvfrom, set_attr, set_nonblocking}

module _ ⦃V : Vcl⦄ where
  abbrev pub NoTimeout : VclError → State → Type 0
  NoTimeout e s = e ≢ timeout

  pub check-NoTimeout : (rc : ℤ) → Hoare Always (check rc) Anything NoTimeout (Unit {0})
  unfolding check
  check-NoTimeout (pos n) = Hoare-pure _ (λ s p. tt)
  check-NoTimeout (negsuc n) =
      let (_, _, _, _, no_timeout, _) = from_rc_classes V.retval_str (negsuc n) in
      Hoare-fail _ (λ s p. no_timeout)

  pub recvfrom-NoTimeout :
      (h size : ℕ) → Hoare Always (recvfrom h size) Anything NoTimeout (Unit {0})
  unfolding recvfrom
  recvfrom-NoTimeout h size =
      Hoare-bind _ _ Anything _ (Hoare-call_out _ _ (λ s p. tt))
        λ (rc, out). Hoare-bind _ _ Anything _ (check-NoTimeout rc) λ n. Hoare-pure _ (λ s p. tt)

  pub accept-NoTimeout : (h : ℕ) → Hoare Always (accept h) Anything NoTimeout (Unit {0})
  unfolding accept
  accept-NoTimeout h =
      Hoare-bind _ _ Anything _ (Hoare-call_out _ _ (λ s p. tt))
        λ (rc, ep). Hoare-bind _ _ Anything _ (check-NoTimeout rc) λ n. Hoare-pure _ (λ s p. tt)

  pub set_nonblocking-NoTimeout :
      (h : ℕ) → Hoare Always (set_nonblocking h) Anything NoTimeout (Unit {0})
  unfolding set_nonblocking set_attr
  set_nonblocking-NoTimeout h =
      Hoare-bind _ _ Anything _ (Hoare-call_out _ _ (λ s p. tt))
        λ (rc, a). Hoare-bind _ _ Anything _ (check-NoTimeout rc) λ n. Hoare-pure _ (λ s p. tt)
