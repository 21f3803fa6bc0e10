-- ===== src/Session/Check.antt =====
-- The check of a return code changes no state.
use vcl_rs.Base.{ℕ, ◌≡◌, sym, subst, ℤ, pos, negsuc}
use vcl_rs.Error.{VclError, from_rc}
use vcl_rs.Ffi.{Vcl}
use vcl_rs.Machine.{State, fail}
use vcl_rs.Machine.Hoare.{After, Hoare, Hoare-pure, Hoare-fail}
use vcl_rs.Session.{check}

module _ ⦃V : Vcl⦄ where
  pub check-either :
      (P : State → Type 0) (R : Type 0) (rc : ℤ) → Hoare P (check rc) (λ _. P) (λ _. P) R
  unfolding check
  check-either P R (pos n) = Hoare-pure _ (λ s p. p)
  check-either P R (negsuc n) = Hoare-fail _ (λ s p. p)

  -- The check of one negative code.
  pub check-fails :
      (Q : ℕ → State → Type 0) (R : Type 0) (code : ℕ) (x : VclError) (rc : ℤ)
      → from_rc V.retval_str (negsuc code) ≡ x
      → Hoare (λ s. rc ≡ negsuc code) (check rc) Q (λ e s. e ≡ x) R
  unfolding check fail
  check-fails Q R code x rc is_x = record {
    at = λ s e. subst (λ z. After Q (λ e s. e ≡ x) R (check z s).0 (check z s).1) (sym e) is_x;
  }
