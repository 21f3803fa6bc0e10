-- ===== src/Machine/Runs.antt =====
-- Statements about scopes, and about what a computation that does not fail has returned.
use vcl_rs.Base.{◌≡◌, refl, true, false, arith}
use vcl_rs.Error.{VclError}
use vcl_rs.Ffi.{Vcl}
use vcl_rs.Machine.{
  ok, err, Exit, returned, running, State, M, finally, after_all, on_err, after_err,
}
use vcl_rs.Machine.Hoare.{After, Hoare, Anything, Always}

module _ ⦃V : Vcl⦄ where
  After-after_all :
      {A : Type 0} (R : Type 0) (mid Q : A → State → Type 0) (miss E : VclError → State → Type 0)
      (d : M (Unit {0}))
      → ((a : A) (t : State) → mid a t → Q a (d t).1)
      → ((e : VclError) (t : State) → miss e t → E e (d t).1)
      → (r : Exit A) (t : State) → After mid miss R r t
      → After Q E R (after_all d r t).0 (after_all d r t).1
  After-after_all R mid Q miss E d q e (returned (ok a)) t h = q a t h
  After-after_all R mid Q miss E d q e (returned (err x)) t h = e x t h
  After-after_all R mid Q miss E d q e running t h = h

  -- A scope whose end runs `d`.
  pub Hoare-finally :
      {A : Type 0} {P : State → Type 0} {m : M A} {Q : A → State → Type 0}
      {E : VclError → State → Type 0} {R : Type 0} (d : M (Unit {0})) (mid : A → State → Type 0)
      (miss : VclError → State → Type 0)
      → Hoare P m mid miss R
      → ((a : A) (t : State) → mid a t → Q a (d t).1)
      → ((e : VclError) (t : State) → miss e t → E e (d t).1)
      → Hoare P (finally m d) Q E R
  unfolding finally
  Hoare-finally {m} {Q} {E} {R} d mid miss km q e = record {
    at = λ s p. After-after_all R mid Q miss E d q e (m s).0 (m s).1 (km.at s p);
  }

  -- After `m` has run from a state that meets `P`, with this result.
  abbrev pub Ran : {A : Type 0} → M A → (State → Type 0) → A → State → Type 0
  Ran m P a u = (s : State) × P s × (m s ≡ (returned (ok a), u))

  After-Ran :
      {A : Type 0} (E : VclError → State → Type 0) (P : State → Type 0) (m : M A) (s : State)
      → P s
      → (r : Exit A) (t : State) → m s ≡ (r, t)
      → After Anything (λ e u. false ≡ true) (Unit {0}) r t
      → After (Ran m P) E (Unit {0}) r t
  After-Ran E P m s p (returned (ok a)) t e h = (s, p, e)
  After-Ran E P m s p (returned (err x)) t e h = ground arith
  After-Ran E P m s p running t e h = tt

  pub Hoare-Ran :
      {A : Type 0} {E : VclError → State → Type 0} {P : State → Type 0} (m : M A)
      → Hoare Always m Anything (λ e u. false ≡ true) (Unit {0})
      → Hoare P m (Ran m P) E (Unit {0})
  Hoare-Ran {E} {P} m km = record {
    at = λ s p. After-Ran E P m s p (m s).0 (m s).1 refl (km.at s tt);
  }

  After-after_err :
      {A : Type 0} (R : Type 0) (Q : A → State → Type 0) (miss E : VclError → State → Type 0)
      (d : M (Unit {0}))
      → ((e : VclError) (t : State) → miss e t → E e (d t).1)
      → (r : Exit A) (t : State) → After Q miss R r t
      → After Q E R (after_err d r t).0 (after_err d r t).1
  After-after_err R Q miss E d e (returned (ok a)) t h = h
  After-after_err R Q miss E d e (returned (err x)) t h = e x t h
  After-after_err R Q miss E d e running t h = h

  -- A value that an error drops.
  pub Hoare-on_err :
      {A : Type 0} {P : State → Type 0} {m : M A} {Q : A → State → Type 0}
      {E : VclError → State → Type 0} {R : Type 0} (d : M (Unit {0}))
      (miss : VclError → State → Type 0)
      → Hoare P m Q miss R
      → ((e : VclError) (t : State) → miss e t → E e (d t).1)
      → Hoare P (on_err m d) Q E R
  unfolding on_err
  Hoare-on_err {m} {Q} {E} {R} d miss km e = record {
    at = λ s p. After-after_err R Q miss E d e (m s).0 (m s).1 (km.at s p);
  }
