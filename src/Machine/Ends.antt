-- ===== src/Machine/Ends.antt =====
-- Computations whose fuel never runs out.
use vcl_rs.Base.{◌≡◌, refl, Bool, true, false, ℤ}
use vcl_rs.Error.{VclError}
use vcl_rs.Ffi.{Vcl}
use vcl_rs.Machine.{
  Call, ok, err, Exit, returned, running, State, M, pure, fail, call, call_out, call_void, host,
  gets, set_registered, ◌>>=◌, ◌>>◌, when◌then◌else◌, continue, attempt, reify, finally, on_err,
  after_all, after_err,
}
use vcl_rs.Machine.Hoare.{After, Hoare, Anything, Always}

-- Whether there is a result.
abbrev pub has_returned : {A : Type 0} → Exit A → Bool
has_returned (returned r) = true
has_returned running = false

module _ ⦃V : Vcl⦄ where
  pub record Ends {A : Type 0} (m : M A) : Type 0 where
    pub comes : (s : State) → has_returned (m s).0 ≡ true

  pub Ends-pure : {A : Type 0} (a : A) → Ends (pure a)
  unfolding pure
  Ends-pure a = record { comes = λ s. refl }

  pub Ends-fail : {A : Type 0} (e : VclError) → Ends (fail {A = A} e)
  unfolding fail
  Ends-fail e = record { comes = λ s. refl }

  pub Ends-call : (c : Call) (f : V.World → ℤ × V.World) → Ends (call c f)
  unfolding call
  Ends-call c f = record { comes = λ s. refl }

  pub Ends-call_out : {B : Type 0} (c : Call) (f : V.World → ℤ × B × V.World) → Ends (call_out c f)
  unfolding call_out
  Ends-call_out c f = record { comes = λ s. refl }

  pub Ends-call_void : (c : Call) (f : V.World → V.World) → Ends (call_void c f)
  unfolding call_void
  Ends-call_void c f = record { comes = λ s. refl }

  pub Ends-host : {B : Type 0} (f : V.World → B × V.World) → Ends (host f)
  unfolding host
  Ends-host f = record { comes = λ s. refl }

  pub Ends-gets : {A : Type 0} (f : State → A) → Ends (gets f)
  unfolding gets
  Ends-gets f = record { comes = λ s. refl }

  pub Ends-set_registered : (b : Bool) → Ends (set_registered b)
  unfolding set_registered
  Ends-set_registered b = record { comes = λ s. refl }

  continue-Ends :
      {A B : Type 0} (f : A → M B)
      → ((a : A) → Ends (f a))
      → (r : Exit A) (t : State) → has_returned r ≡ true
      → has_returned (continue f r t).0 ≡ true
  continue-Ends f kf (returned (ok a)) t h = (kf a).comes t
  continue-Ends f kf (returned (err e)) t h = refl
  continue-Ends f kf running t h = h

  pub Ends-bind :
      {A B : Type 0} (m : M A) (f : A → M B) → Ends m → ((a : A) → Ends (f a)) → Ends (m >>= f)
  unfolding ◌>>=◌
  Ends-bind m f km kf = record { comes = λ s. continue-Ends f kf (m s).0 (m s).1 (km.comes s) }

  pub Ends-then : {B : Type 0} (m : M (Unit {0})) (n : M B) → Ends m → Ends n → Ends (m >> n)
  Ends-then m n km kn = Ends-bind m (λ _. n) km (λ _. kn)

  pub Ends-when :
      {A : Type 0} (b : Bool) (m n : M A) → Ends m → Ends n → Ends (when b then m else n)
  unfolding when◌then◌else◌
  Ends-when true m n km kn = km
  Ends-when false m n km kn = kn

  reify-Ends :
      {A : Type 0} (r : Exit A) (t : State)
      → has_returned r ≡ true
      → has_returned (reify r t).0 ≡ true
  reify-Ends (returned r) t h = refl
  reify-Ends running t h = h

  pub Ends-attempt : {A : Type 0} (m : M A) → Ends m → Ends (attempt m)
  unfolding attempt
  Ends-attempt m km = record { comes = λ s. reify-Ends (m s).0 (m s).1 (km.comes s) }

  after_all-Ends :
      {A : Type 0} (d : M (Unit {0})) (r : Exit A) (t : State)
      → has_returned r ≡ true
      → has_returned (after_all d r t).0 ≡ true
  after_all-Ends d (returned r) t h = refl
  after_all-Ends d running t h = h

  pub Ends-finally : {A : Type 0} (m : M A) (d : M (Unit {0})) → Ends m → Ends (finally m d)
  unfolding finally
  Ends-finally m d km = record { comes = λ s. after_all-Ends d (m s).0 (m s).1 (km.comes s) }

  after_err-Ends :
      {A : Type 0} (d : M (Unit {0})) (r : Exit A) (t : State)
      → has_returned r ≡ true
      → has_returned (after_err d r t).0 ≡ true
  after_err-Ends d (returned (ok a)) t h = refl
  after_err-Ends d (returned (err e)) t h = refl
  after_err-Ends d running t h = h

  pub Ends-on_err : {A : Type 0} (m : M A) (d : M (Unit {0})) → Ends m → Ends (on_err m d)
  unfolding on_err
  Ends-on_err m d km = record { comes = λ s. after_err-Ends d (m s).0 (m s).1 (km.comes s) }

  ends-of_After :
      {A : Type 0} (r : Exit A) (t : State)
      → After Anything Anything (false ≡ true) r t
      → has_returned r ≡ true
  ends-of_After (returned (ok a)) t h = refl
  ends-of_After (returned (err e)) t h = refl
  ends-of_After running t h = h

  pub Ends-of_Hoare :
      {A : Type 0} (m : M A) → Hoare Always m Anything Anything (false ≡ true) → Ends m
  Ends-of_Hoare m km = record { comes = λ s. ends-of_After (m s).0 (m s).1 (km.at s tt) }

  After-of_ends :
      {A : Type 0} (r : Exit A) (t : State)
      → has_returned r ≡ true
      → After Anything Anything (false ≡ true) r t
  After-of_ends (returned (ok a)) t h = tt
  After-of_ends (returned (err e)) t h = tt
  After-of_ends running t h = h

  pub Hoare-of_Ends :
      {A : Type 0} {P : State → Type 0} (m : M A)
      → Ends m
      → Hoare P m Anything Anything (false ≡ true)
  Hoare-of_Ends m km = record { at = λ s p. After-of_ends (m s).0 (m s).1 (km.comes s) }

pub ruleset ends_rules = (
  Ends-pure, Ends-fail, Ends-call, Ends-call_out, Ends-call_void, Ends-host, Ends-gets,
  Ends-set_registered, Ends-bind, Ends-then, Ends-when, Ends-attempt, Ends-finally, Ends-on_err,
)
