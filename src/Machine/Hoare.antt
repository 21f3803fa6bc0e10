-- ===== src/Machine/Hoare.antt =====
-- Statements about the state and the result of a computation: from a state that meets `P`, `Q` holds
-- of what it returns, `E` of an error, and `R` if its fuel runs out. With `R` false it always returns.
use vcl_rs.Base.{◌≡◌, refl, Bool, true, false, ℤ}
use vcl_rs.Error.{VclError}
use vcl_rs.Ffi.{Vcl}
use vcl_rs.Machine.{
  Call, log, Result, ok, err, Exit, returned, running, State, M, pure, fail, of_result, out_of_fuel,
  call, call_out, host, advance, ◌>>=◌, when◌then◌else◌, continue, attempt, reify,
}

module _ ⦃V : Vcl⦄ where
  abbrev pub After :
      {A : Type 0}
      → (A → State → Type 0)
      → (VclError → State → Type 0)
      → Type 0
      → Exit A
      → State
      → Type 0
  After Q E R (returned (ok a)) t = Q a t
  After Q E R (returned (err e)) t = E e t
  After Q E R running t = R

  pub record Hoare {A : Type 0} (P : State → Type 0) (m : M A) (Q : A → State → Type 0)
      (E : VclError → State → Type 0) (R : Type 0) : Type 0 where
    pub at : (s : State) → P s → After Q E R (m s).0 (m s).1

  module _ {A B : Type 0} (E : VclError → State → Type 0) (R : Type 0) where
    After-continue :
        (f : A → M B) (mid : A → State → Type 0) (Q : B → State → Type 0)
        → ((a : A) → Hoare (mid a) (f a) Q E R)
        → (r : Exit A) (t : State) → After mid E R r t
        → After Q E R (continue f r t).0 (continue f r t).1
    After-continue f mid Q kf (returned (ok a)) t h = (kf a).at t h
    After-continue f mid Q kf (returned (err e)) t h = h
    After-continue f mid Q kf running t h = h

    pub Hoare-bind :
        {P : State → Type 0} {m : M A} {f : A → M B} (mid : A → State → Type 0)
        (Q : B → State → Type 0)
        → Hoare P m mid E R
        → ((a : A) → Hoare (mid a) (f a) Q E R)
        → Hoare P (m >>= f) Q E R
    unfolding ◌>>=◌
    Hoare-bind {m} {f} mid Q km kf = record {
      at = λ s p. After-continue f mid Q kf (m s).0 (m s).1 (km.at s p);
    }

    After-match :
        (f : Result A → M B) (mid : A → State → Type 0) (miss : VclError → State → Type 0)
        (Q : B → State → Type 0)
        → ((a : A) → Hoare (mid a) (f (ok a)) Q E R)
        → ((e : VclError) → Hoare (miss e) (f (err e)) Q E R)
        → (r : Exit A) (t : State) → After mid miss R r t
        → After Q E R
            (continue f (reify r t).0 (reify r t).1).0
            (continue f (reify r t).0 (reify r t).1).1
    After-match f mid miss Q ka ke (returned (ok a)) t h = (ka a).at t h
    After-match f mid miss Q ka ke (returned (err e)) t h = (ke e).at t h
    After-match f mid miss Q ka ke running t h = h

    -- A `match` on the result of a call.
    pub Hoare-match :
        {P : State → Type 0} {m : M A} (f : Result A → M B) (mid : A → State → Type 0)
        (miss : VclError → State → Type 0) (Q : B → State → Type 0)
        → Hoare P m mid miss R
        → ((a : A) → Hoare (mid a) (f (ok a)) Q E R)
        → ((e : VclError) → Hoare (miss e) (f (err e)) Q E R)
        → Hoare P (attempt m >>= f) Q E R
    unfolding ◌>>=◌ attempt
    Hoare-match {m} f mid miss Q km ka ke = record {
      at = λ s p. After-match f mid miss Q ka ke (m s).0 (m s).1 (km.at s p);
    }

  After-mono :
      {A : Type 0} (R : Type 0) (Q Q' : A → State → Type 0) (E E' : VclError → State → Type 0)
      → ((a : A) (t : State) → Q' a t → Q a t)
      → ((e : VclError) (t : State) → E' e t → E e t)
      → (r : Exit A) (t : State) → After Q' E' R r t
      → After Q E R r t
  After-mono R Q Q' E E' q e (returned (ok a)) t h = q a t h
  After-mono R Q Q' E E' q e (returned (err x)) t h = e x t h
  After-mono R Q Q' E E' q e running t h = h

  abbrev pub Either :
      {A : Type 0} → (A → State → Type 0) → (VclError → State → Type 0) → Result A → State → Type 0
  Either mid miss (ok a) = mid a
  Either mid miss (err e) = miss e

  -- The same with one continuation, which may look into what an `Ok` carries.
  pub Hoare-cases :
      {A B : Type 0} {P : State → Type 0} {m : M A} {Q : B → State → Type 0}
      {E : VclError → State → Type 0} {R : Type 0} (f : Result A → M B) (mid : A → State → Type 0)
      (miss : VclError → State → Type 0)
      → Hoare P m mid miss R
      → ((r : Result A) → Hoare (Either mid miss r) (f r) Q E R)
      → Hoare P (attempt m >>= f) Q E R
  Hoare-cases f mid miss km kf = Hoare-match _ _ f mid miss _ km (λ a. kf (ok a)) (λ e. kf (err e))

  module _ {A : Type 0} {P : State → Type 0} {Q : A → State → Type 0}
      {E : VclError → State → Type 0} {R : Type 0} where
    pub Hoare-pure : (a : A) → ((s : State) → P s → Q a s) → Hoare P (pure a) Q E R
    unfolding pure
    Hoare-pure a h = record { at = h }

    pub Hoare-fail : (e : VclError) → ((s : State) → P s → E e s) → Hoare P (fail e) Q E R
    unfolding fail
    Hoare-fail e h = record { at = h }

    pub Hoare-out_of_fuel : ((s : State) → P s → R) → Hoare P (out_of_fuel {A = A}) Q E R
    unfolding out_of_fuel
    Hoare-out_of_fuel h = record { at = h }

    pub Hoare-when :
        {m n : M A} (b : Bool)
        → (b ≡ true → Hoare P m Q E R)
        → (b ≡ false → Hoare P n Q E R)
        → Hoare P (when b then m else n) Q E R
    unfolding when◌then◌else◌
    Hoare-when true km kn = km refl
    Hoare-when false km kn = kn refl

    -- The precondition may be weakened.
    pub Hoare-weaken :
        {m : M A} (P' : State → Type 0)
        → ((s : State) → P s → P' s)
        → Hoare P' m Q E R
        → Hoare P m Q E R
    Hoare-weaken P' h km = record { at = λ s p. km.at s (h s p) }

    -- The conditions on the result may be weakened.
    pub Hoare-mono :
        {m : M A} (Q' : A → State → Type 0) (E' : VclError → State → Type 0)
        → ((a : A) (t : State) → Q' a t → Q a t)
        → ((e : VclError) (t : State) → E' e t → E e t)
        → Hoare P m Q' E' R
        → Hoare P m Q E R
    Hoare-mono {m} Q' E' q e km = record {
      at = λ s p. After-mono R Q Q' E E' q e (m s).0 (m s).1 (km.at s p);
    }

  module _ {P : State → Type 0} {E : VclError → State → Type 0} {R : Type 0} where
    pub Hoare-call :
        {Q : ℤ → State → Type 0} (c : Call) (f : V.World → ℤ × V.World)
        → ((s : State)
            → P s
            → let (rc, w) = f s.world in Q rc (log (record { call = c; rc = rc }) w s))
        → Hoare P (call c f) Q E R
    unfolding call
    Hoare-call c f h = record { at = h }

    pub Hoare-call_out :
        {B : Type 0} {Q : ℤ × B → State → Type 0} (c : Call) (f : V.World → ℤ × B × V.World)
        → ((s : State)
            → P s
            → let (rc, b, w) = f s.world in Q (rc, b) (log (record { call = c; rc = rc }) w s))
        → Hoare P (call_out c f) Q E R
    unfolding call_out
    Hoare-call_out c f h = record { at = h }

    pub Hoare-host :
        {B : Type 0} {Q : B → State → Type 0} (f : V.World → B × V.World)
        → ((s : State) → P s → let (b, w) = f s.world in Q b (record s { world = w }))
        → Hoare P (host f) Q E R
    unfolding host
    Hoare-host f h = record { at = h }

    pub Hoare-advance :
        {Q : Unit {0} → State → Type 0} (f : V.World → V.World)
        → ((s : State) → P s → Q tt (record s { world = f s.world }))
        → Hoare P (advance f) Q E R
    unfolding advance
    Hoare-advance f h = record { at = h }

  -- A part of the precondition that does not depend on the state.
  pub Hoare-fact :
      {A : Type 0} {F : Type 0} {P : State → Type 0} {m : M A} {Q : A → State → Type 0}
      {E : VclError → State → Type 0} {R : Type 0}
      → (F → Hoare P m Q E R)
      → Hoare (λ s. F × P s) m Q E R
  Hoare-fact k = record { at = λ s (f, p). (k f).at s p }

  -- `?` on a value.
  pub Hoare-result :
      {A B : Type 0} {P : State → Type 0} {Q : B → State → Type 0} {E : VclError → State → Type 0}
      {R : Type 0} (f : A → M B) (r : Result A)
      → ((a : A) → r ≡ ok a → Hoare P (f a) Q E R)
      → ((e : VclError) (s : State) → r ≡ err e → P s → E e s)
      → Hoare P (of_result r >>= f) Q E R
  unfolding of_result ◌>>=◌
  Hoare-result f (ok a) kf ke = record { at = λ s p. (kf a refl).at s p }
  Hoare-result f (err e) kf ke = record { at = λ s p. ke e s refl p }

  -- Nothing is known.
  abbrev pub Anything : {A : Type 0} → A → State → Type 0
  Anything a s = Unit {0}

  abbrev pub Always : State → Type 0
  Always s = Unit {0}

  After-Anything : {A : Type 0} (r : Exit A) (t : State) → After Anything Anything (Unit {0}) r t
  After-Anything (returned (ok a)) t = tt
  After-Anything (returned (err e)) t = tt
  After-Anything running t = tt

  pub Hoare-Anything :
      {A : Type 0} {P : State → Type 0} (m : M A) → Hoare P m Anything Anything (Unit {0})
  Hoare-Anything m = record { at = λ s p. After-Anything (m s).0 (m s).1 }
