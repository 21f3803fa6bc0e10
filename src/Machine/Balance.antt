-- ===== src/Machine/Balance.antt =====
-- How a computation changes the ledger: a judgement for those that leave it alone, and triples
-- over the handles that a piece of code holds, each with one rule for each way to build code.
use vcl_rs.Base.{Bool, false, ℕ, ◌≡◌, true, Option, List, ℤ, pos, ◌∙◌}
use vcl_rs.Error.{VclError}
use vcl_rs.Ffi.{Vcl}
use vcl_rs.Machine.{
  Call, Result, of_result, ok, err, Exit, returned, running, State, M, pure, fail, out_of_fuel,
  call, call_out, call_void, host, advance, ◌>>=◌, ◌>>◌, when◌then◌else◌, continue, attempt, reify,
  gets, set_registered, set_initialized, set_waiters, await,
}
use vcl_rs.Machine.Ledger.{ledger, hold, is_neutral, enter-of_neutral}

module _ ⦃V : Vcl⦄ where
  -- The ledger after a computation: as it should be for its result, unless it is still running.
  abbrev pub Leaves :
      {A : Type 0} → (A → List ℕ) → List ℕ → Option (List ℕ) → Exit A → State → Type 0
  Leaves post bad held (returned (ok a)) t = ledger t.trace ≡ hold (post a) held
  Leaves post bad held (returned (err e)) t = ledger t.trace ≡ hold bad held
  Leaves post bad held running t = Unit

  -- With `pre` held on top of any handles, `m` leaves `post a` if it returns `Ok(a)`, and `bad` if
  -- it returns an error.
  pub record Triple {A : Type 0} (pre : List ℕ) (m : M A) (post : A → List ℕ) (bad : List ℕ)
      : Type 0 where
    pub at :
        (held : Option (List ℕ)) (s : State)
        → ledger s.trace ≡ hold pre held
        → Leaves post bad held (m s).0 (m s).1

  -- `m` closes exactly what it opens.
  pub record Balanced {A : Type 0} (m : M A) : Type 0 where
    pub keeps : (pre : List ℕ) → Triple pre m (λ _. pre) pre

  pub Balanced-pure : {A : Type 0} (a : A) → Balanced (pure a)
  unfolding pure
  Balanced-pure a = record { keeps = λ pre. record { at = λ held s h. h } }

  pub Balanced-fail : {A : Type 0} (e : VclError) → Balanced (fail {A = A} e)
  unfolding fail
  Balanced-fail e = record { keeps = λ pre. record { at = λ held s h. h } }

  pub Balanced-of_result : {A : Type 0} (r : Result A) → Balanced (of_result r)
  unfolding of_result
  Balanced-of_result (ok a) = record { keeps = λ pre. record { at = λ held s h. h } }
  Balanced-of_result (err e) = record { keeps = λ pre. record { at = λ held s h. h } }

  pub Balanced-out_of_fuel : {A : Type 0} → Balanced (out_of_fuel {A = A})
  unfolding out_of_fuel
  Balanced-out_of_fuel = record { keeps = λ pre. record { at = λ held s h. tt } }

  pub Balanced-call :
      (c : Call) (f : V.World → ℤ × V.World) → is_neutral c ≡ true → Balanced (call c f)
  unfolding call
  Balanced-call c f neutral = record {
    keeps = λ pre. record {
      at = λ held s h. enter-of_neutral c (f s.world).0 (ledger s.trace) neutral ∙ h;
    };
  }

  pub Balanced-call_out :
      {B : Type 0} (c : Call) (f : V.World → ℤ × B × V.World)
      → is_neutral c ≡ true
      → Balanced (call_out c f)
  unfolding call_out
  Balanced-call_out c f neutral = record {
    keeps = λ pre. record {
      at = λ held s h. enter-of_neutral c (f s.world).0 (ledger s.trace) neutral ∙ h;
    };
  }

  pub Balanced-call_void :
      (c : Call) (f : V.World → V.World) → is_neutral c ≡ true → Balanced (call_void c f)
  unfolding call_void
  Balanced-call_void c f neutral = record {
    keeps =
        λ pre. record { at = λ held s h. enter-of_neutral c (pos 0) (ledger s.trace) neutral ∙ h };
  }

  pub Balanced-host : {B : Type 0} (f : V.World → B × V.World) → Balanced (host f)
  unfolding host
  Balanced-host f = record { keeps = λ pre. record { at = λ held s h. h } }

  pub Balanced-advance : (f : V.World → V.World) → Balanced (advance f)
  unfolding advance
  Balanced-advance f = record { keeps = λ pre. record { at = λ held s h. h } }

  pub Balanced-gets : {A : Type 0} (f : State → A) → Balanced (gets f)
  unfolding gets
  Balanced-gets f = record { keeps = λ pre. record { at = λ held s h. h } }

  pub Balanced-set_registered : (b : Bool) → Balanced (set_registered b)
  unfolding set_registered
  Balanced-set_registered b = record { keeps = λ pre. record { at = λ held s h. h } }

  pub Balanced-set_initialized : (b : Bool) → Balanced (set_initialized b)
  unfolding set_initialized
  Balanced-set_initialized b = record { keeps = λ pre. record { at = λ held s h. h } }

  pub Balanced-set_waiters : (ws : List (ℕ × V.Notify)) → Balanced (set_waiters ws)
  unfolding set_waiters
  Balanced-set_waiters ws = record { keeps = λ pre. record { at = λ held s h. h } }

  pub Balanced-await :
      {B : Type 0} (f : V.World → List (ℕ × V.Notify) → B × V.World × List (ℕ × V.Notify))
      → Balanced (await f)
  unfolding await
  Balanced-await f = record { keeps = λ pre. record { at = λ held s h. h } }

  module _ {A B : Type 0} where
    Leaves-continue :
        (f : A → M B) (mid : A → List ℕ) (post : B → List ℕ) (bad : List ℕ)
        → ((a : A) → Triple (mid a) (f a) post bad)
        → (held : Option (List ℕ)) (r : Exit A) (t : State) → Leaves mid bad held r t
        → Leaves post bad held (continue f r t).0 (continue f r t).1
    Leaves-continue f mid post bad kf held (returned (ok a)) t h = (kf a).at held t h
    Leaves-continue f mid post bad kf held (returned (err e)) t h = h
    Leaves-continue f mid post bad kf held running t h = tt

    pub Triple-bind :
        {m : M A} {f : A → M B} {pre : List ℕ} {mid : A → List ℕ} {post : B → List ℕ} {bad : List ℕ}
        → Triple pre m mid bad
        → ((a : A) → Triple (mid a) (f a) post bad)
        → Triple pre (m >>= f) post bad
    unfolding ◌>>=◌
    Triple-bind {m} {f} {mid} {post} {bad} km kf = record {
      at = λ held s h. Leaves-continue f mid post bad kf held (m s).0 (m s).1 (km.at held s h);
    }

  pub Balanced-bind :
      {A B : Type 0} (m : M A) (f : A → M B)
      → Balanced m
      → ((a : A) → Balanced (f a))
      → Balanced (m >>= f)
  Balanced-bind m f km kf = record {
    keeps = λ pre. Triple-bind (km.keeps pre) (λ a. (kf a).keeps pre);
  }

  pub Balanced-then :
      {B : Type 0} (m : M (Unit {0})) (n : M B) → Balanced m → Balanced n → Balanced (m >> n)
  Balanced-then m n km kn = Balanced-bind m (λ _. n) km (λ _. kn)

  Leaves-reify :
      {A : Type 0} (pre : List ℕ) (held : Option (List ℕ)) (r : Exit A) (t : State)
      → Leaves (λ _. pre) pre held r t
      → Leaves (λ _. pre) pre held (reify r t).0 (reify r t).1
  Leaves-reify pre held (returned (ok a)) t h = h
  Leaves-reify pre held (returned (err e)) t h = h
  Leaves-reify pre held running t h = tt

  pub Balanced-attempt : {A : Type 0} (m : M A) → Balanced m → Balanced (attempt m)
  unfolding attempt
  Balanced-attempt m km = record {
    keeps = λ pre. record {
      at = λ held s h. Leaves-reify pre held (m s).0 (m s).1 ((km.keeps pre).at held s h);
    };
  }

  pub Balanced-when :
      {A : Type 0} (b : Bool) (m n : M A)
      → Balanced m
      → Balanced n
      → Balanced (when b then m else n)
  unfolding when◌then◌else◌
  Balanced-when true m n km kn = km
  Balanced-when false m n km kn = kn

pub ruleset balanced_rules = (
  Balanced-pure, Balanced-fail, Balanced-of_result, Balanced-out_of_fuel, Balanced-call,
  Balanced-call_out, Balanced-call_void, Balanced-host, Balanced-advance, Balanced-gets,
  Balanced-set_registered, Balanced-set_initialized, Balanced-set_waiters, Balanced-await,
  Balanced-bind, Balanced-then, Balanced-attempt, Balanced-when,
)
