-- ===== src/Machine/Steady.antt =====
-- Code that changes no handle and cannot fail: it may run where a failure would owe a close.
use vcl_rs.Base.{ℕ, ◌≡◌, Bool, true, false, ◌∙◌, Option, List, ℤ}
use vcl_rs.Ffi.{Vcl}
use vcl_rs.Machine.{
  Call, ok, err, Exit, returned, running, State, M, pure, out_of_fuel, call, call_out, host, gets,
  set_waiters, ◌>>=◌, ◌>>◌, when◌then◌else◌, attempt, reify,
}
use vcl_rs.Machine.Ledger.{ledger, is_neutral, enter-of_neutral}
use vcl_rs.Machine.Balance.{Leaves, Triple, Triple-bind, Balanced}

module _ ⦃V : Vcl⦄ where
  pub record Steady {A : Type 0} (m : M A) : Type 0 where
    pub stays : (pre bad : List ℕ) → Triple pre m (λ _. pre) bad

  pub Steady-pure : {A : Type 0} (a : A) → Steady (pure a)
  unfolding pure
  Steady-pure a = record { stays = λ pre bad. record { at = λ held s h. h } }

  pub Steady-out_of_fuel : {A : Type 0} → Steady (out_of_fuel {A = A})
  unfolding out_of_fuel
  Steady-out_of_fuel = record { stays = λ pre bad. record { at = λ held s h. tt } }

  pub Steady-call : (c : Call) (f : V.World → ℤ × V.World) → is_neutral c ≡ true → Steady (call c f)
  unfolding call
  Steady-call c f neutral = record {
    stays = λ pre bad. record {
      at = λ held s h. enter-of_neutral c (f s.world).0 (ledger s.trace) neutral ∙ h;
    };
  }

  pub Steady-call_out :
      {B : Type 0} (c : Call) (f : V.World → ℤ × B × V.World)
      → is_neutral c ≡ true
      → Steady (call_out c f)
  unfolding call_out
  Steady-call_out c f neutral = record {
    stays = λ pre bad. record {
      at = λ held s h. enter-of_neutral c (f s.world).0 (ledger s.trace) neutral ∙ h;
    };
  }

  pub Steady-host : {B : Type 0} (f : V.World → B × V.World) → Steady (host f)
  unfolding host
  Steady-host f = record { stays = λ pre bad. record { at = λ held s h. h } }

  pub Steady-gets : {A : Type 0} (f : State → A) → Steady (gets f)
  unfolding gets
  Steady-gets f = record { stays = λ pre bad. record { at = λ held s h. h } }

  pub Steady-set_waiters : (ws : List (ℕ × V.Notify)) → Steady (set_waiters ws)
  unfolding set_waiters
  Steady-set_waiters ws = record { stays = λ pre bad. record { at = λ held s h. h } }

  pub Steady-bind :
      {A B : Type 0} (m : M A) (f : A → M B)
      → Steady m
      → ((a : A) → Steady (f a))
      → Steady (m >>= f)
  Steady-bind m f km kf = record {
    stays = λ pre bad. Triple-bind (km.stays pre bad) (λ a. (kf a).stays pre bad);
  }

  pub Steady-then :
      {B : Type 0} (m : M (Unit {0})) (n : M B) → Steady m → Steady n → Steady (m >> n)
  Steady-then m n km kn = Steady-bind m (λ _. n) km (λ _. kn)

  pub Steady-when :
      {A : Type 0} (b : Bool) (m n : M A) → Steady m → Steady n → Steady (when b then m else n)
  unfolding when◌then◌else◌
  Steady-when true m n km kn = km
  Steady-when false m n km kn = kn

  Leaves-reify_any :
      {A : Type 0} (pre bad : List ℕ) (held : Option (List ℕ)) (r : Exit A) (t : State)
      → Leaves (λ _. pre) pre held r t
      → Leaves (λ _. pre) bad held (reify r t).0 (reify r t).1
  Leaves-reify_any pre bad held (returned (ok a)) t h = h
  Leaves-reify_any pre bad held (returned (err e)) t h = h
  Leaves-reify_any pre bad held running t h = tt

  pub Steady-attempt : {A : Type 0} (m : M A) → Balanced m → Steady (attempt m)
  unfolding attempt
  Steady-attempt m km = record {
    stays = λ pre bad. record {
      at = λ held s h. Leaves-reify_any pre bad held (m s).0 (m s).1 ((km.keeps pre).at held s h);
    };
  }

pub ruleset steady_rules = (
  Steady-pure, Steady-out_of_fuel, Steady-call, Steady-call_out, Steady-host, Steady-gets,
  Steady-set_waiters, Steady-bind, Steady-then, Steady-when, Steady-attempt,
)
