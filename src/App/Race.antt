-- ===== src/App/Race.antt =====
-- src/app.rs, `VclApp::init` and `Drop for VclApp` on any number of threads, as a step relation. A
-- step is one atomic operation on `INITIALIZED` or one foreign call, with what its thread does on
-- its own until the next; the order of the steps is the scheduler's.
pub mod Exclusive
use vcl_rs.Base.{ℕ, ◌≡◌, Bool, true, false, List, [], ◌∷◌, ◌++◌, map, ℤ, pos, negsuc}
use vcl_rs.Error.{api, already_initialized, invalid_app_name, from_rc}
use vcl_rs.Ffi.{Vcl}
use vcl_rs.Machine.{
  State, M, pure, Result, ok, err, returned, ◌>>=◌, ◌>>◌, when◌then◌else◌, gets, set_initialized,
  call, call_void, log, Call, app_create, app_destroy, Event,
}
use vcl_rs.App.{has_nul}

-- Where a call of `init`, and then its `VclApp`, stands.
pub data Life : Type 0 where
  uncalled : List ℕ → Life
  -- Past the swap and `CString::new`.
  claimed : List ℕ → Life
  -- `vppcom_app_create` has returned a negative code.
  failing : ℤ → Life
  -- `init` has returned a `VclApp`.
  alive : Life
  -- In its drop, past `vppcom_app_destroy`.
  destroyed : Life
  -- The drop has returned, or `init` its error.
  over : Result (Unit {0}) → Life

abbrev pub after_create : ℤ → Life
after_create (pos n) = alive
after_create (negsuc n) = failing (negsuc n)

-- Calls that neither create nor destroy an app.
abbrev pub is_other : Call → Bool
is_other (app_create name) = false
is_other app_destroy = false
is_other _ = true

module _ ⦃V : Vcl⦄ where
  -- The steps of the drop.
  unfoldable pub drops : Life → M Life
  drops alive = do call_void app_destroy V.app_destroy; pure destroyed
  drops destroyed = do set_initialized false; pure (over (ok tt))
  drops l = pure l

  -- The next step of a life: those of `init`, and then those of the drop.
  unfoldable pub proceed : Life → M Life
  unfolding drops
  proceed (uncalled name) = do
    was ← gets (λ s. s.initialized)
    set_initialized true
    when was
        then pure (over (err (api already_initialized (negsuc 0))))
        else when has_nul name
        then pure (over (err (api invalid_app_name (negsuc 0))))
        else pure (claimed name)
  proceed (claimed name) = do
    rc ← call (app_create name) (V.app_create name)
    pure (after_create rc)
  proceed (failing rc) = do set_initialized false; pure (over (err (from_rc V.retval_str rc)))
  proceed l = drops l

  pub record Process : Type 0 where
    pub state : State
    pub lives : List Life

  abbrev pub begin : List (List ℕ) → State → Process
  begin names s = record { state = s; lives = map uncalled names }

  pub data Step : Process → Process → Type 0 where
    proceeds :
        (before behind : List Life) (l after : Life) (s t : State)
        → proceed l s ≡ (returned (ok after), t)
        → Step
            (record { state = s; lives = before ++ (l ∷ behind) })
            (record { state = t; lives = before ++ (after ∷ behind) })
    -- Any thread makes any other call.
    calls :
        (p : Process) (e : Event) (w : V.World)
        → is_other e.call ≡ true
        → Step p (record p { state = log e w p.state })

  pub data Reach (p : Process) : Process → Type 0 where
    here : Reach p p
    next : {q r : Process} → Reach p q → Step q r → Reach p r
