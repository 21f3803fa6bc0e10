-- ===== src/App/Race/Exclusive.antt =====
-- At most one app of src/app.rs exists, whatever the threads do.
use vcl_rs.Base.{
  ℕ, zero, suc, ◌+◌, ◌≤◌, ◌≡◌, inl, inr, refl, sym, ap, subst, ◌∙◌, Bool, true, false, Bool-cases,
  Option, none, some, List, [], ◌∷◌, ◌++◌, map, ℤ, pos, negsuc, arith,
}
use vcl_rs.Error.{VclError}
use vcl_rs.Ffi.{Vcl}
use vcl_rs.Machine.{State, ok, returned, ◌>>=◌, Call, app_create, app_destroy, Event}
use vcl_rs.Machine.Hoare.{After}
use vcl_rs.App.{has_nul}
use vcl_rs.App.Race.{
  after_create, Life, uncalled, claimed, failing, alive, destroyed, over, is_other, proceed,
  Process, begin, Step, proceeds, calls, Reach, here, next,
}

-- How many apps a run has made libvppcom keep, read off its calls: `none` once it has created one
-- beside another, or destroyed one that is not there.
abbrev pub create_one : ℤ → Option ℕ → Option ℕ
create_one (pos n) (some zero) = some 1
create_one (negsuc n) (some zero) = some 0
create_one _ _ = none

abbrev pub destroy_one : Option ℕ → Option ℕ
destroy_one (some (suc zero)) = some 0
destroy_one _ = none

abbrev pub enter_app : Call → ℤ → Option ℕ → Option ℕ
enter_app (app_create name) rc apps = create_one rc apps
enter_app app_destroy rc apps = destroy_one apps
enter_app _ rc apps = apps

abbrev pub app_ledger : List Event → Option ℕ
app_ledger [] = some 0
app_ledger (e ∷ es) = enter_app e.call e.rc (app_ledger es)

enter_app-of_other :
    (c : Call) (rc : ℤ) (apps : Option ℕ) → is_other c ≡ true → enter_app c rc apps ≡ apps
enter_app-of_other (app_create name) rc apps e = ground arith
enter_app-of_other _ rc apps e = ground arith

-- Who has the flag, and who has an app.
abbrev owns : Life → ℕ
owns (uncalled name) = 0
owns (over r) = 0
owns _ = 1

abbrev pub lives_one : Life → ℕ
lives_one alive = 1
lives_one _ = 0

unfoldable pub owning : List Life → ℕ
owning [] = 0
owning (l ∷ ls) = owns l + owning ls

-- How many values of `VclApp` there are.
unfoldable pub living : List Life → ℕ
living [] = 0
living (l ∷ ls) = lives_one l + living ls

owning-split : (xs ys : List Life) (l : Life) → owning (xs ++ (l ∷ ys)) ≡ owns l + owning (xs ++ ys)
unfolding owning
owning-split [] ys l = refl
owning-split (x ∷ xs) ys l = let again = owning-split xs ys l in omega (arith, again)

living-split :
    (xs ys : List Life) (l : Life) → living (xs ++ (l ∷ ys)) ≡ lives_one l + living (xs ++ ys)
unfolding living
living-split [] ys l = refl
living-split (x ∷ xs) ys l = let again = living-split xs ys l in omega (arith, again)

living-owning : (ls : List Life) → living ls ≤ owning ls
unfolding living owning
living-owning [] = omega arith
living-owning (l ∷ ls) =
    let again = living-owning ls in
    let one : lives_one l ≤ owns l = ground arith in omega (arith, again, one)

abbrev pub flag : Bool → ℕ
flag true = 1
flag false = 0

module _ ⦃V : Vcl⦄ where
  -- `n` of the other lives have the flag, and `m` of them an app.
  abbrev Kept : ℕ → ℕ → Life → State → Type 0
  Kept n m l s = (owns l + n ≤ flag s.initialized) × (app_ledger s.trace ≡ some (lives_one l + m))

  abbrev Never : VclError → State → Type 0
  Never e s = false ≡ true

  -- Who has the flag is the only one.
  nobody_else : (n m : ℕ) (b : Bool) → 1 + n ≤ flag b → m ≤ n → (n ≡ 0) × (m ≡ 0) × (b ≡ true)
  nobody_else n m true o le = (omega (arith, o), omega (arith, o, le), refl)
  nobody_else n m false o le = absurd (omega (arith, o))

  created-Kept :
      (rc : ℤ) (w : ℕ × Option ℕ)
      → (w.0 ≡ 1)
      → w.1 ≡ some 0
      → (owns (after_create rc) + 0 ≤ w.0)
        × (create_one rc w.1 ≡ some (lives_one (after_create rc) + 0))
  created-Kept (pos k) w one e = rw (one, e) (omega arith, refl)
  created-Kept (negsuc k) w one e = rw (one, e) (omega arith, refl)

  proceed-Kept :
      (n m : ℕ) (l : Life) (s : State)
      → m ≤ n
      → Kept n m l s
      → After (Kept n m) Never (false ≡ true) (proceed l s).0 (proceed l s).1
  unfolding proceed ◌>>=◌
  proceed-Kept n m (uncalled name) s le (o, a) = elim (Bool-cases s.initialized) [
    | inl t ↦ rw t (omega (arith, o, ap flag t), a)
    | inr f ↦ elim (Bool-cases (has_nul name)) [
      | inl t ↦ rw (f, t) (omega (arith, o, ap flag f), a)
      | inr g ↦ rw (f, g) (omega (arith, o, ap flag f), a)
    ]
  ]
  proceed-Kept n m (claimed name) s le (o, a) =
      let (no_owner, no_app, set) = nobody_else n m s.initialized o le in
      rw (no_owner, no_app)
        (created-Kept _ (flag s.initialized, app_ledger s.trace) (ap flag set)
          (a ∙ ap (λ k. some (0 + k)) no_app))
  proceed-Kept n m (failing rc) s le (o, a) =
      let (no_owner, _, _) = nobody_else n m s.initialized o le in (omega (arith, no_owner), a)
  proceed-Kept n m alive s le (o, a) =
      let (_, no_app, _) = nobody_else n m s.initialized o le in (o, ground (arith, a, no_app))
  proceed-Kept n m destroyed s le (o, a) =
      let (no_owner, _, _) = nobody_else n m s.initialized o le in (omega (arith, no_owner), a)
  proceed-Kept n m (over r) s le (o, a) = (o, a)

  -- Whoever has an app has the flag, and libvppcom keeps as many apps as there are `VclApp`s.
  abbrev Inv : Process → Type 0
  Inv p =
      (owning p.lives ≤ flag p.state.initialized)
      × (app_ledger p.state.trace ≡ some (living p.lives))

  proceeds-Inv :
      (before behind : List Life) (l after : Life) (s t : State)
      → proceed l s ≡ (returned (ok after), t)
      → Inv (record { state = s; lives = before ++ (l ∷ behind) })
      → Inv (record { state = t; lives = before ++ (after ∷ behind) })
  proceeds-Inv before behind l after s t e (o, a) =
      let others = before ++ behind in
      let (o', a') =
        subst (λ run. After (Kept (owning others) (living others)) Never (false ≡ true) run.0 run.1)
          e
          (proceed-Kept (owning others) (living others) l s (living-owning others) (
            omega (arith, o, owning-split before behind l),
            a ∙ ap some (living-split before behind l),
          )) in
      (
        omega (arith, o', owning-split before behind after),
        a' ∙ ap some (sym (living-split before behind after)),
      )

  Step-Inv : {p q : Process} → Step p q → Inv p → Inv q
  Step-Inv (proceeds before behind l after s t e) h = proceeds-Inv before behind l after s t e h
  Step-Inv (calls p e w other) (o, a) =
      (o, enter_app-of_other e.call e.rc (app_ledger p.state.trace) other ∙ a)

  Reach-Inv : {p q : Process} → Reach p q → Inv p → Inv q
  Reach-Inv here h = h
  Reach-Inv (next r st) h = Step-Inv st (Reach-Inv r h)

  uncalled-none :
      (names : List (List ℕ))
      → (owning (map uncalled names) ≡ 0) × (living (map uncalled names) ≡ 0)
  unfolding owning living
  uncalled-none [] = (refl, refl)
  uncalled-none (name ∷ names) =
      let (no_owner, no_app) = uncalled-none names in
      (omega (arith, no_owner), omega (arith, no_app))

  -- However the threads' calls of `init`, the drops of what they return, and other calls of
  -- libvppcom interleave: an app is created only while there is none, and destroyed only while there
  -- is one; there are as many apps as values of `VclApp`, and there is one only while `INITIALIZED`
  -- is set, and no second. At first there is no app.
  pub apps-exclusive :
      (names : List (List ℕ)) (s : State) (p : Process)
      → app_ledger s.trace ≡ some 0
      → Reach (begin names s) p
      → (app_ledger p.state.trace ≡ some (living p.lives))
        × (living p.lives ≤ flag p.state.initialized)
  apps-exclusive names s p none_yet r =
      let (no_owner, no_app) = uncalled-none names in
      let (o, a) = Reach-Inv r (omega (arith, no_owner), none_yet ∙ ap some (sym no_app)) in
      (a, omega (arith, o, living-owning p.lives))
