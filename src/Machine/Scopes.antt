-- ===== src/Machine/Scopes.antt =====
-- The triples of code that owns a handle: its drop, and the scopes that drop it.
use vcl_rs.Base.{
  Bool, true, false, ℕ, ◌≡◌, ap, ◌∙◌, Option, none, some, List, [], ◌∷◌, ℤ, pos, negsuc,
}
use vcl_rs.Error.{VclError}
use vcl_rs.Ffi.{Vcl}
use vcl_rs.Machine.{
  Result, out_of_fuel, on_thread, when◌then◌else◌, call, session_close, epoll_create, ◌>>=◌,
  attempt, reify, continue, ok, err, Exit, returned, running, State, M, pure, fail, finally,
  after_all, on_err, after_err,
}
use vcl_rs.Machine.Ledger.{ledger, acquire, let_go, let_go-hold, hold}
use vcl_rs.Machine.Balance.{Leaves, Triple, Balanced}

module _ ⦃V : Vcl⦄ where
  pub Triple-pure :
      {A : Type 0} (a : A) (post : A → List ℕ) (bad : List ℕ) → Triple (post a) (pure a) post bad
  unfolding pure
  Triple-pure a post bad = record { at = λ held s h. h }

  pub Triple-fail :
      {A : Type 0} (e : VclError) (post : A → List ℕ) (bad : List ℕ)
      → Triple bad (fail {A = A} e) post bad
  unfolding fail
  Triple-fail e post bad = record { at = λ held s h. h }

  pub Triple-out_of_fuel :
      {A : Type 0} (pre : List ℕ) (post : A → List ℕ) (bad : List ℕ)
      → Triple pre (out_of_fuel {A = A}) post bad
  unfolding out_of_fuel
  Triple-out_of_fuel pre post bad = record { at = λ held s h. tt }

  -- A destructor closes the handle and cannot fail.
  pub record Drops (h : ℕ) (d : M (Unit {0})) : Type 0 where
    pub closes : (pre bad : List ℕ) → Triple (h ∷ pre) d (λ _. pre) bad
    pub returns : (s : State) → (d s).0 ≡ returned (ok tt)

  Drops-ledger :
      (h : ℕ) (pre : List ℕ) (held : Option (List ℕ)) (r : Exit (Unit {0})) (t : State)
      → r ≡ returned (ok tt)
      → Leaves (λ _. pre) [] held r t
      → ledger t.trace ≡ hold pre held
  Drops-ledger h pre held (returned (ok a)) t e l = l
  Drops-ledger h pre held (returned (err x)) t e l = absurd (cc)
  Drops-ledger h pre held running t e l = absurd (cc)

  module _ (h : ℕ) (d : M (Unit {0})) (dr : Drops h d) where
    dropped :
        (pre : List ℕ) (held : Option (List ℕ)) (t : State)
        → ledger t.trace ≡ hold (h ∷ pre) held
        → ledger (d t).1.trace ≡ hold pre held
    dropped pre held t e =
        Drops-ledger h pre held (d t).0 (d t).1 (dr.returns t) ((dr.closes pre []).at held t e)

    module _ {A : Type 0} where
      Leaves-after_all :
          (pre : List ℕ) (held : Option (List ℕ)) (r : Exit A) (t : State)
          → Leaves (λ _. h ∷ pre) (h ∷ pre) held r t
          → Leaves (λ _. pre) pre held (after_all d r t).0 (after_all d r t).1
      Leaves-after_all pre held (returned (ok a)) t e = dropped pre held t e
      Leaves-after_all pre held (returned (err x)) t e = dropped pre held t e
      Leaves-after_all pre held running t e = tt

      pub Triple-finally :
          {m : M A} (pre : List ℕ) → Balanced m → Triple (h ∷ pre) (finally m d) (λ _. pre) pre
      unfolding finally
      Triple-finally {m} pre km = record {
        at = λ held s e.
            Leaves-after_all pre held (m s).0 (m s).1 ((km.keeps (h ∷ pre)).at held s e);
      }

      Leaves-after_err :
          (post : A → List ℕ) (pre : List ℕ) (held : Option (List ℕ)) (r : Exit A) (t : State)
          → Leaves post (h ∷ pre) held r t
          → Leaves post pre held (after_err d r t).0 (after_err d r t).1
      Leaves-after_err post pre held (returned (ok a)) t e = e
      Leaves-after_err post pre held (returned (err x)) t e = dropped pre held t e
      Leaves-after_err post pre held running t e = tt

      pub Triple-on_err_of :
          {m : M A} (post : A → List ℕ) (pre : List ℕ)
          → Triple (h ∷ pre) m post (h ∷ pre)
          → Triple (h ∷ pre) (on_err m d) post pre
      unfolding on_err
      Triple-on_err_of {m} post pre km = record {
        at = λ held s e. Leaves-after_err post pre held (m s).0 (m s).1 (km.at held s e);
      }

      pub Triple-on_err :
          {m : M A} (pre : List ℕ) → Balanced m → Triple (h ∷ pre) (on_err m d) (λ _. h ∷ pre) pre
      Triple-on_err pre km = Triple-on_err_of (λ _. h ∷ pre) pre (km.keeps (h ∷ pre))

  -- What holds no handle of its own at either end is balanced.
  pub Balanced-of_Triple :
      {A : Type 0} {m : M A} → ((pre : List ℕ) → Triple pre m (λ _. pre) pre) → Balanced m
  Balanced-of_Triple k = record { keeps = k }

  -- A close that is written out, and the creation of an epoll set with what follows it.
  pub Triple-close :
      (v : ℕ) (pre bad : List ℕ)
      → Triple (v ∷ pre) (call (session_close v) (V.session_close v)) (λ _. pre) bad
  unfolding call
  Triple-close v pre bad = record { at = λ held s h. ap (let_go v) h ∙ let_go-hold v pre held }

  module _ {A : Type 0} (f : ℤ → M A) (pre : List ℕ) (post : A → List ℕ) (bad : List ℕ) where
    Leaves-created :
        ((n : ℕ) → Triple pre (f (negsuc n)) post bad)
        → ((v : ℕ) → Triple (v ∷ pre) (f (pos v)) post bad)
        → (held : Option (List ℕ)) (rc : ℤ) (s : State)
        → ledger s.trace ≡ acquire rc (hold pre held)
        → Leaves post bad held (f rc s).0 (f rc s).1
    Leaves-created kn kp none (pos v) s e = (kp v).at none s e
    Leaves-created kn kp (some xs) (pos v) s e = (kp v).at (some xs) s e
    Leaves-created kn kp held (negsuc n) s e = (kn n).at held s e

    pub Triple-epoll_create :
        ((n : ℕ) → Triple pre (f (negsuc n)) post bad)
        → ((v : ℕ) → Triple (v ∷ pre) (f (pos v)) post bad)
        → Triple pre (call epoll_create V.epoll_create >>= f) post bad
    unfolding ◌>>=◌
    Triple-epoll_create kn kp = record {
      at = λ held s e. Leaves-created kn kp held _ _ (ap (acquire _) e);
    }

  module _ {A B : Type 0} (m : M A) (f : Result A → M B) (pre : List ℕ) (post : B → List ℕ)
      (bad : List ℕ) where
    Leaves-answered :
        ((a : A) → Triple pre (f (ok a)) post bad)
        → (held : Option (List ℕ)) (r : Exit A) (t : State) → (a : A) × (r ≡ returned (ok a))
        → Leaves (λ _. pre) pre held r t
        → Leaves post bad held
            (continue f (reify r t).0 (reify r t).1).0
            (continue f (reify r t).0 (reify r t).1).1
    Leaves-answered kf held (returned (ok a)) t _ l = (kf a).at held t l
    Leaves-answered kf held (returned (err e)) t (a, x) l = absurd (cc)
    Leaves-answered kf held running t (a, x) l = absurd (cc)

    -- A `match` on a call that cannot fail.
    pub Triple-answered :
        Balanced m
        → ((s : State) → (a : A) × ((m s).0 ≡ returned (ok a)))
        → ((a : A) → Triple pre (f (ok a)) post bad)
        → Triple pre (attempt m >>= f) post bad
    unfolding ◌>>=◌ attempt
    Triple-answered km answers kf = record {
      at = λ held s h.
          Leaves-answered kf held (m s).0 (m s).1 (answers s) ((km.keeps pre).at held s h);
    }

  module _ {A B : Type 0} (m : M A) (f : Result A → M B) where
    Leaves-matched :
        (mid : A → List ℕ) (miss : List ℕ) (post : B → List ℕ) (bad : List ℕ)
        → ((a : A) → Triple (mid a) (f (ok a)) post bad)
        → ((e : VclError) → Triple miss (f (err e)) post bad)
        → (held : Option (List ℕ)) (r : Exit A) (t : State) → Leaves mid miss held r t
        → Leaves post bad held
            (continue f (reify r t).0 (reify r t).1).0
            (continue f (reify r t).0 (reify r t).1).1
    Leaves-matched mid miss post bad ka ke held (returned (ok a)) t l = (ka a).at held t l
    Leaves-matched mid miss post bad ka ke held (returned (err e)) t l = (ke e).at held t l
    Leaves-matched mid miss post bad ka ke held running t l = tt

    -- A `match` on a call, whose arms hold what the call leaves them.
    pub Triple-match :
        {pre : List ℕ} (mid : A → List ℕ) (miss : List ℕ) (post : B → List ℕ) (bad : List ℕ)
        → Triple pre m mid miss
        → ((a : A) → Triple (mid a) (f (ok a)) post bad)
        → ((e : VclError) → Triple miss (f (err e)) post bad)
        → Triple pre (attempt m >>= f) post bad
    unfolding ◌>>=◌ attempt
    Triple-match mid miss post bad km ka ke = record {
      at = λ held s h. Leaves-matched mid miss post bad ka ke held (m s).0 (m s).1 (km.at held s h);
    }

  pub Triple-on_thread :
      {A : Type 0} {m : M A} {pre : List ℕ} {post : A → List ℕ} {bad : List ℕ} (b : Bool)
      → Triple pre m post bad
      → Triple pre (on_thread b m) post bad
  unfolding on_thread
  Triple-on_thread {A} {m} {post} {bad} b km = record {
    at = λ held s h.
        let t : State = record s { registered = b } in
        Leaves-registered held s.registered (m t).0 (m t).1 (km.at held t h);
  }
    where
      Leaves-registered :
          (held : Option (List ℕ)) (c : Bool) (r : Exit A) (t : State)
          → Leaves post bad held r t
          → Leaves post bad held r (record t { registered = c })
      Leaves-registered held c (returned (ok a)) t h = h
      Leaves-registered held c (returned (err e)) t h = h
      Leaves-registered held c running t h = tt

  pub Triple-when :
      {A : Type 0} {m n : M A} {pre : List ℕ} {post : A → List ℕ} {bad : List ℕ} (b : Bool)
      → Triple pre m post bad
      → Triple pre n post bad
      → Triple pre (when b then m else n) post bad
  unfolding when◌then◌else◌
  Triple-when true km kn = km
  Triple-when false km kn = kn
