-- ===== src/Machine/Fuel.antt =====
-- More fuel never changes a result.
use vcl_rs.Base.{◌≡◌, ◌⊎◌, inl, inr, refl, sym, ap, ◌∙◌, Bool, true, false}
use vcl_rs.Ffi.{Vcl}
use vcl_rs.Machine.{
  Result, ok, err, Exit, returned, running, State, M, out_of_fuel, ◌>>=◌, when◌then◌else◌, continue,
}

module _ ⦃V : Vcl⦄ where
  -- `n` does what `m` does, if `m` does not run out of fuel.
  pub record Grows {A : Type 0} (m n : M A) : Type 0 where
    pub agree : (s : State) → ((m s).0 ≡ running) ⊎ (m s ≡ n s)

  pub Grows-refl : {A : Type 0} (m : M A) → Grows m m
  Grows-refl m = record { agree = λ s. inr refl }

  pub Grows-out_of_fuel : {A : Type 0} (n : M A) → Grows out_of_fuel n
  unfolding out_of_fuel
  Grows-out_of_fuel n = record { agree = λ s. inl refl }

  continue-Grows :
      {A B : Type 0} (f g : A → M B)
      → ((a : A) → Grows (f a) (g a))
      → (r : Exit A) (t : State)
      → ((continue f r t).0 ≡ running) ⊎ (continue f r t ≡ continue g r t)
  continue-Grows f g h (returned (ok a)) t = (h a).agree t
  continue-Grows f g h (returned (err e)) t = inr refl
  continue-Grows f g h running t = inl refl

  pub Grows-bind :
      {A B : Type 0} {m n : M A} (f g : A → M B)
      → Grows m n
      → ((a : A) → Grows (f a) (g a))
      → Grows (m >>= f) (n >>= g)
  unfolding ◌>>=◌
  Grows-bind {m} {n} f g hm hf = record {
    agree = λ s. elim (hm.agree s) [
      | inl stuck ↦ inl (rw stuck refl)
      | inr same ↦ elim (continue-Grows f g hf (m s).0 (m s).1) [
        | inl stuck ↦ inl stuck
        | inr e ↦ inr (e ∙ ap (λ x. continue g x.0 x.1) same)
      ]
    ];
  }

  pub Grows-when :
      {A : Type 0} {m m' n n' : M A} (b : Bool)
      → Grows m m'
      → Grows n n'
      → Grows (when b then m else n) (when b then m' else n')
  unfolding when◌then◌else◌
  Grows-when true hm hn = hm
  Grows-when false hm hn = hn

  -- A result stays.
  pub stays :
      {A : Type 0} {m n : M A} (s t : State) (r : Result A)
      → Grows m n
      → m s ≡ (returned r, t)
      → n s ≡ (returned r, t)
  stays s t r h e = elim (h.agree s) [
    | inl stuck ↦ (let came = ap (λ x. x.0) (sym e) ∙ stuck in absurd (cc))
    | inr same ↦ sym same ∙ e
  ]
