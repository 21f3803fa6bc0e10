-- ===== src/Ephemeral/Bounds.antt =====
-- The binds that the search for a source port makes.
use vcl_rs.Base.{
  ℕ, zero, suc, ◌+◌, ◌≤◌, ◌≡◌, refl, ap, List, [], ◌∷◌, ◌++◌, length, All, arith, true, false,
}
use vcl_rs.Net.{IpAddr, socket_addr}
use vcl_rs.Ffi.{Vcl}
use vcl_rs.Endpoint.{endpoint_into_buf, zeroed}
use vcl_rs.Machine.{Event, State, session_bind, ok, err}
use vcl_rs.Machine.Hoare.{Hoare, Hoare-bind, Hoare-cases, Hoare-pure, Hoare-call, Hoare-host, After}
use vcl_rs.Session.{bind}
use vcl_rs.Session.Check.{check-either}
use vcl_rs.Ephemeral.{low, high, bind_ephemeral}

module _ ⦃V : Vcl⦄ where
  -- What `rand` documents of `gen_range`.
  abbrev pub Inclusive : Type 0
  Inclusive =
      (a b : ℕ) (w : V.World) → a ≤ b → (a ≤ (V.gen_range a b w).0) × ((V.gen_range a b w).0 ≤ b)

  -- A bind of `h` to the address and a port of the range.
  abbrev pub Attempt : ℕ → IpAddr → Event → Type 0
  Attempt h ip e =
      (port : ℕ) × (low ≤ port)
      × (port ≤ high)
      × (e.call ≡ session_bind h (endpoint_into_buf (socket_addr ip port) zeroed))

  -- On top of `before`, `m` attempts at most and no other call.
  abbrev pub Tried : ℕ → IpAddr → List Event → ℕ → State → Type 0
  Tried h ip before m s =
      (events : List Event) × (length events ≤ m)
      × (All (Attempt h ip) events)
      × (s.trace ≡ events ++ before)

  module _ (inclusive : Inclusive) (h : ℕ) (ip : IpAddr) (before : List Event) where
    bind-Tried :
        (m port : ℕ)
        → Hoare
            (λ s. Tried h ip before m s × (low ≤ port) × (port ≤ high))
            (bind h (socket_addr ip port))
            (λ _. Tried h ip before (suc m))
            (λ _. Tried h ip before (suc m))
            (false ≡ true)
    unfolding bind
    bind-Tried m port =
        Hoare-bind _ _ (λ _. Tried h ip before (suc m)) _
          (Hoare-call _ _ (λ s ((events, len, all, e), lo, hi).
            let ep = endpoint_into_buf (socket_addr ip port) zeroed in
            let ev : Event = record {
              call = session_bind h ep;
              rc = (V.session_bind h ep s.world).0;
            } in
            (ev ∷ events, omega arith, ((port, lo, hi, refl), all), ap (λ t. ev ∷ t) e)))
          (λ rc. Hoare-bind _ _ _ _ (check-either _ _ rc) (λ n. Hoare-pure _ (λ s q. q)))

    more : (m n : ℕ) (s : State) → m ≤ n → Tried h ip before m s → Tried h ip before n s
    more m n s le (events, len, all, e) = (events, omega arith, all, e)

    bind_ephemeral-Tried :
        (n m total : ℕ)
        → m + n ≤ total
        → Hoare
            (Tried h ip before m)
            (bind_ephemeral n h ip)
            (λ _. Tried h ip before total)
            (λ _. Tried h ip before total)
            (false ≡ true)
    unfolding bind_ephemeral
    bind_ephemeral-Tried zero m total le = Hoare-pure _ (λ s q. more m total s (omega arith) q)
    bind_ephemeral-Tried (suc n) m total le =
        Hoare-bind _ _ (λ port s. Tried h ip before m s × (low ≤ port) × (port ≤ high)) _
          (Hoare-host _
            (λ s q. let (lo, hi) = inclusive low high s.world (omega arith) in (q, lo, hi)))
          (λ port. Hoare-cases _ _ _ (bind-Tried m port) (elim [
            | ok _ ↦ Hoare-pure _ (λ s q. more (suc m) total s (omega arith) q)
            | err e ↦ bind_ephemeral-Tried n (suc m) total (omega arith)
          ]))

    -- The search for a source port returns, makes one bind a round at most, each of its session to the
    -- address and a port from 32768 to 60999, and no other call, if the generator keeps its bounds.
    pub bind_ephemeral-in_range :
        (rounds : ℕ) (s : State)
        → s.trace ≡ before
        → After
            (λ _. Tried h ip before rounds)
            (λ _. Tried h ip before rounds)
            (false ≡ true)
            (bind_ephemeral rounds h ip s).0
            (bind_ephemeral rounds h ip s).1
    bind_ephemeral-in_range rounds s e =
        (bind_ephemeral-Tried rounds 0 rounds (omega arith)).at s ([], omega arith, tt, e)
