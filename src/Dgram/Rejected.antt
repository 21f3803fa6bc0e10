-- ===== src/Dgram/Rejected.antt =====
-- `VclDgramSocket::bind` of src/dgram.rs when VPP rejects the bind later on.
use vcl_rs.Base.{
  ℕ, zero, suc, ◌≡◌, refl, sym, ap, ◌∙◌, true, false, Option, none, some, List, [], ◌∷◌, ℤ, pos,
  negsuc, ◌<◌, arith,
}
use vcl_rs.Net.{SocketAddr}
use vcl_rs.Error.{VclError}
use vcl_rs.Ffi.{Vcl, Endpoint, Attr, EpollEvent, attr_get_lcl_addr, millis}
use vcl_rs.Machine.{
  State, Exit, returned, running, Call, ok, err, pure, call, ◌>>=◌, call_void, gets, set_registered,
}
use vcl_rs.Machine.Hoare.{
  After, Hoare, Hoare-bind, Hoare-match, Hoare-pure, Hoare-fail, Hoare-out_of_fuel, Hoare-when,
  Hoare-call, Hoare-call_out, Hoare-host, Hoare-mono, Hoare-fact,
}
use vcl_rs.Machine.Runs.{Hoare-on_err}
use vcl_rs.Machine.Ends.{has_returned}
use vcl_rs.Machine.Ledger.{
  ledger, release, acquire, let_go, let_go-hold, is_neutral, enter-of_neutral,
}
use vcl_rs.Session.{check, create, create_udp, drop_handle, local_addr, listen}
use vcl_rs.Session
use vcl_rs.App.{register_worker_thread, registered_as}
use vcl_rs.Reactor.{VclReactor}
use vcl_rs.Verify.{drain_until, confirm, verify_watched, verify_in, verify_bind_or_err}
use vcl_rs.Verify.Returns.{DrainClock}
use vcl_rs.Dgram.{VclDgramSocket, bind_setup, bind}
use vcl_rs.Dgram.Returns.{dgram_bind-Ends}

module _ ⦃V : Vcl⦄ where
  -- libvppcom accepts the calls that set a session up, and then does not know its local address: VPP
  -- has rejected the bind in the meantime. It gives no number of a handle that is open.
  pub record RejectsLater (held : List ℕ) : Type 0 where
    pub creates : (p f : ℕ) (w : V.World) → (h : ℕ) × ((V.session_create p f w).0 ≡ pos h)
    pub new_number :
        (p f h : ℕ) (w : V.World) → (V.session_create p f w).0 ≡ pos h → release h held ≡ none
    pub binds :
        (h : ℕ) (ep : Endpoint) (w : V.World) → (n : ℕ) × ((V.session_bind h ep w).0 ≡ pos n)
    pub listens : (h q : ℕ) (w : V.World) → (n : ℕ) × ((V.session_listen h q w).0 ≡ pos n)
    pub makes_set : (w : V.World) → (vep : ℕ) × ((V.epoll_create w).0 ≡ pos vep)
    pub adds :
        (vep op h : ℕ) (ev : Option EpollEvent) (w : V.World)
        → (n : ℕ) × ((V.epoll_ctl vep op h ev w).0 ≡ pos n)
    pub rejects :
        (h : ℕ) (a : Attr) (w : V.World)
        → (n : ℕ) × ((V.session_attr h attr_get_lcl_addr a w).0 ≡ negsuc n)

  -- These handles are open.
  abbrev Open : List ℕ → State → Type 0
  Open xs s = ledger s.trace ≡ some xs

  abbrev Never : {A : Type 0} → A → State → Type 0
  Never a s = false ≡ true

  module _ (E : VclError → State → Type 0) where
    check-Open :
        (xs : List ℕ) (rc : ℤ)
        → Hoare (λ s. ((n : ℕ) × (rc ≡ pos n)) × Open xs s) (check rc) (λ _. Open xs) E (Unit {0})
    unfolding check
    check-Open xs (pos n) = Hoare-pure _ (λ s p. p.1)
    check-Open xs (negsuc n) = record { at = λ s p. absurd (ground (arith, p.0.1)) }

    -- A call that is accepted, and neither opens nor closes a handle.
    accepted-Open :
        (xs : List ℕ) (c : Call) (f : V.World → ℤ × V.World)
        → is_neutral c ≡ true
        → ((w : V.World) → (n : ℕ) × ((f w).0 ≡ pos n))
        → Hoare (Open xs) (call c f >>= λ rc. check rc >>= λ _. pure tt) (λ _. Open xs) E (Unit {0})
    accepted-Open xs c f neutral fine =
        Hoare-bind _ _ (λ rc s. ((n : ℕ) × (rc ≡ pos n)) × Open xs s) _
          (Hoare-call c f
            (λ s p. (fine s.world, enter-of_neutral c (f s.world).0 (ledger s.trace) neutral ∙ p)))
          λ rc. Hoare-bind _ _ (λ _. Open xs) _ (check-Open xs rc) λ n. Hoare-pure _ (λ s p. p)

    registered_as-Open :
        (xs : List ℕ) (idx : ℤ) → Hoare (Open xs) (registered_as idx) (λ _. Open xs) E (Unit {0})
    unfolding registered_as call_void set_registered
    registered_as-Open xs (pos n) = record { at = λ s p. p }
    registered_as-Open xs (negsuc n) = record { at = λ s p. p }

    register_worker_thread-Open :
        (xs : List ℕ) → Hoare (Open xs) register_worker_thread (λ _. Open xs) E (Unit {0})
    unfolding register_worker_thread gets
    register_worker_thread-Open xs =
        Hoare-bind _ _ (λ _. Open xs) _ (record { at = λ s p. p })
          λ known.
            Hoare-when known (λ e. Hoare-pure _ (λ s p. p))
              λ e.
                Hoare-bind _ _ (λ _. Open xs) _ (Hoare-call _ _ (λ s p. p))
                  λ _.
                    Hoare-bind _ _ (λ _. Open xs) _ (Hoare-call _ _ (λ s p. p))
                      (registered_as-Open xs)

    drain_until-Open :
        (xs : List ℕ) (k vep deadline : ℕ)
        → Hoare (Open xs) (drain_until k vep deadline) (λ _. Open xs) E (Unit {0})
    unfolding drain_until
    drain_until-Open xs zero vep deadline = Hoare-out_of_fuel (λ s p. tt)
    drain_until-Open xs (suc k) vep deadline =
        Hoare-bind _ _ (λ _. Open xs) _ (Hoare-host _ (λ s p. p))
          λ now.
            Hoare-when _
              (λ early.
                Hoare-bind _ _ (λ _. Open xs) _ (Hoare-call_out _ _ (λ s p. p))
                  λ _. drain_until-Open xs k vep deadline)
              (λ late. Hoare-pure _ (λ s p. p))

    close-Open :
        (xs : List ℕ) (h : ℕ) → Hoare (Open (h ∷ xs)) (drop_handle h) (λ _. Open xs) E (Unit {0})
    unfolding drop_handle
    close-Open xs h =
        Hoare-bind _ _ (λ _. Open xs) _
          (Hoare-call _ _ (λ s p. ap (let_go h) p ∙ let_go-hold h [] (some xs)))
          λ _. Hoare-pure _ (λ s p. p)

  module _ (held : List ℕ) (J : RejectsLater held) where
    local_addr-Open :
        (xs : List ℕ) (h : ℕ) → Hoare (Open xs) (local_addr h) Never (λ _. Open xs) (Unit {0})
    unfolding local_addr check
    local_addr-Open xs h =
        Hoare-bind _ _ (λ (rc, _) s. ((n : ℕ) × (rc ≡ negsuc n)) × Open xs s) _
          (Hoare-call_out _ _ (λ s p. (J.rejects h _ s.world, p)))
          λ (rc, _). Hoare-bind _ _ Never _ (refused rc) λ n. record { at = λ s bad. ground arith }
      where
        refused :
            (rc : ℤ)
            → Hoare
                (λ s. ((n : ℕ) × (rc ≡ negsuc n)) × Open xs s)
                (check rc)
                Never
                (λ _. Open xs)
                (Unit {0})
        refused (pos n) = record { at = λ s p. absurd (ground (arith, p.0.1)) }
        refused (negsuc n) = Hoare-fail _ (λ s p. p.1)

    confirm-Open :
        (h : ℕ) (requested : SocketAddr) (e : VclError)
        → Hoare (Open (h ∷ held)) (confirm h requested (err e)) Never (λ _. Open held) (Unit {0})
    unfolding confirm
    confirm-Open h requested e =
        Hoare-bind _ _ (λ _. Open held) _ (close-Open _ held h) λ _. Hoare-fail _ (λ s p. p)

    verify_watched-Open :
        (k vep h : ℕ) (requested : SocketAddr) (rv : ℤ)
        → Hoare
            (λ s. ((n : ℕ) × (rv ≡ pos n)) × Open (vep ∷ h ∷ held) s)
            (verify_watched k vep h requested rv)
            Never
            (λ _. Open held)
            (Unit {0})
    unfolding verify_watched
    verify_watched-Open k vep h requested (negsuc n) = record {
      at = λ s p. absurd (ground (arith, p.0.1));
    }
    verify_watched-Open k vep h requested (pos n) =
        Hoare-bind _ _ (λ _. Open (vep ∷ h ∷ held)) _ (Hoare-host _ (λ s p. p.1))
          λ start.
            Hoare-bind _ _ (λ _. Open (vep ∷ h ∷ held)) _ (drain_until-Open _ _ k vep _)
              λ _.
                Hoare-bind _ _ (λ _. Open (h ∷ held)) _
                  (Hoare-call _ _ (λ s p. ap (let_go vep) p ∙ let_go-hold vep [] (some (h ∷ held))))
                  λ _.
                    Hoare-match _ _ _ Never (λ _. Open (h ∷ held)) Never
                      (local_addr-Open (h ∷ held) h)
                      (λ a. record { at = λ s bad. absurd (ground (arith, bad)) })
                      (λ e. confirm-Open h requested e)

    verify_in-Open :
        (k h : ℕ) (requested : SocketAddr) (rc : ℤ)
        → Hoare
            (λ s. (vep : ℕ) × (rc ≡ pos vep) × Open (vep ∷ h ∷ held) s)
            (verify_in k h requested rc)
            Never
            (λ _. Open held)
            (Unit {0})
    unfolding verify_in
    verify_in-Open k h requested (negsuc n) = record {
      at = λ s (vep, e, p). absurd (ground (arith, e));
    }
    verify_in-Open k h requested (pos vep) =
        Hoare-bind _ _ (λ rv s. ((n : ℕ) × (rv ≡ pos n)) × Open (vep ∷ h ∷ held) s) _
          (Hoare-call _ _ (λ s (v, e, p).
            (J.adds _ _ _ _ s.world, p ∙ ap (λ x. some (x ∷ h ∷ held)) (same v vep (sym e)))))
          λ rv. verify_watched-Open k vep h requested rv
      where
        same : (a b : ℕ) → pos a ≡ pos b → a ≡ b
        same a b e = ground (arith, e)

    verify_bind_or_err-Open :
        (k h : ℕ) (requested : SocketAddr)
        → Hoare
            (Open (h ∷ held))
            (verify_bind_or_err k h requested)
            Never
            (λ _. Open held)
            (Unit {0})
    unfolding verify_bind_or_err
    verify_bind_or_err-Open k h requested =
        Hoare-bind _ _ (λ rc s. (vep : ℕ) × (rc ≡ pos vep) × Open (vep ∷ h ∷ held) s) _
          (Hoare-call _ _ (λ s p.
            let (vep, e) = J.makes_set s.world in
            (vep, e, ap (λ x. acquire x (ledger s.trace)) e ∙ ap (acquire (pos vep)) p)))
          λ rc. verify_in-Open k h requested rc

    bind_setup-Open :
        (k h : ℕ) (addr : SocketAddr) (r : VclReactor)
        → Hoare (Open (h ∷ held)) (bind_setup k h addr r) Never (λ _. Open held) (Unit {0})
    unfolding bind_setup Session.bind listen
    bind_setup-Open k h addr r =
        Hoare-bind _ _ (λ _. Open (h ∷ held)) _ (accepted-Open _ (h ∷ held) _ _ refl (J.binds h _))
          λ _.
            Hoare-bind _ _ (λ _. Open (h ∷ held)) _
              (accepted-Open _ (h ∷ held) _ _ refl (J.listens h 0))
              λ _.
                Hoare-bind _ _ Never _ (verify_bind_or_err-Open k h addr)
                  λ _. record { at = λ s bad. absurd (ground (arith, bad)) }

    create_udp-Open :
        Hoare
          (Open held)
          (create_udp true)
          (λ h s. (release h held ≡ none) × Open (h ∷ held) s)
          Never
          (Unit {0})
    unfolding create_udp create check
    create_udp-Open =
        Hoare-bind _ _
          (λ rc s. (h : ℕ) × (rc ≡ pos h) × (release h held ≡ none) × Open (h ∷ held) s) _
          (Hoare-call _ _ (λ s p.
            let (h, e) = J.creates _ _ s.world in
            (
              h,
              e,
              J.new_number _ _ h s.world e,
              ap (λ x. acquire x (ledger s.trace)) e ∙ ap (acquire (pos h)) p,
            )))
          made
      where
        made :
            (rc : ℤ)
            → Hoare
                (λ s. (h : ℕ) × (rc ≡ pos h) × (release h held ≡ none) × Open (h ∷ held) s)
                (check rc)
                (λ h s. (release h held ≡ none) × Open (h ∷ held) s)
                Never
                (Unit {0})
        made (pos n) = Hoare-pure _ (λ s (h, e, q, o). rw (same n h e) (q, o))
          where
            same : (a b : ℕ) → pos a ≡ pos b → a ≡ b
            same a b e = ground (arith, e)
        made (negsuc n) = record { at = λ s (h, e, q, o). absurd (ground (arith, e)) }

    bind-Open :
        (k : ℕ) (addr : SocketAddr) (r : VclReactor)
        → Hoare (Open held) (bind k addr r) Never (λ e t. ledger t.trace ≡ none) (Unit {0})
    unfolding bind drop_handle ◌>>=◌
    bind-Open k addr r =
        Hoare-bind _ _ (λ _. Open held) _ (register_worker_thread-Open _ held)
          λ _.
            Hoare-bind _ _ (λ h s. (release h held ≡ none) × Open (h ∷ held) s) _
              (Hoare-mono _ _ (λ h t q. q) (λ e t bad. absurd (ground (arith, bad)))
                create_udp-Open)
              λ h. Hoare-fact (λ new.
                Hoare-bind _ _ Never _
                  (Hoare-on_err (drop_handle h) (λ _. Open held) (bind_setup-Open k h addr r)
                    (λ e t q. dropped h t new q))
                  (λ _. record { at = λ s bad. absurd (ground (arith, bad)) }))
      where
        dropped :
            (h : ℕ) (t : State)
            → release h held ≡ none
            → Open held t
            → ledger (drop_handle h t).1.trace ≡ none
        dropped h t new q = ap (let_go h) q ∙ new

  failed :
      (x : Exit VclDgramSocket) (t : State)
      → has_returned x ≡ true
      → After Never (λ e t. ledger t.trace ≡ none) (Unit {0}) x t
      → ((e : VclError) × (x ≡ returned (err e))) × (ledger t.trace ≡ none)
  failed (returned (ok a)) t e h = absurd (ground (arith, h))
  failed (returned (err a)) t e h = ((a, refl), h)
  failed running t e h = absurd (ground (arith, e))

  -- If VPP rejects a bind that libvppcom has accepted, so that the local address cannot be told, then
  -- `VclDgramSocket::bind` returns an error and has closed its session twice: `verify_bind_or_err`
  -- closes it through a handle of its own, and `bind` closes it again. The ledger of such a run shows
  -- a fault. The other calls are accepted, no number of an open handle is given again, and the fuel is
  -- one round for each nanosecond of the 200 ms and one more, of which a call of `epoll_wait` takes
  -- one or more.
  pub bind-closes_twice :
      (k : ℕ) (addr : SocketAddr) (r : VclReactor) (held : List ℕ) (s : State)
      → DrainClock
      → millis 200 < k
      → RejectsLater held
      → ledger s.trace ≡ some held
      → ((e : VclError) × ((bind k addr r s).0 ≡ returned (err e)))
        × (ledger (bind k addr r s).1.trace ≡ none)
  bind-closes_twice k addr r held s C enough J opened =
      failed (bind k addr r s).0 (bind k addr r s).1 ((dgram_bind-Ends C k enough addr r).comes s)
        ((bind-Open held J k addr r).at s opened)
