-- ===== src/Verify/Ownership.antt =====
-- `verify_bind_or_err` closes its epoll set. It leaves the session alone where libvppcom can tell
-- the local address.
use vcl_rs.Base.{ℕ, zero, suc, ◌≡◌, refl, List, ◌∷◌, ℤ, pos, negsuc}
use vcl_rs.Net.{SocketAddr}
use vcl_rs.Ffi.{Vcl, Attr, endpoint, attr_get_lcl_addr}
use vcl_rs.Machine.{ok, State, returned, ◌>>=◌}
use vcl_rs.Machine.Balance.{Balanced, Triple, Triple-bind, balanced_rules}
use vcl_rs.Machine.Steady.{Steady, Steady-call, Steady-host, steady_rules}
use vcl_rs.Machine.Scopes.{
  Triple-answered, Triple-close, Triple-fail, Triple-epoll_create, Balanced-of_Triple,
}
use vcl_rs.Session.{default_endpoint, attr_addr, check, local_addr}
use vcl_rs.Session.Balance.{local_addr-Balanced}
use vcl_rs.Verify.{drain_until, confirm, verify_watched, verify_in, verify_bind_or_err}

module _ ⦃V : Vcl⦄ where
  drain_until-Steady : (k vep deadline : ℕ) → Steady (drain_until k vep deadline)
  unfolding drain_until
  drain_until-Steady zero vep deadline = search steady_rules
  drain_until-Steady (suc k) vep deadline =
      let again = drain_until-Steady k vep deadline in search steady_rules depth 7

  -- libvppcom answers a query for the local address of `h`.
  abbrev pub Answers : ℕ → Type 0
  Answers h =
      (a : Attr) (w : V.World) → (n : ℕ) × ((V.session_attr h attr_get_lcl_addr a w).0 ≡ pos n)

  confirm_ok-Balanced :
      (h : ℕ) (requested actual : SocketAddr) → Balanced (confirm h requested (ok actual))
  unfolding confirm
  confirm_ok-Balanced h requested actual = search balanced_rules

  module _ (h : ℕ) (answers : Answers h) where
    local_addr_ok : (s : State) → (a : SocketAddr) × ((local_addr h s).0 ≡ returned (ok a))
    unfolding local_addr ◌>>=◌ check
    local_addr_ok s =
        let before = endpoint default_endpoint in
        let (n, e) = answers before s.world in
        (attr_addr (V.session_attr h attr_get_lcl_addr before s.world).1, rw (e, check) refl)

    verify_watched-Triple :
        (pre : List ℕ) (k vep : ℕ) (requested : SocketAddr) (rv : ℤ)
        → Triple (vep ∷ pre) (verify_watched k vep h requested rv) (λ _. pre) pre
    unfolding verify_watched
    verify_watched-Triple pre k vep requested (negsuc n) =
        Triple-bind (Triple-close vep pre pre) λ _. Triple-fail _ (λ _. pre) pre
    verify_watched-Triple pre k vep requested (pos n) =
        Triple-bind ((Steady-host V.now).stays (vep ∷ pre) pre) λ start.
          Triple-bind ((drain_until-Steady k vep _).stays (vep ∷ pre) pre) λ _.
            Triple-bind (Triple-close vep pre pre) λ _.
              Triple-answered (local_addr h) (confirm h requested) pre (λ _. pre) pre
                (local_addr-Balanced h) local_addr_ok
                λ actual. (confirm_ok-Balanced h requested actual).keeps pre

    -- Where libvppcom knows the session, verification changes no handle in the end.
    pub verify_bind_or_err-Balanced :
        (k : ℕ) (requested : SocketAddr) → Balanced (verify_bind_or_err k h requested)
    unfolding verify_bind_or_err verify_in
    verify_bind_or_err-Balanced k requested = Balanced-of_Triple λ pre.
        Triple-epoll_create (verify_in k h requested) pre (λ _. pre) pre
          (λ n. Triple-fail _ (λ _. pre) pre)
          λ vep.
            Triple-bind ((Steady-call _ _ refl).stays (vep ∷ pre) pre)
              λ rv. verify_watched-Triple pre k vep requested rv
