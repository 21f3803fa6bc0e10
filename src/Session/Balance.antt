-- ===== src/Session/Balance.antt =====
-- The operations of `SessionHandle` on the ledger: a creation adds its session, the drop removes
-- it, and no other operation changes what is held.
use vcl_rs.Base.{ℕ, ◌≡◌, refl, Bool, Option, none, some, List, ◌∷◌, ℤ, pos, negsuc, ◌∙◌, ap}
use vcl_rs.Net.{SocketAddr}
use vcl_rs.Ffi.{Vcl}
use vcl_rs.Machine.{M, State, pure, fail, ◌>>=◌}
use vcl_rs.Machine.Ledger.{ledger, hold, acquire, let_go, let_go-hold}
use vcl_rs.Machine.Balance.{Leaves, Triple, Balanced, Balanced-pure, Balanced-fail, balanced_rules}
use vcl_rs.Machine.Scopes.{Drops}
use vcl_rs.Session.{
  check, create, create_tcp, create_udp, drop_handle, bind, listen, accept, connect, read, write,
  recvfrom, sendto, set_nodelay, set_nonblocking, local_addr, peer_addr,
}

module _ ⦃V : Vcl⦄ where
  pub Balanced-check : (rc : ℤ) → Balanced (check rc)
  unfolding check
  Balanced-check (pos n) = Balanced-pure n
  Balanced-check (negsuc n) = Balanced-fail _

  pub bind-Balanced : (h : ℕ) (a : SocketAddr) → Balanced (bind h a)
  unfolding bind
  bind-Balanced h a = search (balanced_rules, Balanced-check)

  pub listen-Balanced : (h backlog : ℕ) → Balanced (listen h backlog)
  unfolding listen
  listen-Balanced h backlog = search (balanced_rules, Balanced-check)

  pub connect-Balanced : (h : ℕ) (a : SocketAddr) → Balanced (connect h a)
  unfolding connect
  connect-Balanced h a = search (balanced_rules, Balanced-check)

  pub read-Balanced : (h size : ℕ) → Balanced (read h size)
  unfolding read
  read-Balanced h size = search (balanced_rules, Balanced-check)

  pub write-Balanced : (h : ℕ) (buf : List ℕ) → Balanced (write h buf)
  unfolding write
  write-Balanced h buf = search (balanced_rules, Balanced-check)

  pub recvfrom-Balanced : (h size : ℕ) → Balanced (recvfrom h size)
  unfolding recvfrom
  recvfrom-Balanced h size = search (balanced_rules, Balanced-check)

  pub sendto-Balanced : (h : ℕ) (buf : List ℕ) (dst : SocketAddr) → Balanced (sendto h buf dst)
  unfolding sendto
  sendto-Balanced h buf dst = search (balanced_rules, Balanced-check)

  pub set_nodelay-Balanced : (h : ℕ) → Balanced (set_nodelay h)
  unfolding set_nodelay
  set_nodelay-Balanced h = search (balanced_rules, Balanced-check)

  pub set_nonblocking-Balanced : (h : ℕ) → Balanced (set_nonblocking h)
  unfolding set_nonblocking
  set_nonblocking-Balanced h = search (balanced_rules, Balanced-check)

  pub local_addr-Balanced : (h : ℕ) → Balanced (local_addr h)
  unfolding local_addr
  local_addr-Balanced h = search (balanced_rules, Balanced-check)

  pub peer_addr-Balanced : (h : ℕ) → Balanced (peer_addr h)
  unfolding peer_addr
  peer_addr-Balanced h = search (balanced_rules, Balanced-check)

  Triple-check_acquired :
      (pre : List ℕ) (held : Option (List ℕ)) (rc : ℤ) (s : State)
      → ledger s.trace ≡ acquire rc (hold pre held)
      → Leaves (λ h. h ∷ pre) pre held (check rc s).0 (check rc s).1
  unfolding check pure fail
  Triple-check_acquired pre none (pos n) s e = e
  Triple-check_acquired pre (some xs) (pos n) s e = e
  Triple-check_acquired pre held (negsuc n) s e = e

  pub create-Triple :
      (pre : List ℕ) (proto : ℕ) (nonblocking : Bool)
      → Triple pre (create proto nonblocking) (λ h. h ∷ pre) pre
  unfolding create ◌>>=◌
  create-Triple pre proto nonblocking = record {
    at = λ held s e. Triple-check_acquired pre held _ _ (ap (acquire _) e);
  }

  pub create_tcp-Triple :
      (pre : List ℕ) (nonblocking : Bool) → Triple pre (create_tcp nonblocking) (λ h. h ∷ pre) pre
  unfolding create_tcp
  create_tcp-Triple pre nonblocking = create-Triple pre _ nonblocking

  pub create_udp-Triple :
      (pre : List ℕ) (nonblocking : Bool) → Triple pre (create_udp nonblocking) (λ h. h ∷ pre) pre
  unfolding create_udp
  create_udp-Triple pre nonblocking = create-Triple pre _ nonblocking

  Leaves-accepted :
      (pre : List ℕ) (held : Option (List ℕ)) (addr : SocketAddr) (rc : ℤ) (s : State)
      → ledger s.trace ≡ acquire rc (hold pre held)
      → let m : M (ℕ × SocketAddr) = check rc >>= λ client. pure (client, addr) in
        Leaves (λ r. r.0 ∷ pre) pre held (m s).0 (m s).1
  unfolding check ◌>>=◌
  Leaves-accepted pre none addr (pos n) s e = e
  Leaves-accepted pre (some xs) addr (pos n) s e = e
  Leaves-accepted pre held addr (negsuc n) s e = e

  -- A connection that is accepted is a handle of its own.
  pub accept-Triple : (pre : List ℕ) (l : ℕ) → Triple pre (accept l) (λ r. r.0 ∷ pre) pre
  unfolding accept ◌>>=◌
  accept-Triple pre l = record {
    at = λ held s e. Leaves-accepted pre held _ _ _ (ap (acquire _) e);
  }

  pub drop_handle-Drops : (h : ℕ) → Drops h (drop_handle h)
  unfolding drop_handle ◌>>=◌
  drop_handle-Drops h = record {
    closes = λ pre bad. record { at = λ held s e. ap (let_go h) e ∙ let_go-hold h pre held };
    returns = λ s. refl;
  }

pub ruleset session_rules = (
  balanced_rules, bind-Balanced, listen-Balanced, connect-Balanced, read-Balanced, write-Balanced,
  recvfrom-Balanced, sendto-Balanced, set_nodelay-Balanced, set_nonblocking-Balanced,
  local_addr-Balanced, peer_addr-Balanced,
)
