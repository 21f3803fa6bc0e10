-- ===== src/Session/Ends.antt =====
-- Each operation on a session is one foreign call, so it always returns.
use vcl_rs.Base.{ℕ, Bool, List, ℤ, pos, negsuc}
use vcl_rs.Net.{SocketAddr}
use vcl_rs.Ffi.{Vcl}
use vcl_rs.Machine.Ends.{Ends, ends_rules}
use vcl_rs.Session.{
  check, create, create_tcp, create_udp, drop_handle, bind, listen, connect, recvfrom, sendto,
  local_addr, get_addr,
}

module _ ⦃V : Vcl⦄ where
  pub check-Ends : (rc : ℤ) → Ends (check rc)
  unfolding check
  check-Ends (pos n) = search ends_rules
  check-Ends (negsuc n) = search ends_rules

  create-Ends : (proto : ℕ) (nonblocking : Bool) → Ends (create proto nonblocking)
  unfolding create
  create-Ends proto nonblocking = search (ends_rules, check-Ends)

  pub create_udp-Ends : (nonblocking : Bool) → Ends (create_udp nonblocking)
  unfolding create_udp
  create_udp-Ends nonblocking = create-Ends _ nonblocking

  pub create_tcp-Ends : (nonblocking : Bool) → Ends (create_tcp nonblocking)
  unfolding create_tcp
  create_tcp-Ends nonblocking = create-Ends _ nonblocking

  pub drop_handle-Ends : (h : ℕ) → Ends (drop_handle h)
  unfolding drop_handle
  drop_handle-Ends h = search ends_rules

  pub bind-Ends : (h : ℕ) (addr : SocketAddr) → Ends (bind h addr)
  unfolding bind
  bind-Ends h addr = search (ends_rules, check-Ends)

  pub listen-Ends : (h n : ℕ) → Ends (listen h n)
  unfolding listen
  listen-Ends h n = search (ends_rules, check-Ends)

  pub connect-Ends : (h : ℕ) (addr : SocketAddr) → Ends (connect h addr)
  unfolding connect
  connect-Ends h addr = search (ends_rules, check-Ends)

  pub recvfrom-Ends : (h n : ℕ) → Ends (recvfrom h n)
  unfolding recvfrom
  recvfrom-Ends h n = search (ends_rules, check-Ends)

  pub sendto-Ends : (h : ℕ) (buf : List ℕ) (dst : SocketAddr) → Ends (sendto h buf dst)
  unfolding sendto
  sendto-Ends h buf dst = search (ends_rules, check-Ends)

  get_addr-Ends : (h op : ℕ) → Ends (get_addr h op)
  unfolding get_addr
  get_addr-Ends h op = search (ends_rules, check-Ends)

  pub local_addr-Ends : (h : ℕ) → Ends (local_addr h)
  unfolding local_addr
  local_addr-Ends h = get_addr-Ends h _
