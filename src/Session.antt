-- ===== src/Session.antt =====
-- src/session.rs, `SessionHandle`: one foreign call and the check of its return code each.
pub mod Balance
pub mod Check
pub mod Ends
pub mod Errors
use vcl_rs.Base.{ℕ, ◌%◌, ◌^◌, Bool, List, length, take, ℤ, pos, negsuc, if◌then◌else◌}
use vcl_rs.Net.{SocketAddr}
use vcl_rs.Error.{from_rc}
use vcl_rs.Ffi.{
  Vcl, Endpoint, Attr, word, endpoint, proto_tcp, proto_udp, attr_set_tcp_nodelay, attr_set_flags,
  attr_get_lcl_addr, attr_get_peer_addr,
}
use vcl_rs.Endpoint.{endpoint_into_buf, addr_from_endpoint, zeroed}
use vcl_rs.Machine.{
  M, pure, fail, ◌>>=◌, call, call_out, session_create, session_close, session_bind, session_listen,
  session_accept, session_connect, session_read, session_write, session_recvfrom, session_sendto,
  session_attr,
}

-- `SessionHandle(pub u32)`
abbrev pub SessionHandle : Type 0
SessionHandle = ℕ

module _ ⦃V : Vcl⦄ where
  -- `if rc < 0 { return Err(VclError::from_rc(rc)); }`
  unfoldable pub check : ℤ → M ℕ
  check (pos n) = pure n
  check (negsuc n) = fail (from_rc V.retval_str (negsuc n))

  unfoldable pub create : ℕ → Bool → M SessionHandle
  create proto nonblocking = do
    let flag = if nonblocking then 1 else 0
    rc ← call (session_create proto flag) (V.session_create proto flag)
    check rc

  unfoldable pub create_tcp : Bool → M SessionHandle
  unfolding create
  create_tcp nonblocking = create proto_tcp nonblocking

  unfoldable pub create_udp : Bool → M SessionHandle
  unfolding create
  create_udp nonblocking = create proto_udp nonblocking

  unfoldable pub close : SessionHandle → M (Unit {0})
  close h = do rc ← call (session_close h) (V.session_close h); _ ← check rc; pure tt

  -- `Drop for SessionHandle`
  unfoldable pub drop_handle : SessionHandle → M (Unit {0})
  drop_handle h = do _ ← call (session_close h) (V.session_close h); pure tt

  unfoldable pub bind : SessionHandle → SocketAddr → M (Unit {0})
  bind h addr = do
    let ep = endpoint_into_buf addr zeroed
    rc ← call (session_bind h ep) (V.session_bind h ep)
    _ ← check rc
    pure tt

  unfoldable pub listen : SessionHandle → ℕ → M (Unit {0})
  listen h backlog = do
    rc ← call (session_listen h backlog) (V.session_listen h backlog)
    _ ← check rc
    pure tt

  unfoldable pub accept : SessionHandle → M (SessionHandle × SocketAddr)
  accept h = do
    (rc, ep) ← call_out (session_accept h 0) (V.session_accept h 0)
    client ← check rc
    pure (client, addr_from_endpoint ep)

  unfoldable pub connect : SessionHandle → SocketAddr → M (Unit {0})
  connect h addr = do
    let ep = endpoint_into_buf addr zeroed
    rc ← call (session_connect h ep) (V.session_connect h ep)
    _ ← check rc
    pure tt

  -- The count, and the bytes that the call has put at the start of a buffer of length `size`.
  unfoldable pub read : SessionHandle → ℕ → M (ℕ × List ℕ)
  read h size = do
    (rc, bytes) ← call_out (session_read h size) (V.session_read h size)
    n ← check rc
    pure (n, bytes)

  unfoldable pub write : SessionHandle → List ℕ → M ℕ
  write h buf = do rc ← call (session_write h buf) (V.session_write h buf); check rc

  -- `buf.len() as u32`
  abbrev pub as_u32 : ℕ → ℕ
  as_u32 n = n % 2 ^ 32

  unfoldable pub recvfrom : SessionHandle → ℕ → M (ℕ × List ℕ × SocketAddr)
  recvfrom h size = do
    let n = as_u32 size
    (rc, out) ← call_out (session_recvfrom h n 0) (V.session_recvfrom h n 0)
    count ← check rc
    pure (count, out.0, addr_from_endpoint out.1)

  unfoldable pub sendto : SessionHandle → List ℕ → SocketAddr → M ℕ
  sendto h buf dst = do
    let ep = endpoint_into_buf dst zeroed
    let bytes = take (as_u32 (length buf)) buf
    rc ← call (session_sendto h bytes 0 ep) (V.session_sendto h bytes 0 ep)
    check rc

  unfoldable pub set_attr : SessionHandle → ℕ → ℕ → M (Unit {0})
  set_attr h op val = do
    (rc, _) ← call_out (session_attr h op (word val)) (V.session_attr h op (word val))
    _ ← check rc
    pure tt

  unfoldable pub set_nodelay : SessionHandle → M (Unit {0})
  unfolding set_attr
  set_nodelay h = set_attr h attr_set_tcp_nodelay 1

  -- `O_NONBLOCK` is `0o4000` on Linux.
  unfoldable pub set_nonblocking : SessionHandle → M (Unit {0})
  unfolding set_attr
  set_nonblocking h = set_attr h attr_set_flags 0o4000

  -- `ep` before the call: `Default`, over a zeroed buffer.
  abbrev pub default_endpoint : Endpoint
  default_endpoint = record { is_ip4 = 1; ip = zeroed; port = 0 }

  abbrev pub attr_addr : Attr → SocketAddr
  attr_addr (word val) = addr_from_endpoint default_endpoint
  attr_addr (endpoint ep) = addr_from_endpoint ep

  unfoldable pub get_addr : SessionHandle → ℕ → M SocketAddr
  get_addr h op = do
    let before = endpoint default_endpoint
    (rc, out) ← call_out (session_attr h op before) (V.session_attr h op before)
    _ ← check rc
    pure (attr_addr out)

  unfoldable pub local_addr : SessionHandle → M SocketAddr
  unfolding get_addr
  local_addr h = get_addr h attr_get_lcl_addr

  unfoldable pub peer_addr : SessionHandle → M SocketAddr
  unfolding get_addr
  peer_addr h = get_addr h attr_get_peer_addr
