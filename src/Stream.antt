-- ===== src/Stream.antt =====
-- src/stream.rs, `VclStream`; its traits of tokio are in Poll. The loops and waits take fuel, one
-- unit a round.
pub mod Ownership
pub mod Faults
pub mod Early
pub mod Quiet
pub mod Transfer
pub mod Laws
use vcl_rs.Base.{
  ℕ, zero, suc, ◌+◌, ◌-◌, Bool, true, false, Option, none, some, List, length, drop, ℤ, pos, negsuc,
  ltb,
}
use vcl_rs.Net.{SocketAddr}
use vcl_rs.Error.{VclError, api, closed, would_block, from_rc, connect_join}
use vcl_rs.Ffi.{Vcl, proto_tcp, secs}
use vcl_rs.Endpoint.{endpoint_into_buf, zeroed}
use vcl_rs.Machine.{
  M, Result, ok, err, pure, fail, out_of_fuel, ◌>>=◌, ◌>>◌, when◌then◌else◌, attempt, finally,
  on_err, call, host, on_thread, session_create, session_connect, session_close,
}
use vcl_rs.Session.{
  SessionHandle, create_tcp, drop_handle, bind, connect, set_nodelay, set_nonblocking, local_addr,
  peer_addr,
}
use vcl_rs.Session
use vcl_rs.App.{register_worker_thread}
use vcl_rs.Reactor.{VclReactor, register, deregister, wait_readable, wait_writable}
use vcl_rs.Dgram.{to_option}
use vcl_rs.Tcp.{is_transient, write_at, start_connect}

-- The two pending waits are in `PollStream` of Poll.
pub record VclStream : Type 0 where
  pub handle : SessionHandle
  pub reactor : VclReactor

module _ ⦃V : Vcl⦄ where
  -- `.ok();`
  unfoldable pub ignore : {A : Type 0} → M A → M (Unit {0})
  ignore m = do _ ← attempt m; pure tt

  unfoldable pub bind_source : SessionHandle → Option SocketAddr → M (Unit {0})
  bind_source h none = pure tt
  bind_source h (some src) = bind h src

  -- The code of `vppcom_session_connect` in the blocking task.
  unfoldable pub blocking_connected : ℕ → ℤ → M ℕ
  blocking_connected sh (pos n) = pure sh
  blocking_connected sh (negsuc n) = do
    _ ← call (session_close sh) (V.session_close sh)
    fail (from_rc V.retval_str (negsuc n))

  -- The closure that `connect` runs on a thread of the blocking pool. Its session is blocking; the
  -- creation is the call and the test that `create_tcp` makes.
  unfoldable pub connect_blocking : SocketAddr → M ℕ
  unfolding blocking_connected
  connect_blocking addr = do
    register_worker_thread
    sh ← create_tcp false
    let ep = endpoint_into_buf addr zeroed
    crc ← call (session_connect sh ep) (V.session_connect sh ep)
    blocking_connected sh crc

  unfoldable pub joined : {A : Type 0} → M A → Option Bool → M A
  joined m none = fail (api connect_join (negsuc 0))
  joined m (some registered) = on_thread registered m

  -- `spawn_blocking(..).await`, with the error of a join that fails.
  unfoldable pub spawn_blocking : {A : Type 0} → M A → M A
  unfolding joined
  spawn_blocking m = do thread ← host V.pool_thread; joined m thread

  -- What `connect` does while it owns the first session.
  unfoldable pub connect_setup : SessionHandle → SocketAddr → Option SocketAddr → M ℕ
  connect_setup h addr source = do
    ignore (set_nodelay h)
    bind_source h source
    spawn_blocking (connect_blocking addr)

  -- `connect` from the creation of its first session on, which it forgets at the end.
  unfoldable pub connect_rest :
      SessionHandle → SocketAddr → Option SocketAddr → VclReactor → M VclStream
  unfolding connect_setup connect_blocking spawn_blocking bind_source
  connect_rest h addr source r = do
    connected ← on_err (connect_setup h addr source) (drop_handle h)
    ignore (set_nodelay connected)
    pure (record { handle = connected; reactor = r })

  -- `VclStream::connect`, which does not use its `timeout`.
  unfoldable pub connect_stream : SocketAddr → Option SocketAddr → VclReactor → M VclStream
  unfolding connect_rest
  connect_stream addr source r = do
    register_worker_thread
    h ← create_tcp true
    connect_rest h addr source r

  unfoldable pub async_setup :
      ℕ → SessionHandle → SocketAddr → Option SocketAddr → VclReactor → ℕ → M (Unit {0})
  async_setup k h addr source r limit = do
    ignore (set_nodelay h)
    bind_source h source
    register r h
    start_connect h addr
    wait_writable k r h limit

  unfoldable pub connect_async : ℕ → SocketAddr → Option SocketAddr → VclReactor → ℕ → M VclStream
  unfolding async_setup
  connect_async k addr source r limit = do
    register_worker_thread
    h ← create_tcp true
    on_err (async_setup k h addr source r limit) (drop_handle h)
    pure (record { handle = h; reactor = r })

  unfoldable pub accepted_setup : SessionHandle → M (Unit {0})
  accepted_setup h = do set_nonblocking h; ignore (set_nodelay h)

  -- `from_accepted`, which owns the handle.
  unfoldable pub from_accepted : SessionHandle → VclReactor → M VclStream
  unfolding accepted_setup
  from_accepted h r = do
    on_err (accepted_setup h) (drop_handle h)
    pure (record { handle = h; reactor = r })

  unfoldable pub read : ℕ → VclStream → ℕ → M (ℕ × List ℕ)
  read zero st size = out_of_fuel
  read (suc k) st size = do
    res ← attempt (Session.read st.handle size)
    elim res [
      | ok (zero, bytes) ↦ fail closed
      | ok (suc n, bytes) ↦ pure (suc n, bytes)
      | err e ↦
          when is_transient e
          then (do wait_readable k st.reactor st.handle (secs 300); read k st size)
          else fail e
    ]

  unfoldable pub read_from : ℕ → VclStream → ℕ → List ℕ → M (List ℕ)
  read_from zero st at buf = out_of_fuel
  read_from (suc k) st at buf =
      when ltb at (length buf)
      then (do
        got ← read k st (length buf - at)
        read_from k st (at + got.0) (write_at at buf got.1))
      else pure buf

  -- The buffer after the call.
  unfoldable pub read_exact : ℕ → VclStream → List ℕ → M (List ℕ)
  read_exact k st buf = read_from k st 0 buf

  unfoldable pub write_from : ℕ → VclStream → ℕ → List ℕ → M (Unit {0})
  write_from zero st at buf = out_of_fuel
  write_from (suc k) st at buf =
      when ltb at (length buf)
      then (do
        res ← attempt (Session.write st.handle (drop at buf))
        elim res [
          | ok n ↦ write_from k st (at + n) buf
          | err e ↦
              when is_transient e
              then (do wait_writable k st.reactor st.handle (secs 300); write_from k st at buf)
              else fail e
        ])
      else pure tt

  unfoldable pub write_all : ℕ → VclStream → List ℕ → M (Unit {0})
  write_all k st buf = write_from k st 0 buf

  -- `Drop for VclStream`, and then that of its handle.
  unfoldable pub drop_stream : VclStream → M (Unit {0})
  drop_stream st = do deregister st.reactor st.handle; drop_handle st.handle

  abbrev pub handle_id : VclStream → ℕ
  handle_id st = st.handle

  unfoldable pub stream_local_addr : VclStream → M (Option SocketAddr)
  stream_local_addr st = do res ← attempt (local_addr st.handle); pure (to_option res)

  unfoldable pub stream_peer_addr : VclStream → M (Option SocketAddr)
  stream_peer_addr st = do res ← attempt (peer_addr st.handle); pure (to_option res)
