-- ===== src/Verify.antt =====
-- src/dgram.rs, `verify_bind_or_err`: drain the message queue for 200 ms, then ask for the local
-- address. The drain takes fuel, one unit an `epoll_wait`.
pub mod Ownership
pub mod Returns
use vcl_rs.Base.{ℕ, zero, suc, ◌+◌, some, ℤ, pos, negsuc, ltb, ◌==◌}
use vcl_rs.Net.{SocketAddr}
use vcl_rs.Error.{api, epoll_create_failed, epoll_ctl_add_failed, bind_rejected, port_mismatch}
use vcl_rs.Ffi.{
  Vcl, EpollEvent, epoll_ctl_add, epoll_in, epoll_out, epoll_hup, epoll_rdhup, epoll_et, millis,
}
use vcl_rs.Machine.{
  M, Result, ok, err, pure, fail, out_of_fuel, ◌>>=◌, ◌>>◌, when◌then◌else◌, attempt, call,
  call_out, host, epoll_create, epoll_ctl, epoll_wait, session_close,
}
use vcl_rs.Session.{SessionHandle, drop_handle, local_addr}

module _ ⦃V : Vcl⦄ where
  unfoldable pub drain_until : ℕ → ℕ → ℕ → M (Unit {0})
  drain_until zero vep deadline = out_of_fuel
  drain_until (suc k) vep deadline = do
    now ← host V.now
    when ltb now deadline
        then (do
          _ ← call_out (epoll_wait vep 8 30) (V.epoll_wait vep 8 30)
          drain_until k vep deadline)
        else pure tt

  -- The result of `local_addr`. On an error `session_handle` goes out of scope, and its drop closes
  -- the session; else `forget` takes it.
  unfoldable pub confirm : SessionHandle → SocketAddr → Result SocketAddr → M (Unit {0})
  confirm session requested (err e) = do
    drop_handle session
    fail (api (bind_rejected requested e) (negsuc 0))
  confirm session requested (ok actual) =
      when actual.port == requested.port
      then pure tt
      else fail (api (port_mismatch actual requested) (negsuc 0))

  abbrev pub watched : SessionHandle → EpollEvent
  watched session = record {
    events = epoll_in + epoll_out + epoll_hup + epoll_rdhup + epoll_et;
    user = session;
  }

  -- From the code of `vppcom_epoll_ctl` on.
  unfoldable pub verify_watched : ℕ → ℕ → SessionHandle → SocketAddr → ℤ → M (Unit {0})
  unfolding confirm drain_until
  verify_watched k vep session requested (negsuc n) = do
    _ ← call (session_close vep) (V.session_close vep)
    fail (api (epoll_ctl_add_failed (negsuc n)) (negsuc n))
  verify_watched k vep session requested (pos n) = do
    start ← host V.now
    drain_until k vep (start + millis 200)
    _ ← call (session_close vep) (V.session_close vep)
    actual ← attempt (local_addr session)
    confirm session requested actual

  -- From the code of `vppcom_epoll_create` on.
  unfoldable pub verify_in : ℕ → SessionHandle → SocketAddr → ℤ → M (Unit {0})
  unfolding verify_watched
  verify_in k session requested (negsuc n) = fail (api (epoll_create_failed (negsuc n)) (negsuc n))
  verify_in k session requested (pos vep) = do
    let ev = some (watched session)
    rv ← call (epoll_ctl vep epoll_ctl_add session ev) (V.epoll_ctl vep epoll_ctl_add session ev)
    verify_watched k vep session requested rv

  unfoldable pub verify_bind_or_err : ℕ → SessionHandle → SocketAddr → M (Unit {0})
  unfolding verify_in
  verify_bind_or_err k session requested = do
    vep ← call epoll_create V.epoll_create
    verify_in k session requested vep
