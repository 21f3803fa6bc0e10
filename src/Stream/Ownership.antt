-- ===== src/Stream/Ownership.antt =====
-- What `VclStream` holds: its session, from a connect or an accept to its drop.
use vcl_rs.Base.{
  ℕ, zero, suc, ◌+◌, ◌≡◌, refl, true, false, Bool, Option, none, some, List, [], ◌∷◌, ℤ, pos,
  negsuc,
}
use vcl_rs.Net.{SocketAddr}
use vcl_rs.Ffi.{Vcl}
use vcl_rs.Machine.{M, ok, err, ◌>>=◌}
use vcl_rs.Machine.Balance.{
  Balanced, Triple, Triple-bind, Balanced-bind, Balanced-host, Balanced-when, balanced_rules,
}
use vcl_rs.Machine.Steady.{Steady, Steady-call, Steady-bind, Steady-attempt, Steady-pure}
use vcl_rs.Session.{drop_handle}
use vcl_rs.Machine.Scopes.{
  Drops, Triple-on_err, Triple-on_err_of, Triple-on_thread, Triple-pure, Triple-fail, Triple-close,
}
use vcl_rs.Session.Balance.{
  session_rules, bind-Balanced, set_nodelay-Balanced, create_tcp-Triple, drop_handle-Drops,
}
use vcl_rs.App.Balance.{register_worker_thread-Balanced}
use vcl_rs.Reactor.{VclReactor, deregister}
use vcl_rs.Reactor.Balance.{deregister-Steady, reactor_rules}
use vcl_rs.Tcp.{write_at}
use vcl_rs.Tcp.Ownership.{start_connect-Balanced}
use vcl_rs.Stream.{
  VclStream, ignore, bind_source, blocking_connected, connect_blocking, joined, spawn_blocking,
  connect_setup, connect_rest, async_setup, connect_async, accepted_setup, from_accepted, read,
  read_from, read_exact, write_from, write_all, drop_stream,
}
use vcl_rs.Base.{◌≡◌, [], ◌∷◌, true, some}
use vcl_rs.Machine.{State}
use vcl_rs.Machine.Ledger.{ledger}
use vcl_rs.Machine.Balance.{Leaves}

module _ ⦃V : Vcl⦄ where
  ignore-Steady : {A : Type 0} (m : M A) → Balanced m → Steady (ignore m)
  unfolding ignore
  ignore-Steady m km = Steady-bind _ _ (Steady-attempt m km) λ _. Steady-pure tt

  ignore-Balanced : {A : Type 0} (m : M A) → Balanced m → Balanced (ignore m)
  unfolding ignore
  ignore-Balanced m km = search balanced_rules

  bind_source-Balanced : (h : ℕ) (source : Option SocketAddr) → Balanced (bind_source h source)
  unfolding bind_source
  bind_source-Balanced h none = search balanced_rules
  bind_source-Balanced h (some src) = bind-Balanced h src

  async_setup-Balanced :
      (k h : ℕ) (addr : SocketAddr) (source : Option SocketAddr) (r : VclReactor) (limit : ℕ)
      → Balanced (async_setup k h addr source r limit)
  unfolding async_setup
  async_setup-Balanced k h addr source r limit =
      search (reactor_rules, ignore-Balanced, bind_source-Balanced, start_connect-Balanced) depth 9

  -- `connect_async` hands over a stream that holds the one handle that is new, or holds nothing new
  -- and fails.
  pub connect_async-Triple :
      (pre : List ℕ) (k : ℕ) (addr : SocketAddr) (source : Option SocketAddr) (r : VclReactor)
      (limit : ℕ)
      → Triple pre (connect_async k addr source r limit) (λ st. st.handle ∷ pre) pre
  unfolding connect_async
  connect_async-Triple pre k addr source r limit =
      Triple-bind (register_worker_thread-Balanced.keeps pre) λ _.
        Triple-bind (create_tcp-Triple pre true) λ h.
          Triple-bind
            (Triple-on_err h _ (drop_handle-Drops h) pre
              (async_setup-Balanced k h addr source r limit))
            λ _. Triple-pure _ (λ (st : VclStream). st.handle ∷ pre) pre

  accepted_setup-Balanced : (h : ℕ) → Balanced (accepted_setup h)
  unfolding accepted_setup
  accepted_setup-Balanced h = search (session_rules, ignore-Balanced)

  -- `from_accepted` moves the handle that it is given into the stream, or closes it.
  pub from_accepted-Triple :
      (pre : List ℕ) (h : ℕ) (r : VclReactor)
      → Triple (h ∷ pre) (from_accepted h r) (λ st. st.handle ∷ pre) pre
  unfolding from_accepted
  from_accepted-Triple pre h r =
      Triple-bind (Triple-on_err h _ (drop_handle-Drops h) pre (accepted_setup-Balanced h))
        λ _. Triple-pure _ (λ (st : VclStream). st.handle ∷ pre) pre

  -- The drop of a stream gives up its handle, and nothing else.
  pub drop_stream-Drops : (st : VclStream) → Drops st.handle (drop_stream st)
  unfolding drop_stream deregister drop_handle ◌>>=◌
  drop_stream-Drops st = record {
    closes = λ pre bad.
        Triple-bind ((deregister-Steady st.reactor st.handle).stays (st.handle ∷ pre) bad)
          λ _. (drop_handle-Drops st.handle).closes pre bad;
    returns = λ s. refl;
  }

  read-Balanced : (k : ℕ) (st : VclStream) (size : ℕ) → Balanced (read k st size)
  unfolding read
  read-Balanced zero st size = search balanced_rules
  read-Balanced (suc k) st size =
      let again = read-Balanced k st size in
      Balanced-bind _ _ (search session_rules) (elim [
        | ok (zero, bytes) ↦ search balanced_rules
        | ok (suc n, bytes) ↦ search balanced_rules
        | err e ↦ search reactor_rules
      ])

  read_from-Balanced :
      (k : ℕ) (st : VclStream) (at : ℕ) (buf : List ℕ) → Balanced (read_from k st at buf)
  unfolding read_from
  read_from-Balanced zero st at buf = search balanced_rules
  read_from-Balanced (suc k) st at buf =
      Balanced-when _ _ _
        (Balanced-bind _ _ (read-Balanced k st _)
          λ got. read_from-Balanced k st (at + got.0) (write_at at buf got.1))
        (search balanced_rules)

  pub read_exact-Balanced : (k : ℕ) (st : VclStream) (buf : List ℕ) → Balanced (read_exact k st buf)
  unfolding read_exact
  read_exact-Balanced k st buf = read_from-Balanced k st 0 buf

  write_from-Balanced :
      (k : ℕ) (st : VclStream) (at : ℕ) (buf : List ℕ) → Balanced (write_from k st at buf)
  unfolding write_from
  write_from-Balanced zero st at buf = search balanced_rules
  write_from-Balanced (suc k) st at buf =
      let here = write_from-Balanced k st at buf in
      Balanced-when _ _ _
        (Balanced-bind _ _ (search session_rules)
          (elim [ ok n ↦ write_from-Balanced k st (at + n) buf | err e ↦ search reactor_rules ]))
        (search balanced_rules)

  pub write_all-Balanced : (k : ℕ) (st : VclStream) (buf : List ℕ) → Balanced (write_all k st buf)
  unfolding write_all
  write_all-Balanced k st buf = write_from-Balanced k st 0 buf

  blocking_connected-Triple :
      (pre : List ℕ) (sh : ℕ) (rc : ℤ)
      → Triple (sh ∷ pre) (blocking_connected sh rc) (λ c. c ∷ pre) pre
  unfolding blocking_connected
  blocking_connected-Triple pre sh (pos n) = Triple-pure sh (λ c. c ∷ pre) pre
  blocking_connected-Triple pre sh (negsuc n) =
      Triple-bind (Triple-close sh pre pre) λ _. Triple-fail _ (λ c. c ∷ pre) pre

  connect_blocking-Triple :
      (pre : List ℕ) (addr : SocketAddr) → Triple pre (connect_blocking addr) (λ c. c ∷ pre) pre
  unfolding connect_blocking
  connect_blocking-Triple pre addr = Triple-bind (register_worker_thread-Balanced.keeps pre) λ _.
      Triple-bind (create_tcp-Triple pre false) λ sh.
        Triple-bind ((Steady-call _ _ refl).stays (sh ∷ pre) pre)
          λ crc. blocking_connected-Triple pre sh crc

  joined-Triple :
      {A : Type 0} {m : M A} {pre : List ℕ} {post : A → List ℕ} (thread : Option Bool)
      → Triple pre m post pre
      → Triple pre (joined m thread) post pre
  unfolding joined
  joined-Triple {pre} {post} none km = Triple-fail _ post pre
  joined-Triple (some registered) km = Triple-on_thread registered km

  connect_setup-Triple :
      (pre : List ℕ) (h : ℕ) (addr : SocketAddr) (source : Option SocketAddr)
      → Triple pre (connect_setup h addr source) (λ c. c ∷ pre) pre
  unfolding connect_setup spawn_blocking
  connect_setup-Triple pre h addr source =
      Triple-bind ((ignore-Balanced _ (set_nodelay-Balanced h)).keeps pre) λ _.
        Triple-bind ((bind_source-Balanced h source).keeps pre) λ _.
          Triple-bind ((Balanced-host _).keeps pre)
            λ thread. joined-Triple thread (connect_blocking-Triple pre addr)

  -- What `connect` does with the session that it creates first.
  pub connect_rest-Triple :
      (pre : List ℕ) (h : ℕ) (addr : SocketAddr) (source : Option SocketAddr) (r : VclReactor)
      → Triple (h ∷ pre) (connect_rest h addr source r) (λ st. st.handle ∷ h ∷ pre) pre
  unfolding connect_rest
  connect_rest-Triple pre h addr source r =
      Triple-bind
        (Triple-on_err_of h _ (drop_handle-Drops h) (λ c. c ∷ h ∷ pre) pre
          (connect_setup-Triple (h ∷ pre) h addr source))
        λ c.
          Triple-bind ((ignore-Steady _ (set_nodelay-Balanced c)).stays (c ∷ h ∷ pre) pre)
            λ _. Triple-pure _ (λ (st : VclStream). st.handle ∷ h ∷ pre) pre

  -- `connect_async` leaves one more open session, the stream's, if it returns a stream, and none if
  -- it returns an error.
  pub connect_async-owns :
      (k : ℕ) (addr : SocketAddr) (source : Option SocketAddr) (r : VclReactor) (limit : ℕ)
      (held : List ℕ) (s : State)
      → ledger s.trace ≡ some held
      → Leaves
          (λ st. st.handle ∷ [])
          []
          (some held)
          (connect_async k addr source r limit s).0
          (connect_async k addr source r limit s).1
  connect_async-owns k addr source r limit held s e =
      (connect_async-Triple [] k addr source r limit).at (some held) s e

  -- With its first session `h` open, the rest of `connect` closes `h` if it returns an error; but if
  -- it returns a stream, `h` is still open beside the session of the stream.
  pub connect_rest-leaks :
      (h : ℕ) (addr : SocketAddr) (source : Option SocketAddr) (r : VclReactor) (held : List ℕ)
      (s : State)
      → ledger s.trace ≡ some (h ∷ held)
      → Leaves
          (λ st. st.handle ∷ h ∷ [])
          []
          (some held)
          (connect_rest h addr source r s).0
          (connect_rest h addr source r s).1
  connect_rest-leaks h addr source r held s e =
      (connect_rest-Triple [] h addr source r).at (some held) s e

  -- `from_accepted` owns the handle that it is given: it is the stream's if it returns a stream, and
  -- is closed if it returns an error.
  pub from_accepted-owns :
      (h : ℕ) (r : VclReactor) (held : List ℕ) (s : State)
      → ledger s.trace ≡ some (h ∷ held)
      → Leaves (λ st. st.handle ∷ []) [] (some held) (from_accepted h r s).0 (from_accepted h r s).1
  from_accepted-owns h r held s e = (from_accepted-Triple [] h r).at (some held) s e
