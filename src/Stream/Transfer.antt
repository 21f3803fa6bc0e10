-- ===== src/Stream/Transfer.antt =====
-- `write_all` and `read_exact` of src/stream.rs move bytes in order.
use vcl_rs.Base.{
  ℕ, zero, suc, ◌+◌, ◌-◌, ◌≡◌, sym, ap, ◌∙◌, List, ◌++◌, length, ltb→le, take_all, length-write,
}
use vcl_rs.Ffi.{Vcl}
use vcl_rs.Machine.{ok, err}
use vcl_rs.Machine.Hoare.{
  Hoare, Hoare-bind, Hoare-match, Hoare-cases, Hoare-pure, Hoare-fail, Hoare-out_of_fuel,
  Hoare-when, Hoare-mono, Anything,
}
use vcl_rs.Tcp.{write_at}
use vcl_rs.Tcp.Connection.{Pipe, Still, Connection}
use vcl_rs.Tcp.Moves.{On, Holds, Keeps-of_Still}
use vcl_rs.Tcp.Sending.{Partly, write-Partly}
use vcl_rs.Tcp.Receiving.{Filled, Full, Filled-of_Still, read-Filled}
use vcl_rs.Reactor.Keeps.{wait_readable-Within, wait_writable-Within}
use vcl_rs.Reactor.{wait_readable, wait_writable}
use vcl_rs.Stream.{VclStream, read, read_from, write_from}
use vcl_rs.Stream.Quiet.{Quiet, Quiet-WaitKeeps}

module _ ⦃V : Vcl⦄ (p : Pipe) (st : VclStream) (C : Connection st.handle p) (Q : Quiet p) where
  module _ (P : V.World → Type 0) (still : (w v : V.World) → P w → Still p w v → P v) where
    readable-On :
        (k limit : ℕ)
        → Hoare (On P) (wait_readable k st.reactor st.handle limit) (λ _. On P) Anything (Unit {0})
    readable-On k limit =
        Hoare-mono _ _ (λ a t q. q) (λ e t q. tt)
          (wait_readable-Within (λ w ws. P w) (Quiet-WaitKeeps p Q P still) k st.reactor st.handle
            limit)

    writable-On :
        (k limit : ℕ)
        → Hoare (On P) (wait_writable k st.reactor st.handle limit) (λ _. On P) Anything (Unit {0})
    writable-On k limit =
        Hoare-mono _ _ (λ a t q. q) (λ e t q. tt)
          (wait_writable-Within (λ w ws. P w) (Quiet-WaitKeeps p Q P still) k st.reactor st.handle
            limit)

  pub write_from-Sends :
      (k at : ℕ) (out inc buf : List ℕ)
      → Hoare
          (On (Partly p out inc buf at))
          (write_from k st at buf)
          (λ _. On (Holds p (out ++ buf) inc))
          Anything
          (Unit {0})
  unfolding write_from
  write_from-Sends zero at out inc buf = Hoare-out_of_fuel (λ s q. tt)
  write_from-Sends (suc k) at out inc buf =
      Hoare-when _
        (λ more.
          Hoare-match _ _ _ _ _ _ (write-Partly p C out inc buf at)
            (λ n. write_from-Sends k (at + n) out inc buf)
            (λ e.
              Hoare-when _
                (λ again.
                  Hoare-bind _ _ _ _ (writable-On _ (Keeps-of_Still p _ _ inc) k _)
                    (λ _. write_from-Sends k at out inc buf))
                (λ bad. Hoare-fail _ (λ s q. tt))))
        (λ done. Hoare-pure _ (λ s (le, (o, i)).
          (o ∙ ap (λ xs. out ++ xs) (take_all at buf (ltb→le at (length buf) done)), i)))

  read-Filled_more :
      (k got : ℕ) (out inc buf : List ℕ)
      → Hoare
          (On (Filled p out inc got buf))
          (read k st (length buf - got))
          (λ r. On (Filled p out inc (got + r.0) (write_at got buf r.1)))
          Anything
          (Unit {0})
  unfolding read
  read-Filled_more zero got out inc buf = Hoare-out_of_fuel (λ s q. tt)
  read-Filled_more (suc k) got out inc buf =
      Hoare-cases _ _ _ (read-Filled p C out inc buf got) (elim [
        | ok (zero, bytes) ↦ Hoare-fail _ (λ s q. tt)
        | ok (suc n, bytes) ↦ Hoare-pure _ (λ s q. q)
        | err e ↦
            Hoare-when _
              (λ again.
                Hoare-bind _ _ _ _ (readable-On _ (Filled-of_Still p out inc buf got) k _)
                  (λ _. read-Filled_more k got out inc buf))
              (λ bad. Hoare-fail _ (λ s q. tt))
      ])

  pub read_from-Full :
      (k got : ℕ) (out inc buf : List ℕ) (size : ℕ)
      → length buf ≡ size
      → Hoare
          (On (Filled p out inc got buf))
          (read_from k st got buf)
          (λ buf'. On (Full p out inc size buf'))
          Anything
          (Unit {0})
  unfolding read_from
  read_from-Full zero got out inc buf size len = Hoare-out_of_fuel (λ s q. tt)
  read_from-Full (suc k) got out inc buf size len =
      Hoare-when _
        (λ more.
          Hoare-bind _ _ _ _ (read-Filled_more k got out inc buf)
            (λ r. read_from-Full k _ out inc _ size (length-write got buf r.1 ∙ len)))
        (λ done. Hoare-pure _ (λ s (le, o, i). (
          len,
          o,
          ap (λ xs. xs ++ p.incoming s.world)
                (sym (take_all got buf (ltb→le got (length buf) done)))
              ∙ i,
        )))
