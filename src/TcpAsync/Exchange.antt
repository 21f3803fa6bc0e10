-- ===== src/TcpAsync/Exchange.antt =====
-- What `query_tcp_dns_async` does with its stream: the framed query is sent, the framed answer read.
use vcl_rs.Base.{ℕ, ◌≡◌, refl, sym, subst, ◌∙◌, List, ◌++◌, append_nil, arith}
use vcl_rs.Ffi.{Vcl}
use vcl_rs.Machine.{State, ok, returned}
use vcl_rs.Machine.Hoare.{After, Hoare, Hoare-bind, Hoare-weaken, Hoare-result, Anything}
use vcl_rs.Udp.{buffer}
use vcl_rs.Tcp.Connection.{Pipe, Connection}
use vcl_rs.Tcp.Moves.{On, Holds}
use vcl_rs.Tcp.Exchange.{length-buffer, Exchanged, body-Exchanged}
use vcl_rs.Stream.{VclStream, read_exact, write_all}
use vcl_rs.Stream.Quiet.{Quiet}
use vcl_rs.Stream.Transfer.{write_from-Sends, read_from-Full}
use vcl_rs.TcpAsync.{converse}

module _ ⦃V : Vcl⦄ (p : Pipe) (st : VclStream) (C : Connection st.handle p) (Q : Quiet p) where
  converse-Exchanged :
      (k : ℕ) (query out inc : List ℕ)
      → Hoare
          (On (Holds p out inc))
          (converse k st query)
          (λ body. On (Exchanged p out inc query body))
          Anything
          (Unit {0})
  unfolding converse write_all read_exact
  converse-Exchanged k query out inc =
      Hoare-result _ _
        (λ framed is_framed.
          Hoare-bind _ _ _ _
            (Hoare-weaken _ (λ s (o, i). (omega arith, (o ∙ sym (append_nil out), i)))
              (write_from-Sends p st C Q k 0 out inc framed))
            λ _.
              Hoare-bind _ _ _ _
                (Hoare-weaken _ (λ s (o, i). (omega arith, o, i))
                  (read_from-Full p st C Q k 0 (out ++ framed) inc (buffer 2) 2 (length-buffer 2)))
                (λ prefix.
                  body-Exchanged p _ query out framed inc prefix is_framed
                    (λ len. read_from-Full p st C Q k 0 _ _ (buffer len) len (length-buffer len))))
        (λ e s bad q. tt)

  -- If `query_tcp_dns_async` gets a body over its stream, then exactly the framed query has been
  -- sent on it, and the body is what follows a two-byte prefix in the bytes that arrived, as long as
  -- that prefix says; no byte behind it has been taken, however often the reads and writes had to
  -- wait. The session is assumed to keep order, and to move no byte but by its own reads and writes.
  pub converse-framed :
      (k : ℕ) (query : List ℕ) (s : State) (body : List ℕ) (t : State)
      → converse k st query s ≡ (returned (ok body), t)
      → Exchanged p (p.sent s.world) (p.incoming s.world) query body t.world
  converse-framed k query s body t e =
      subst
        (λ r.
          After (λ b. On (Exchanged p (p.sent s.world) (p.incoming s.world) query b)) Anything
            (Unit {0}) r.0 r.1)
        e ((converse-Exchanged k query (p.sent s.world) (p.incoming s.world)).at s (refl, refl))
