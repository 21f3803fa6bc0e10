-- ===== src/Tcp/Exchange.antt =====
-- The synchronous TCP exchange sends the framed query and returns the framed answer.
use vcl_rs.Base.{
  ℕ, ◌≡◌, refl, sym, ap, subst, ◌∙◌, List, [], ◌∷◌, ◌++◌, length, drop, append_nil, arith,
  length-replicate,
}
use vcl_rs.Net.{SocketAddr}
use vcl_rs.Ffi.{Vcl}
use vcl_rs.Machine.{M, State, ok, returned, of_result, ◌>>=◌}
use vcl_rs.Machine.Hoare.{
  After, Hoare, Hoare-bind, Hoare-weaken, Hoare-result, Hoare-fact, Hoare-mono, Anything,
}
use vcl_rs.Framing.{frame_tcp_dns_query, decode_tcp_dns_len}
use vcl_rs.Udp.{buffer}
use vcl_rs.Tcp.{decode_prefix, exchange}
use vcl_rs.Tcp.Connection.{Pipe, Connection}
use vcl_rs.Tcp.Moves.{On, Holds, Holds-of_Still, now-keeps, start_connect-keeps}
use vcl_rs.Tcp.Sending.{write_loop-Sends}
use vcl_rs.Tcp.Receiving.{Filled, Full, fill_loop-Full}

pub length-buffer : (n : ℕ) → length (buffer n) ≡ n
unfolding buffer
length-buffer n = length-replicate n 0

module _ ⦃V : Vcl⦄ (p : Pipe) where
  -- The whole exchange: the frame is sent, and the answer is the body that follows its prefix.
  abbrev pub Exchanged : List ℕ → List ℕ → List ℕ → List ℕ → V.World → Type 0
  Exchanged out inc query body w =
      (framed : List ℕ) × (hi : ℕ) × (lo : ℕ) × (frame_tcp_dns_query query ≡ ok framed)
      × (decode_tcp_dns_len hi lo ≡ ok (length body))
      × (p.sent w ≡ out ++ framed)
      × (hi ∷ lo ∷ (body ++ p.incoming w) ≡ inc)

module _ ⦃V : Vcl⦄ (p : Pipe) where
  -- From a decoded prefix on, where `fill` reads a body.
  pub body-Exchanged :
      (fill : ℕ → M (List ℕ)) (query out framed inc prefix : List ℕ)
      → frame_tcp_dns_query query ≡ ok framed
      → ((len : ℕ)
          → Hoare
              (On (Filled p (out ++ framed) (drop 2 inc) 0 (buffer len)))
              (fill len)
              (λ body. On (Full p (out ++ framed) (drop 2 inc) len body))
              Anything
              (Unit {0}))
      → Hoare
          (On (Full p (out ++ framed) inc 2 prefix))
          (of_result (decode_prefix prefix) >>= fill)
          (λ body. On (Exchanged p out inc query body))
          Anything
          (Unit {0})
  body-Exchanged fill query out framed inc [] e fills = record {
    at = λ s (len, o, i). ground arith;
  }
  body-Exchanged fill query out framed inc (hi ∷ []) e fills = record {
    at = λ s (len, o, i). ground arith;
  }
  body-Exchanged fill query out framed inc (hi ∷ lo ∷ x ∷ xs) e fills = record {
    at = λ s (len, o, i). ground arith;
  }
  body-Exchanged fill query out framed inc (hi ∷ lo ∷ []) e fills =
      Hoare-result _ _
        (λ len decoded.
          Hoare-weaken _
            (λ s (_, o, i).
              (ap (λ xs. hi ∷ lo ∷ drop 2 xs) (sym i) ∙ i, (omega arith, o, ap (drop 2) i)))
            (Hoare-fact (λ split.
              Hoare-mono _ Anything
                (λ body t (size, o, i). (
                  framed,
                  hi,
                  lo,
                  e,
                  decoded ∙ ap ok (sym size),
                  o,
                  ap (λ xs. hi ∷ lo ∷ xs) i ∙ split,
                ))
                (λ e t q. tt) (fills len))))
        (λ e s bad q. tt)

module _ ⦃V : Vcl⦄ {h : ℕ} (p : Pipe) (C : Connection h p) where
  exchange-Exchanged :
      (k vep limit : ℕ) (peer : SocketAddr) (query out inc : List ℕ)
      → Hoare
          (On (Holds p out inc))
          (exchange k h vep peer query limit)
          (λ body. On (Exchanged p out inc query body))
          Anything
          (Unit {0})
  unfolding exchange
  exchange-Exchanged k vep limit peer query out inc =
      Hoare-bind _ _ _ _ (start_connect-keeps p C _ (Holds-of_Still p out inc) peer) λ _.
        Hoare-bind _ _ _ _ (now-keeps p C _ (Holds-of_Still p out inc)) λ start.
          Hoare-result _ _
            (λ framed is_framed.
              Hoare-bind _ _ _ _
                (Hoare-weaken _ (λ s (o, i). (omega arith, (o ∙ sym (append_nil out), i)))
                  (write_loop-Sends p C k vep _ 0 out inc framed))
                λ _.
                  Hoare-bind _ _ _ _
                    (Hoare-weaken _ (λ s (o, i). (omega arith, o, i))
                      (fill_loop-Full p C k vep _ 0 (out ++ framed) inc (buffer 2) 2
                        (length-buffer 2)))
                    (λ prefix. body-Exchanged p _ query out framed inc prefix is_framed (λ len.
                      fill_loop-Full p C k vep _ 0 _ _ (buffer len) len (length-buffer len))))
            (λ e s bad q. tt)

  -- If the exchange of `query_tcp_dns_sync` returns a body, then exactly the framed query has been
  -- sent on its session, and the body is what follows a two-byte prefix in the bytes that arrived,
  -- as long as that prefix says; no byte behind it has been taken. The session is assumed to keep
  -- order, and to move no byte but by its own reads and writes.
  pub exchange-framed :
      (k vep limit : ℕ) (peer : SocketAddr) (query : List ℕ) (s : State) (body : List ℕ) (t : State)
      → exchange k h vep peer query limit s ≡ (returned (ok body), t)
      → Exchanged p (p.sent s.world) (p.incoming s.world) query body t.world
  exchange-framed k vep limit peer query s body t e =
      subst
        (λ r.
          After (λ b. On (Exchanged p (p.sent s.world) (p.incoming s.world) query b)) Anything
            (Unit {0}) r.0 r.1)
        e
        ((exchange-Exchanged k vep limit peer query (p.sent s.world) (p.incoming s.world)).at s
          (refl, refl))
