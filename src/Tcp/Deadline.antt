-- ===== src/Tcp/Deadline.antt =====
-- The loops of `query_tcp_dns_sync` end: a round that succeeds moves bytes, and any other takes time.
use vcl_rs.Base.{
  ℕ, zero, suc, ◌+◌, ◌-◌, ◌≤◌, ◌<◌, ◌≡◌, refl, ◌∙◌, true, false, List, All, All-write, length,
  length-write, length-drop, drop, pos, negsuc, leb, leb→lt, ltb→lt, arith,
}
use vcl_rs.Ffi.{Vcl}
use vcl_rs.Machine.{State, M, ok, err, host, ◌>>◌}
use vcl_rs.Machine.Hoare.{
  Hoare, Hoare-bind, Hoare-cases, Hoare-pure, Hoare-fail, Hoare-when, Hoare-host, Hoare-call,
  Hoare-call_out, Hoare-mono, Hoare-fact, Anything,
}
use vcl_rs.Session.{check, read, write}
use vcl_rs.Session.Check.{check-either}
use vcl_rs.Tcp.{drain_mq, write_loop, fill_loop}
use vcl_rs.Tcp.Clock.{TcpClock}

module _ ⦃V : Vcl⦄ (C : TcpClock) where
  -- The clock has `n` nanoseconds to go to the deadline at most.
  abbrev pub Left : ℕ → ℕ → State → Type 0
  Left deadline n s = deadline ≤ C.clock s.world + n

  abbrev pub IsByte : ℕ → Type 0
  IsByte b = b < 256

  module _ (deadline : ℕ) where
    pub now-Left :
        (n : ℕ)
        → Hoare
            (Left deadline n)
            (host V.now)
            (λ now s. (deadline ≤ now + n) × Left deadline n s)
            Anything
            (false ≡ true)
    now-Left n = Hoare-host _ (λ s p.
        let (below, above) = C.now_reads s.world in
        (omega (arith, p, below), omega (arith, p, below, above)))

    drain_mq-Left :
        (vep n : ℕ)
        → Hoare
            (Left deadline (suc n))
            (drain_mq vep)
            (λ _. Left deadline n)
            Anything
            (false ≡ true)
    unfolding drain_mq
    drain_mq-Left vep n =
        Hoare-bind _ _ (λ _. Left deadline n) _
          (Hoare-call_out _ _ (λ s p. omega (arith, p, C.epoll_passes vep 4 5 s.world)))
          (λ _. Hoare-pure _ (λ s p. p))

    -- A round that drains the queue, before the deadline.
    again-Left :
        {A : Type 0} (vep n now : ℕ) (m : M A) (Q : A → State → Type 0)
        → leb deadline now ≡ false
        → deadline ≤ now + n
        → ((i : ℕ) → n ≡ suc i → Hoare (Left deadline i) m Q Anything (false ≡ true))
        → Hoare (Left deadline n) (drain_mq vep >> m) Q Anything (false ≡ true)
    again-Left vep zero now m Q early le k = record {
      at = λ s p. absurd (omega (arith, le, leb→lt deadline now early));
    }
    again-Left vep (suc i) now m Q early le k =
        Hoare-bind _ _ _ _ (drain_mq-Left vep i) (λ _. k i refl)

    -- What a write that is to send some bytes has counted.
    write-Left :
        (h n : ℕ) (buf : List ℕ)
        → 0 < length buf
        → Hoare
            (Left deadline n)
            (write h buf)
            (λ m s. (0 < m) × Left deadline n s)
            (λ _. Left deadline n)
            (false ≡ true)
    unfolding write check
    write-Left h n buf some_bytes =
        Hoare-bind _ _ (λ rc s. ((m : ℕ) → rc ≡ pos m → 0 < m) × Left deadline n s) _
          (Hoare-call _ _ (λ s p. (
            λ m e. C.writes_some h m buf s.world e some_bytes,
            omega (arith, p, C.write_forward h buf s.world),
          )))
          (elim [
            | pos m ↦ Hoare-pure _ (λ s (f, p). (f m refl, p))
            | negsuc m ↦ Hoare-fail _ (λ s (f, p). p)
          ])

    read-Left :
        (h n size : ℕ)
        → Hoare
            (Left deadline n)
            (read h size)
            (λ r s. All IsByte r.1 × Left deadline n s)
            (λ _. Left deadline n)
            (false ≡ true)
    unfolding read check
    read-Left h n size =
        Hoare-bind _ _ (λ r s. All IsByte r.1 × Left deadline n s) _
          (Hoare-call_out _ _ (λ s p.
            (C.reads_bytes h size s.world, omega (arith, p, C.read_forward h size s.world))))
          (λ (rc, bytes).
            Hoare-bind _ _ (λ _ s. All IsByte bytes × Left deadline n s) _
              (Hoare-mono _ _ (λ m t q. q) (λ e t q. q.1) (check-either _ _ rc))
              (λ m. Hoare-pure _ (λ s p. p)))

    pub write_loop-Left :
        (k h vep n at : ℕ) (framed : List ℕ)
        → (length framed - at) + n < k
        → Hoare
            (Left deadline n)
            (write_loop k h vep deadline at framed)
            (λ _. Left deadline n)
            Anything
            (false ≡ true)
    unfolding write_loop
    write_loop-Left zero h vep n at framed lt = ground arith
    write_loop-Left (suc k) h vep n at framed lt =
        Hoare-when _
          (λ more.
            Hoare-cases _ _ _
              (write-Left h n (drop at framed)
                (omega (arith, length-drop at framed, ltb→lt at (length framed) more)))
              (elim [
                | ok m ↦ Hoare-fact (λ some.
                    write_loop-Left k h vep n (at + m) framed
                      (omega (arith, lt, some, ltb→lt at (length framed) more)))
                | err e ↦
                    Hoare-when _
                      (λ again. Hoare-bind _ _ _ _ (now-Left n) (λ now.
                        Hoare-when _ (λ late. Hoare-fail _ (λ s q. tt))
                          (λ early. Hoare-fact (λ le. again-Left vep n now _ _ early le (λ i is.
                            Hoare-mono _ Anything (λ _ t q. omega (arith, q, is)) (λ e t q. tt)
                              (write_loop-Left k h vep i at framed (omega (arith, lt, is))))))))
                      (λ bad. Hoare-fail _ (λ s q. tt))
              ]))
          (λ done. Hoare-pure _ (λ s p. p))

    -- A buffer that is full of bytes.
    abbrev pub FullOfBytes : ℕ → ℕ → List ℕ → State → Type 0
    FullOfBytes n size buf s = ((length buf ≡ size) × All IsByte buf) × Left deadline n s

    pub fill_loop-Left :
        (k h vep n got size : ℕ) (buf : List ℕ)
        → length buf ≡ size
        → All IsByte buf
        → (size - got) + n < k
        → Hoare
            (Left deadline n)
            (fill_loop k h vep deadline got buf)
            (FullOfBytes n size)
            Anything
            (false ≡ true)
    unfolding fill_loop
    fill_loop-Left zero h vep n got size buf len all lt = ground arith
    fill_loop-Left (suc k) h vep n got size buf len all lt =
        Hoare-when _
          (λ more. Hoare-bind _ _ _ _ (now-Left n) (λ now.
            Hoare-when _ (λ late. Hoare-fail _ (λ s q. tt))
              (λ early. Hoare-fact (λ le. Hoare-cases _ _ _ (read-Left h n _) (elim [
                | ok (zero, bytes) ↦ Hoare-fail _ (λ s q. tt)
                | ok (suc m, bytes) ↦ Hoare-fact (λ bs.
                    fill_loop-Left k h vep n (got + suc m) size _ (length-write got buf bytes ∙ len)
                      (All-write IsByte got buf bytes all bs)
                      (omega (arith, lt, len, ltb→lt got (length buf) more)))
                | err e ↦
                    Hoare-when _
                      (λ again. again-Left vep n now _ _ early le (λ i is.
                        Hoare-mono _ Anything (λ _ t (q, l). (q, omega (arith, l, is)))
                          (λ e t q. tt)
                          (fill_loop-Left k h vep i got size buf len all (omega (arith, lt, is)))))
                      (λ bad. Hoare-fail _ (λ s q. tt))
              ])))))
          (λ done. Hoare-pure _ (λ s p. ((len, all), p)))
