-- ===== src/Tcp/Receiving.antt =====
-- The read loops fill their buffers with what arrives, in order.
use vcl_rs.Base.{
  ℕ, zero, suc, ◌+◌, ◌-◌, ◌≤◌, ◌≡◌, sym, ap, ◌∙◌, List, ◌++◌, length, take, ℤ, pos, negsuc, ltb→le,
  append_assoc, take_all, take-write, length-write, arith,
}
use vcl_rs.Ffi.{Vcl}
use vcl_rs.Machine.{ok, err}
use vcl_rs.Machine.Hoare.{
  Hoare, Hoare-bind, Hoare-cases, Hoare-pure, Hoare-fail, Hoare-out_of_fuel, Hoare-when,
  Hoare-call_out, Anything,
}
use vcl_rs.Session.{check, read}
use vcl_rs.Tcp.{write_at, fill_loop}
use vcl_rs.Tcp.Connection.{Pipe, Still, Got, Connection}
use vcl_rs.Tcp.Moves.{On, drain_mq-keeps, now-keeps}

module _ ⦃V : Vcl⦄ (p : Pipe) where
  -- The first `got` bytes of the buffer are those that have come of `inc`.
  abbrev pub Filled : List ℕ → List ℕ → ℕ → List ℕ → V.World → Type 0
  Filled out inc got buf w =
      (got ≤ length buf) × (p.sent w ≡ out) × (take got buf ++ p.incoming w ≡ inc)

  -- `Filled` whose buffer is complete.
  abbrev pub Full : List ℕ → List ℕ → ℕ → List ℕ → V.World → Type 0
  Full out inc size buf w = (length buf ≡ size) × (p.sent w ≡ out) × (buf ++ p.incoming w ≡ inc)

  pub Filled-of_Still :
      (out inc buf : List ℕ) (got : ℕ) (w v : V.World)
      → Filled out inc got buf w
      → Still p w v
      → Filled out inc got buf v
  Filled-of_Still out inc buf got w v (le, o, i) (a, b) =
      (le, a ∙ o, ap (λ xs. take got buf ++ xs) b ∙ i)

module _ ⦃V : Vcl⦄ {h : ℕ} (p : Pipe) (C : Connection h p) where
  Received : List ℕ → List ℕ → ℕ → List ℕ → ℤ × List ℕ → V.World → Type 0
  Received out inc got buf (pos n, bytes) w = Filled p out inc (got + n) (write_at got buf bytes) w
  Received out inc got buf (negsuc n, bytes) w = Filled p out inc got buf w

  Received-of_Got :
      (out inc buf : List ℕ) (got : ℕ) (w v : V.World) (rc : ℤ) (bytes : List ℕ)
      → Filled p out inc got buf w
      → Got p (length buf - got) w (rc, bytes, v)
      → Received out inc got buf (rc, bytes) v
  unfolding Received
  Received-of_Got out inc buf got w v (pos n) bytes (le, o, i) (fits, len, a, b) = (
    omega (arith, le, fits, length-write got buf bytes),
    b ∙ o,
    ap (λ xs. xs ++ p.incoming v)
          (ap (λ m. take (got + m) (write_at got buf bytes)) (sym len)
            ∙ take-write got buf bytes (omega (arith, le, fits, len)))
        ∙ append_assoc (take got buf) bytes (p.incoming v)
        ∙ ap (λ xs. take got buf ++ xs) (sym a)
        ∙ i,
  )
  Received-of_Got out inc buf got w v (negsuc n) bytes q still =
      Filled-of_Still p out inc buf got w v q still

  check-Received :
      (out inc buf : List ℕ) (got : ℕ) (rc : ℤ) (bytes : List ℕ)
      → Hoare
          (On (Received out inc got buf (rc, bytes)))
          (check rc)
          (λ n. On (Filled p out inc (got + n) (write_at got buf bytes)))
          (λ _. On (Filled p out inc got buf))
          (Unit {0})
  unfolding check Received
  check-Received out inc buf got (pos n) bytes = Hoare-pure _ (λ s q. q)
  check-Received out inc buf got (negsuc n) bytes = Hoare-fail _ (λ s q. q)

  pub read-Filled :
      (out inc buf : List ℕ) (got : ℕ)
      → Hoare
          (On (Filled p out inc got buf))
          (read h (length buf - got))
          (λ r. On (Filled p out inc (got + r.0) (write_at got buf r.1)))
          (λ _. On (Filled p out inc got buf))
          (Unit {0})
  unfolding read
  read-Filled out inc buf got =
      Hoare-bind _ _ (λ r. On (Received out inc got buf r)) _
        (Hoare-call_out _ _ (λ s q.
          Received-of_Got out inc buf got s.world _ _ _ q
            (C.read_takes (length buf - got) s.world)))
        (λ (rc, bytes).
          Hoare-bind _ _ _ _ (check-Received out inc buf got rc bytes)
            (λ n. Hoare-pure _ (λ s q. q)))

  pub fill_loop-Full :
      (k vep deadline got : ℕ) (out inc buf : List ℕ) (size : ℕ)
      → length buf ≡ size
      → Hoare
          (On (Filled p out inc got buf))
          (fill_loop k h vep deadline got buf)
          (λ buf'. On (Full p out inc size buf'))
          Anything
          (Unit {0})
  unfolding fill_loop
  fill_loop-Full zero vep deadline got out inc buf size len = Hoare-out_of_fuel (λ s q. tt)
  fill_loop-Full (suc k) vep deadline got out inc buf size len =
      Hoare-when _
        (λ more. Hoare-bind _ _ _ _ (now-keeps p C _ (Filled-of_Still p out inc buf got)) (λ now.
          Hoare-when _ (λ late. Hoare-fail _ (λ s q. tt))
            (λ early. Hoare-cases _ _ _ (read-Filled out inc buf got) (elim [
              | ok (zero, bytes) ↦ Hoare-fail _ (λ s q. tt)
              | ok (suc n, bytes) ↦
                  fill_loop-Full k vep deadline _ out inc _ size (length-write got buf bytes ∙ len)
              | err e ↦
                  Hoare-when _
                    (λ again.
                      Hoare-bind _ _ _ _
                        (drain_mq-keeps p C _ (Filled-of_Still p out inc buf got) vep)
                        (λ _. fill_loop-Full k vep deadline got out inc buf size len))
                    (λ bad. Hoare-fail _ (λ s q. tt))
            ]))))
        (λ done. Hoare-pure _ (λ s (le, o, i). (
          len,
          o,
          ap (λ xs. xs ++ p.incoming s.world)
                (sym (take_all got buf (ltb→le got (length buf) done)))
              ∙ i,
        )))
