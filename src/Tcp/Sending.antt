-- ===== src/Tcp/Sending.antt =====
-- The write loop sends the frame, whole and in order.
use vcl_rs.Base.{
  ℕ, zero, suc, ◌+◌, ◌≤◌, sym, ap, ◌∙◌, List, ◌++◌, length, take, drop, ℤ, pos, negsuc, ltb→le,
  append_assoc, take_all, length-drop, take_add, arith,
}
use vcl_rs.Ffi.{Vcl}
use vcl_rs.Machine.Hoare.{
  Hoare, Hoare-bind, Hoare-match, Hoare-pure, Hoare-fail, Hoare-out_of_fuel, Hoare-when, Hoare-call,
  Anything,
}
use vcl_rs.Session.{check, write}
use vcl_rs.Tcp.{write_loop}
use vcl_rs.Tcp.Connection.{Pipe, Wrote, Connection}
use vcl_rs.Tcp.Moves.{On, Holds, Keeps, Keeps-of_Still, drain_mq-keeps, now-keeps}

module _ ⦃V : Vcl⦄ (p : Pipe) where
  -- The first `at` bytes of the frame are on their way.
  abbrev pub Partly : List ℕ → List ℕ → List ℕ → ℕ → V.World → Type 0
  Partly out inc framed at = Keeps p (at ≤ length framed) (out ++ take at framed) inc

module _ ⦃V : Vcl⦄ {h : ℕ} (p : Pipe) (C : Connection h p) where
  Answered : List ℕ → List ℕ → List ℕ → ℕ → ℤ → V.World → Type 0
  Answered out inc framed at (pos n) w = Partly p out inc framed (at + n) w
  Answered out inc framed at (negsuc n) w = Partly p out inc framed at w

  Answered-of_Wrote :
      (out inc framed : List ℕ) (at : ℕ) (w v : V.World) (rc : ℤ)
      → Partly p out inc framed at w
      → Wrote p (drop at framed) w (rc, v)
      → Answered out inc framed at rc v
  unfolding Answered
  Answered-of_Wrote out inc framed at w v (pos n) (le, (o, i)) (fits, a, b) = (
    omega (arith, le, fits, length-drop at framed),
    (
      a
          ∙ ap (◌++ take n (drop at framed)) o
          ∙ append_assoc out (take at framed) (take n (drop at framed))
          ∙ ap (λ xs. out ++ xs) (sym (take_add at n framed)),
      b ∙ i,
    ),
  )
  Answered-of_Wrote out inc framed at w v (negsuc n) q still = Keeps-of_Still p _ _ inc w v q still

  check-Answered :
      (out inc framed : List ℕ) (at : ℕ) (rc : ℤ)
      → Hoare
          (On (Answered out inc framed at rc))
          (check rc)
          (λ n. On (Partly p out inc framed (at + n)))
          (λ _. On (Partly p out inc framed at))
          (Unit {0})
  unfolding check Answered
  check-Answered out inc framed at (pos n) = Hoare-pure _ (λ s q. q)
  check-Answered out inc framed at (negsuc n) = Hoare-fail _ (λ s q. q)

  pub write-Partly :
      (out inc framed : List ℕ) (at : ℕ)
      → Hoare
          (On (Partly p out inc framed at))
          (write h (drop at framed))
          (λ n. On (Partly p out inc framed (at + n)))
          (λ _. On (Partly p out inc framed at))
          (Unit {0})
  unfolding write
  write-Partly out inc framed at =
      Hoare-bind _ _ (λ rc. On (Answered out inc framed at rc)) _
        (Hoare-call _ _ (λ s q.
          Answered-of_Wrote out inc framed at s.world _ _ q
            (C.write_appends (drop at framed) s.world)))
        (check-Answered out inc framed at)

  pub write_loop-Sends :
      (k vep deadline at : ℕ) (out inc framed : List ℕ)
      → Hoare
          (On (Partly p out inc framed at))
          (write_loop k h vep deadline at framed)
          (λ _. On (Holds p (out ++ framed) inc))
          Anything
          (Unit {0})
  unfolding write_loop
  write_loop-Sends zero vep deadline at out inc framed = Hoare-out_of_fuel (λ s q. tt)
  write_loop-Sends (suc k) vep deadline at out inc framed =
      Hoare-when _
        (λ more.
          Hoare-match _ _ _ _ _ _ (write-Partly out inc framed at)
            (λ n. write_loop-Sends k vep deadline (at + n) out inc framed)
            (λ e.
              Hoare-when _
                (λ again. Hoare-bind _ _ _ _ (now-keeps p C _ (Keeps-of_Still p _ _ inc)) (λ now.
                  Hoare-when _ (λ late. Hoare-fail _ (λ s q. tt))
                    (λ early.
                      Hoare-bind _ _ _ _ (drain_mq-keeps p C _ (Keeps-of_Still p _ _ inc) vep)
                        (λ _. write_loop-Sends k vep deadline at out inc framed))))
                (λ bad. Hoare-fail _ (λ s q. tt))))
        (λ done. Hoare-pure _ (λ s (le, (o, i)).
          (o ∙ ap (λ xs. out ++ xs) (take_all at framed (ltb→le at (length framed) done)), i)))
