-- ===== src/Tcp/Moves.antt =====
-- What stays of the two directions of a session while the TCP client does something else.
use vcl_rs.Base.{ℕ, ◌≡◌, ◌∙◌, List}
use vcl_rs.Net.{SocketAddr}
use vcl_rs.Error.{would_block}
use vcl_rs.Ffi.{Vcl}
use vcl_rs.Machine.{State, host}
use vcl_rs.Machine.Hoare.{
  Hoare, Hoare-bind, Hoare-match, Hoare-pure, Hoare-fail, Hoare-host, Hoare-call, Hoare-call_out,
  Anything,
}
use vcl_rs.Session.{connect}
use vcl_rs.Session.Check.{check-either}
use vcl_rs.Tcp.{drain_mq, start_connect}
use vcl_rs.Tcp.Connection.{Pipe, Still, Connection}

module _ ⦃V : Vcl⦄ where
  -- A statement about the world, of a state.
  abbrev pub On : (V.World → Type 0) → State → Type 0
  On P s = P s.world

module _ ⦃V : Vcl⦄ (p : Pipe) where
  abbrev pub Holds : List ℕ → List ℕ → V.World → Type 0
  Holds out inc w = (p.sent w ≡ out) × (p.incoming w ≡ inc)

  -- The bytes are where they were, and `L` does not depend on the state.
  abbrev pub Keeps : Type 0 → List ℕ → List ℕ → V.World → Type 0
  Keeps L out inc w = L × Holds out inc w

  pub Keeps-of_Still :
      (L : Type 0) (out inc : List ℕ) (w v : V.World)
      → Keeps L out inc w
      → Still p w v
      → Keeps L out inc v
  Keeps-of_Still L out inc w v (l, (o, i)) (a, b) = (l, (a ∙ o, b ∙ i))

  pub Holds-of_Still :
      (out inc : List ℕ) (w v : V.World) → Holds out inc w → Still p w v → Holds out inc v
  Holds-of_Still out inc w v (o, i) (a, b) = (a ∙ o, b ∙ i)

module _ ⦃V : Vcl⦄ {h : ℕ} (p : Pipe) (C : Connection h p) where
  module _ (P : V.World → Type 0) (still : (w v : V.World) → P w → Still p w v → P v) where
    pub drain_mq-keeps : (vep : ℕ) → Hoare (On P) (drain_mq vep) (λ _. On P) Anything (Unit {0})
    unfolding drain_mq
    drain_mq-keeps vep =
        Hoare-bind _ _ (λ _. On P) _
          (Hoare-call_out _ _ (λ s q. still s.world _ q (C.epoll_wait_still vep 4 5 s.world)))
          (λ _. Hoare-pure _ (λ s q. q))

    pub now-keeps : Hoare (On P) (host V.now) (λ _. On P) Anything (Unit {0})
    now-keeps = Hoare-host _ (λ s q. still s.world _ q (C.now_still s.world))

    connect-keeps :
        (peer : SocketAddr) → Hoare (On P) (connect h peer) (λ _. On P) (λ _. On P) (Unit {0})
    unfolding connect
    connect-keeps peer =
        Hoare-bind _ _ (λ _. On P) _
          (Hoare-call _ _ (λ s q. still s.world _ q (C.connect_still _ s.world)))
          (λ rc. Hoare-bind _ _ _ _ (check-either _ _ rc) (λ n. Hoare-pure _ (λ s q. q)))

    pub start_connect-keeps :
        (peer : SocketAddr) → Hoare (On P) (start_connect h peer) (λ _. On P) Anything (Unit {0})
    unfolding start_connect
    start_connect-keeps peer =
        Hoare-match _ _ _ _ _ _ (connect-keeps peer) (λ _. Hoare-pure _ (λ s q. q))
          (elim [ would_block ↦ Hoare-pure _ (λ s q. q) | e ↦ Hoare-fail _ (λ s q. tt) ])
