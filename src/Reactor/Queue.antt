-- ===== src/Reactor/Queue.antt =====
-- The queue of events behind the epoll set of src/reactor.rs, and who waits for them.
use vcl_rs.Base.{
  ℕ, ◌^◌, ◌%◌, ◌≡◌, refl, sym, ap, ◌∙◌, Option, none, some, List, [], ◌∷◌, ◌++◌, length, take, drop,
  append_assoc, pos,
}
use vcl_rs.Ffi.{Vcl, EpollEvent}
use vcl_rs.Reactor.Waiters.{find}
use vcl_rs.Reactor.Keeps.{Waiters}

module _ ⦃V : Vcl⦄ where
  -- libvppcom hands the events out in order, as many as there is room for, each once; a `Notify`
  -- takes no event away. `woken` is what the `Notify`s have been told, the first one first.
  pub record Queue (vep : ℕ) : Type 0 where
    pub pending : V.World → List EpollEvent
    pub woken : V.World → List V.Notify
    pub counts : (w : V.World) → (V.epoll_wait vep 64 0 w).0 ≡ pos (length (take 64 (pending w)))
    pub reports : (w : V.World) → (V.epoll_wait vep 64 0 w).1 ≡ take 64 (pending w)
    pub takes : (w : V.World) → pending (V.epoll_wait vep 64 0 w).2 ≡ drop 64 (pending w)
    pub wakes_none : (w : V.World) → woken (V.epoll_wait vep 64 0 w).2 ≡ woken w
    pub tells : (n : V.Notify) (w : V.World) → woken (V.notify_one n w) ≡ woken w ++ (n ∷ [])
    pub keeps : (n : V.Notify) (w : V.World) → pending (V.notify_one n w) ≡ pending w

  abbrev pub target : Option V.Notify → List V.Notify
  target none = []
  target (some n) = n ∷ []

  -- Who waits for the sessions of these events, in their order.
  unfoldable pub targets : Waiters → List EpollEvent → List V.Notify
  targets ws [] = []
  targets ws (e ∷ es) = target (find (e.user % 2 ^ 32) ws) ++ targets ws es

  pub targets-append :
      (ws : Waiters) (xs ys : List EpollEvent)
      → targets ws (xs ++ ys) ≡ targets ws xs ++ targets ws ys
  unfolding targets
  targets-append ws [] ys = refl
  targets-append ws (x ∷ xs) ys =
      ap (λ ns. target (find (x.user % 2 ^ 32) ws) ++ ns) (targets-append ws xs ys)
      ∙ sym (append_assoc (target (find (x.user % 2 ^ 32) ws)) (targets ws xs) (targets ws ys))
