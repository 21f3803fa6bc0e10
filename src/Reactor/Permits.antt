-- ===== src/Reactor/Permits.antt =====
-- `tokio::sync::Notify`, as far as the waits of src/reactor.rs rely on it.
use vcl_rs.Base.{ℕ, ◌≡◌, ◌≢◌, Bool, true, none, some}
use vcl_rs.Ffi.{Vcl, mq_ready}

module _ ⦃V : Vcl⦄ where
  -- What tokio documents of a `Notify` on which only one `notified()` waits: `notify_one` completes it;
  -- if none waits, it stores a permit, which the next `notified()` takes. A completed `notified()` that
  -- is dropped without having been polled gives its permit back. `select!` polls its `notified()`
  -- unless another branch is ready first, and drops it when a branch is ready.
  pub record Permits : Type 0 where
    -- Nobody waits on the `Notify`, and it has a permit; the next poll of the future is ready; the
    -- future is the only one on the `Notify`.
    pub is_free : V.Notify → V.World → Bool
    pub has_permit : V.Notify → V.World → Bool
    pub is_told : V.Notified → V.World → Bool
    pub is_only : V.Notify → V.Notified → V.World → Bool
    pub completes :
        (n : V.Notify) (f : V.Notified) (w : V.World)
        → is_only n f w ≡ true
        → is_told f (V.notify_one n w) ≡ true
    pub stores :
        (n : V.Notify) (w : V.World) → is_free n w ≡ true → has_permit n (V.notify_one n w) ≡ true
    pub takes :
        (n : V.Notify) (w : V.World)
        → has_permit n w ≡ true
        → is_told (V.new_notified n w).0 (V.new_notified n w).1 ≡ true
    pub select_wakes :
        (f : V.Notified) (deadline : ℕ) (w : V.World)
        → is_told f w ≡ true
        → (V.poll_select f deadline w).0 ≢ none
    pub select_frees :
        (n : V.Notify) (f : V.Notified) (deadline : ℕ) (w : V.World)
        → is_only n f w ≡ true
        → (V.poll_select f deadline w).0 ≡ some mq_ready
        → is_free n (V.poll_select f deadline w).1 ≡ true
    pub select_returns :
        (n : V.Notify) (f : V.Notified) (deadline : ℕ) (w : V.World)
        → is_only n f w ≡ true
        → is_told f w ≡ true
        → (V.poll_select f deadline w).0 ≡ some mq_ready
        → has_permit n (V.poll_select f deadline w).1 ≡ true
    pub check_wakes :
        (f : V.Notified) (w : V.World) → is_told f w ≡ true → (V.poll_check f w).0 ≡ some true
    -- Nothing else takes these away.
    pub free_notify :
        (n m : V.Notify) (w : V.World) → is_free n w ≡ true → is_free n (V.notify_one m w) ≡ true
    pub free_epoll :
        (n : V.Notify) (vep size ms : ℕ) (w : V.World)
        → is_free n w ≡ true
        → is_free n (V.epoll_wait vep size ms w).2 ≡ true
    pub permit_notify :
        (n m : V.Notify) (w : V.World)
        → has_permit n w ≡ true
        → has_permit n (V.notify_one m w) ≡ true
    pub permit_epoll :
        (n : V.Notify) (vep size ms : ℕ) (w : V.World)
        → has_permit n w ≡ true
        → has_permit n (V.epoll_wait vep size ms w).2 ≡ true
    pub permit_clear :
        (n : V.Notify) (w : V.World) → has_permit n w ≡ true → has_permit n (V.clear_ready w) ≡ true
    pub told_notify :
        (f : V.Notified) (m : V.Notify) (w : V.World)
        → is_told f w ≡ true
        → is_told f (V.notify_one m w) ≡ true
    pub told_now :
        (f : V.Notified) (w : V.World) → is_told f w ≡ true → is_told f (V.now w).1 ≡ true
    pub only_notify :
        (n : V.Notify) (f : V.Notified) (m : V.Notify) (w : V.World)
        → is_only n f w ≡ true
        → is_only n f (V.notify_one m w) ≡ true
    pub only_epoll :
        (n : V.Notify) (f : V.Notified) (vep size ms : ℕ) (w : V.World)
        → is_only n f w ≡ true
        → is_only n f (V.epoll_wait vep size ms w).2 ≡ true
    pub only_now :
        (n : V.Notify) (f : V.Notified) (w : V.World)
        → is_only n f w ≡ true
        → is_only n f (V.now w).1 ≡ true
