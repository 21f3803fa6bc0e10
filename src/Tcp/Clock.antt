-- ===== src/Tcp/Clock.antt =====
-- What the termination of the synchronous TCP client rests on.
use vcl_rs.Base.{ℕ, ◌+◌, ◌≤◌, ◌<◌, ◌≡◌, List, All, length, pos}
use vcl_rs.Ffi.{Vcl}

-- The clock does not go back, and a call of `epoll_wait` takes one nanosecond or more. What libvppcom
-- reads are bytes, and a write of some bytes that succeeds has taken some.
pub record TcpClock ⦃V : Vcl⦄ : Type 0 where
  pub clock : V.World → ℕ
  pub now_reads : (w : V.World) → (clock w ≤ (V.now w).0) × ((V.now w).0 ≤ clock (V.now w).1)
  pub epoll_passes : (vep n ms : ℕ) (w : V.World) → clock w + 1 ≤ clock (V.epoll_wait vep n ms w).2
  pub read_forward : (h size : ℕ) (w : V.World) → clock w ≤ clock (V.session_read h size w).2
  pub write_forward :
      (h : ℕ) (buf : List ℕ) (w : V.World) → clock w ≤ clock (V.session_write h buf w).1
  pub reads_bytes : (h size : ℕ) (w : V.World) → All (λ b. b < 256) (V.session_read h size w).1
  pub writes_some :
      (h n : ℕ) (buf : List ℕ) (w : V.World)
      → (V.session_write h buf w).0 ≡ pos n
      → 0 < length buf
      → 0 < n
