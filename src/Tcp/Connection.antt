-- ===== src/Tcp/Connection.antt =====
-- What a TCP session promises: the bytes that the crate writes reach the peer's side in order, and
-- the bytes of the peer are read in order, each once.
use vcl_rs.Base.{ℕ, ◌≤◌, ◌≡◌, List, ◌++◌, length, take, ℤ, pos, negsuc}
use vcl_rs.Ffi.{Vcl, Endpoint}

module _ ⦃V : Vcl⦄ where
  -- The two directions of a session: all that was sent on it, and what can still arrive.
  pub record Pipe : Type 0 where
    pub sent : V.World → List ℕ
    pub incoming : V.World → List ℕ

  -- Neither direction has moved.
  abbrev pub Still : Pipe → V.World → V.World → Type 0
  Still p w v = (p.sent v ≡ p.sent w) × (p.incoming v ≡ p.incoming w)

  abbrev pub Wrote : Pipe → List ℕ → V.World → ℤ × V.World → Type 0
  Wrote p buf w (pos n, v) =
      (n ≤ length buf) × (p.sent v ≡ p.sent w ++ take n buf) × (p.incoming v ≡ p.incoming w)
  Wrote p buf w (negsuc n, v) = Still p w v

  abbrev pub Got : Pipe → ℕ → V.World → ℤ × List ℕ × V.World → Type 0
  Got p size w (pos n, bytes, v) =
      (n ≤ size)
      × (length bytes ≡ n)
      × (p.incoming w ≡ bytes ++ p.incoming v)
      × (p.sent v ≡ p.sent w)
  Got p size w (negsuc n, bytes, v) = Still p w v

  -- What libvppcom documents of a connected session `h`; no other call moves its bytes.
  pub record Connection (h : ℕ) (p : Pipe) : Type 0 where
    pub write_appends : (buf : List ℕ) (w : V.World) → Wrote p buf w (V.session_write h buf w)
    pub read_takes : (size : ℕ) (w : V.World) → Got p size w (V.session_read h size w)
    pub connect_still : (ep : Endpoint) (w : V.World) → Still p w (V.session_connect h ep w).1
    pub epoll_wait_still : (vep n ms : ℕ) (w : V.World) → Still p w (V.epoll_wait vep n ms w).2
    pub now_still : (w : V.World) → Still p w (V.now w).1
