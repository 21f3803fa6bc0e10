-- ===== src/Ephemeral.antt =====
-- The ephemeral source ports of src/dgram.rs: the range, and the loop that tries eight ports, which
-- stands in four functions of that file.
pub mod Bounds
use vcl_rs.Base.{ℕ, zero, suc, Bool, true, false}
use vcl_rs.Net.{IpAddr, socket_addr}
use vcl_rs.Ffi.{Vcl}
use vcl_rs.Machine.{M, ok, err, pure, ◌>>=◌, attempt, host}
use vcl_rs.Session.{SessionHandle, bind}

abbrev pub low : ℕ
low = 32768

abbrev pub high : ℕ
high = 60999

module _ ⦃V : Vcl⦄ where
  -- The rounds left; the result is `bound`.
  unfoldable pub bind_ephemeral : ℕ → SessionHandle → IpAddr → M Bool
  bind_ephemeral zero h ip = pure false
  bind_ephemeral (suc rounds) h ip = do
    port ← host (V.gen_range low high)
    res ← attempt (bind h (socket_addr ip port))
    elim res [ ok _ ↦ pure true | err e ↦ bind_ephemeral rounds h ip ]
