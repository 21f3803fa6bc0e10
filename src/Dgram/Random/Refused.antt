-- ===== src/Dgram/Random/Refused.antt =====
-- What `bind_ephemeral_v6` of src/dgram.rs always does.
use vcl_rs.Base.{ℕ, ◌≡◌, refl, Option, none, List, ◌∷◌, negsuc}
use vcl_rs.Net.{SocketAddr}
use vcl_rs.Error.{api, addr_parse}
use vcl_rs.Ffi.{Vcl}
use vcl_rs.Machine.{State, returned, err, ◌>>=◌}
use vcl_rs.Reactor.{VclReactor}
use vcl_rs.Dgram.{bind_random, try_address}
use vcl_rs.Ephemeral.{low, high}
use vcl_rs.Dgram.Random.{colon, address_text, bind_random_ephemeral, bind_ephemeral_v6}

module _ ⦃V : Vcl⦄ where
  -- If no text that starts with a colon parses to a socket address (std documents a digit or a
  -- bracket there), then `bind_ephemeral_v6` returns a parse error whatever the port, after one draw
  -- of it, and makes no foreign call.
  pub bind_ephemeral_v6-refused :
      (parse : List ℕ → Option SocketAddr) (k : ℕ) (r : VclReactor) (s : State)
      → ((text : List ℕ) → parse (colon ∷ text) ≡ none)
      → bind_ephemeral_v6 parse k r s ≡ (
        returned (err (api addr_parse (negsuc 0))),
        record s { world = (V.gen_range low high s.world).1 },
      )
  unfolding bind_ephemeral_v6 bind_random_ephemeral address_text bind_random try_address ◌>>=◌
  bind_ephemeral_v6-refused parse k r s no_colon = rw (no_colon _) refl
