-- ===== src/Dgram/Random.antt =====
-- src/dgram.rs, the public forms of `bind_random_ephemeral`, with the text that they parse.
pub mod Refused
use vcl_rs.Base.{ℕ, zero, suc, ◌+◌, ◌/◌, ◌%◌, Option, none, List, [], ◌∷◌, ◌++◌, ltb, if◌then◌else◌}
use vcl_rs.Net.{SocketAddr}
use vcl_rs.Ffi.{Vcl}
use vcl_rs.Machine.{M}
use vcl_rs.Reactor.{VclReactor}
use vcl_rs.Dgram.{VclDgramSocket, bind_random}

-- The digits of a number before those of `rest`, by the greatest count of them: five for a `u16`.
unfoldable pub digits : ℕ → ℕ → List ℕ → List ℕ
digits zero n rest = rest
digits (suc k) n rest =
    let more = digits k (n / 10) ((48 + n % 10) ∷ rest) in
    if ltb n 10 then (48 + n) ∷ rest else more

abbrev pub colon : ℕ
colon = 58

-- `format!("{ip_str}:{port}")`, in ASCII.
unfoldable pub address_text : List ℕ → ℕ → List ℕ
unfolding digits
address_text ip_str port = ip_str ++ colon ∷ digits 5 port []

-- `"0.0.0.0"` and `"::"`
abbrev pub any_v4 : List ℕ
any_v4 = 48 ∷ 46 ∷ 48 ∷ 46 ∷ 48 ∷ 46 ∷ 48 ∷ []

abbrev pub any_v6 : List ℕ
any_v6 = colon ∷ colon ∷ []

-- `parse` is that of `SocketAddr`, on the bytes of a text.
module _ ⦃V : Vcl⦄ (parse : List ℕ → Option SocketAddr) where
  unfoldable pub bind_random_ephemeral : ℕ → List ℕ → VclReactor → M VclDgramSocket
  unfolding address_text
  bind_random_ephemeral k ip_str r =
      bind_random k 8 (λ port. parse (address_text ip_str port)) r none

  unfoldable pub bind_ephemeral_v4 : ℕ → VclReactor → M VclDgramSocket
  unfolding bind_random_ephemeral
  bind_ephemeral_v4 k r = bind_random_ephemeral k any_v4 r

  unfoldable pub bind_ephemeral_v6 : ℕ → VclReactor → M VclDgramSocket
  unfolding bind_random_ephemeral
  bind_ephemeral_v6 k r = bind_random_ephemeral k any_v6 r
