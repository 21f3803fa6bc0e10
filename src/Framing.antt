-- ===== src/Framing.antt =====
-- src/dgram.rs, `frame_tcp_dns_query` and `decode_tcp_dns_len`: the two-byte length prefix of RFC
-- 1035. A byte is a number below 256.
pub mod Laws
use vcl_rs.Base.{
  ℕ, ◌+◌, ◌*◌, ◌/◌, ◌%◌, List, [], ◌∷◌, ◌++◌, length, leb, ◌==◌, if◌then◌else◌, negsuc,
}
use vcl_rs.Error.{api, query_too_large, zero_length_response}
use vcl_rs.Machine.{Result, ok, err}

-- `u16::MAX`
abbrev pub u16_max : ℕ
u16_max = 65535

abbrev pub to_be_bytes : ℕ → List ℕ
to_be_bytes n = (n / 256) ∷ (n % 256) ∷ []

unfoldable pub frame_tcp_dns_query : List ℕ → Result (List ℕ)
frame_tcp_dns_query query =
    if leb (length query) u16_max
    then ok (to_be_bytes (length query) ++ query)
    else err (api (query_too_large (length query)) (negsuc 0))

-- The prefix is given by its two bytes.
unfoldable pub decode_tcp_dns_len : ℕ → ℕ → Result ℕ
decode_tcp_dns_len hi lo =
    let len = hi * 256 + lo in
    if len == 0 then err (api zero_length_response (negsuc 0)) else ok len
