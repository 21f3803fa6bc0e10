-- ===== src/Framing/Laws.antt =====
-- What src/dgram.rs promises of the framing, and what the fuzz target
-- fuzz/fuzz_targets/tcp_dns_response.rs asserts.
use vcl_rs.Base.{
  ℕ, ◌+◌, ◌*◌, ◌/◌, ◌%◌, ◌≤◌, ◌<◌, ◌≡◌, ◌↔◌, ◌⊎◌, inl, inr, dec_lt, List, ◌∷◌, length, arith,
  negsuc,
}
use vcl_rs.Error.{api, query_too_large, zero_length_response}
use vcl_rs.Machine.{ok, err}
use vcl_rs.Framing.{u16_max, frame_tcp_dns_query, decode_tcp_dns_len}

-- A query of 1 to 65535 bytes is framed as two bytes that decode to its length, followed by the
-- query unchanged.
pub decode_tcp_dns_len-frame_tcp_dns_query :
    (query : List ℕ)
    → 0 < length query
    → length query ≤ u16_max
    → (hi : ℕ) × (lo : ℕ) × (frame_tcp_dns_query query ≡ ok (hi ∷ lo ∷ query))
      × (hi < 256)
      × (lo < 256)
      × (decode_tcp_dns_len hi lo ≡ ok (length query))
unfolding frame_tcp_dns_query decode_tcp_dns_len
decode_tcp_dns_len-frame_tcp_dns_query query some_bytes fits =
    (length query / 256, length query % 256, ground arith, omega arith, omega arith, ground arith)

-- A query is refused exactly when it has more than 65535 bytes.
pub frame_tcp_dns_query-eq-err_iff :
    (query : List ℕ)
    → (frame_tcp_dns_query query ≡ err (api (query_too_large (length query)) (negsuc 0)))
      ↔ (u16_max < length query)
unfolding frame_tcp_dns_query
frame_tcp_dns_query-eq-err_iff query = ground arith

-- Whatever two bytes a server sends, the decoded length is between 1 and 65535, or the prefix is
-- 00 00 and it is refused.
pub decode_tcp_dns_len_total :
    (hi lo : ℕ)
    → hi < 256
    → lo < 256
    → ((n : ℕ) × (decode_tcp_dns_len hi lo ≡ ok n) × (0 < n) × (n ≤ u16_max))
      ⊎ ((decode_tcp_dns_len hi lo ≡ err (api zero_length_response (negsuc 0)))
          × (hi ≡ 0)
          × (lo ≡ 0))
unfolding decode_tcp_dns_len
decode_tcp_dns_len_total hi lo h l = elim (dec_lt 0 (hi * 256 + lo)) [
  | yes p ↦ inl (hi * 256 + lo, ground arith, p, omega arith)
  | no p ↦ inr (ground arith, omega arith, omega arith)
]
