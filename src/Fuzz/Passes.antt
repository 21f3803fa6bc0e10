-- ===== src/Fuzz/Passes.antt =====
-- The fuzz target never panics.
use vcl_rs.Base.{
  ℕ, ◌+◌, ◌/◌, ◌%◌, ◌≤◌, ◌<◌, ◌≡◌, inl, inr, refl, true, Bool-cases, List, [], ◌∷◌, All, length,
  leb, ==_refl, leb→le, arith,
}
use vcl_rs.Framing.{u16_max, frame_tcp_dns_query, decode_tcp_dns_len}
use vcl_rs.Framing.Laws.{decode_tcp_dns_len_total}
use vcl_rs.Fuzz.{same, or_zero, outbound, inbound, tcp_dns_response}

same_refl : (xs : List ℕ) → same xs xs ≡ true
same_refl [] = refl
same_refl (x ∷ xs) = rw (==_refl x, same_refl xs) refl

or_zero-decode : (n : ℕ) → n ≤ u16_max → or_zero (decode_tcp_dns_len (n / 256) (n % 256)) ≡ n
unfolding decode_tcp_dns_len
or_zero-decode n le = ground arith

outbound_passes : (q : List ℕ) → outbound q ≡ true
unfolding outbound frame_tcp_dns_query
outbound_passes q = elim (Bool-cases (leb (length q) u16_max)) [
  | inl fits ↦
      rw
        (
          fits,
          ==_refl (2 + length q),
          or_zero-decode (length q) (leb→le _ _ fits),
          ==_refl (length q),
          same_refl q,
          fits,
        )
        refl
  | inr long ↦ rw long (ground arith)
]

inbound_passes : (input : List ℕ) → All (λ b. b < 256) input → inbound input ≡ true
unfolding inbound
inbound_passes [] bytes = refl
inbound_passes (hi ∷ []) bytes = refl
inbound_passes (hi ∷ lo ∷ body) bytes = elim (decode_tcp_dns_len_total hi lo bytes.0 bytes.1.0) [
  | inl (n, e, some, fits) ↦ rw e (ground arith)
  | inr (e, h, l) ↦ rw (e, h, l) refl
]

-- Whatever bytes the fuzzer makes up, no assertion of the target fails: a query is framed without
-- loss or refused for its length, a decoded length fits a `u16` and is not 0, and only the prefix
-- 00 00 is refused.
pub tcp_dns_response_passes :
    (input : List ℕ) → All (λ b. b < 256) input → tcp_dns_response input ≡ true
unfolding tcp_dns_response
tcp_dns_response_passes input bytes = rw (outbound_passes _, inbound_passes input bytes) refl
