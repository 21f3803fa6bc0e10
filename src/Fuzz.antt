-- ===== src/Fuzz.antt =====
-- fuzz/fuzz_targets/tcp_dns_response.rs. The target is a test of its input: `false` is a panic of one
-- of its assertions or of an index.
pub mod Passes
use vcl_rs.Base.{
  ℕ, ◌+◌, ◌%◌, ◌^◌, Bool, true, false, ◌&&◌, List, [], ◌∷◌, length, take, leb, ltb, ◌==◌,
  if◌then◌else◌,
}
use vcl_rs.Machine.{Result, ok, err}
use vcl_rs.Framing.{u16_max, frame_tcp_dns_query, decode_tcp_dns_len}

abbrev pub min_of : ℕ → ℕ → ℕ
min_of a b = if leb a b then a else b

-- `==` on slices
abbrev pub same : List ℕ → List ℕ → Bool
same [] [] = true
same (x ∷ xs) (y ∷ ys) = (x == y) && same xs ys
same _ _ = false

-- `.map(|n| n as u16).unwrap_or(0)`
abbrev pub or_zero : Result ℕ → ℕ
or_zero (ok n) = n % 2 ^ 16
or_zero (err e) = 0

-- The arm of a frame, with its two bytes at the front.
abbrev pub framed_well : List ℕ → List ℕ → Bool
framed_well q (hi ∷ lo ∷ body) =
    leb (length q) u16_max
    && (2 + length body == 2 + length q)
    && (or_zero (decode_tcp_dns_len hi lo) == length q)
    && same body q
framed_well q _ = false

abbrev pub outbound_arms : List ℕ → Result (List ℕ) → Bool
outbound_arms q (ok framed) = framed_well q framed
outbound_arms q (err e) = ltb u16_max (length q)

unfoldable pub outbound : List ℕ → Bool
outbound q = outbound_arms q (frame_tcp_dns_query q)

-- The arms of the decoded prefix; the slice of the body stays within it.
abbrev pub inbound_arms : ℕ → ℕ → List ℕ → Result ℕ → Bool
inbound_arms hi lo body (ok len) =
    ltb 0 len && leb len u16_max && leb (min_of len (length body)) (length body)
inbound_arms hi lo body (err e) = (hi == 0) && (lo == 0)

unfoldable pub inbound : List ℕ → Bool
inbound (hi ∷ lo ∷ body) = inbound_arms hi lo body (decode_tcp_dns_len hi lo)
inbound _ = true

unfoldable pub tcp_dns_response : List ℕ → Bool
unfolding outbound inbound
tcp_dns_response input =
    outbound (take (min_of (length input) (u16_max + 16)) input) && inbound input
