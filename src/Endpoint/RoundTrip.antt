-- ===== src/Endpoint/RoundTrip.antt =====
-- An address survives the trip through `vppcom_endpt_t`.
use vcl_rs.Base.{
  ◌∙◌, inl, inr, Bool-cases, ◌==◌, All, length-take, ℕ, ◌≤◌, ◌<◌, ◌≡◌, refl, ap, List, [], ◌∷◌,
  zero, suc, length, take, overlay, arith,
}
use vcl_rs.Net.{IpAddr, v4, v6, IsIp, SocketAddr, IsSocketAddr, socket_addr}
use vcl_rs.Ffi.{Endpoint}
use vcl_rs.Endpoint.{swap_bytes, endpoint_into_buf, addr_from_endpoint, zeroed}

swap_bytes-swap_bytes : (p : ℕ) → p < 65536 → swap_bytes (swap_bytes p) ≡ p
unfolding swap_bytes
swap_bytes-swap_bytes p h = omega arith

overlay-full {ℓ} :
    {A : Type ℓ} (buf bytes : List A) → length bytes ≡ length buf → overlay buf bytes ≡ bytes
overlay-full [] [] h = refl
overlay-full [] (b ∷ bytes) h = absurd (omega arith)
overlay-full (x ∷ buf) [] h = absurd (omega arith)
overlay-full (x ∷ buf) (b ∷ bytes) h = ap (◌∷◌ b) (overlay-full buf bytes (omega arith))

take-overlay {ℓ} :
    {A : Type ℓ} (n : ℕ) (buf bytes : List A)
    → length bytes ≡ n
    → n ≤ length buf
    → take n (overlay buf bytes) ≡ bytes
take-overlay zero buf [] h fits = refl
take-overlay zero buf (b ∷ bytes) h fits = absurd (omega arith)
take-overlay (suc n) [] bytes h fits = absurd (omega arith)
take-overlay (suc n) (x ∷ buf) [] h fits = absurd (omega arith)
take-overlay (suc n) (x ∷ buf) (b ∷ bytes) h fits =
    ap (◌∷◌ b) (take-overlay n buf bytes (omega arith) (omega arith))

addr_of_ip :
    (ip : IpAddr) (port flow scope : ℕ)
    → IsIp ip
    → port < 65536
    → let a : SocketAddr = record { ip = ip; port = port; flowinfo = flow; scope_id = scope } in
      addr_from_endpoint (endpoint_into_buf a zeroed) ≡ socket_addr ip port
unfolding addr_from_endpoint endpoint_into_buf
addr_of_ip (v4 o) port flow scope ok p =
    rw (swap_bytes-swap_bytes port p, take-overlay 4 zeroed o ok.0 (omega arith)) refl
addr_of_ip (v6 o) port flow scope ok p =
    rw (swap_bytes-swap_bytes port p, overlay-full zeroed o ok.0) refl

-- For a valid socket address, `addr_from_endpoint` after `endpoint_into_buf` over a zeroed buffer
-- gives back its IP and its port; the flow label and the scope of an IPv6 address become 0.
pub addr_from_endpoint-endpoint_into_buf :
    (a : SocketAddr)
    → IsSocketAddr a
    → addr_from_endpoint (endpoint_into_buf a zeroed) ≡ socket_addr a.ip a.port
addr_from_endpoint-endpoint_into_buf a v =
    addr_of_ip a.ip a.port a.flowinfo a.scope_id v.ip_ok v.port_ok

-- What libvppcom writes as the address of a peer.
pub record IsEndpoint (ep : Endpoint) : Type 0 where
  pub ip_full : length ep.ip ≡ 16
  pub ip_bytes : All (λ b. b < 256) ep.ip
  pub port_short : ep.port < 65536

All-take {ℓ} : {A : Type ℓ} (P : A → Type 0) (n : ℕ) (xs : List A) → All P xs → All P (take n xs)
All-take P zero xs h = tt
All-take P (suc n) [] h = tt
All-take P (suc n) (x ∷ xs) h = (h.0, All-take P n xs h.1)

swap_bytes-lt : (p : ℕ) → p < 65536 → swap_bytes p < 65536
unfolding swap_bytes
swap_bytes-lt p h = omega arith

addr_from_endpoint-IsSocketAddr :
    (ep : Endpoint) → IsEndpoint ep → IsSocketAddr (addr_from_endpoint ep)
unfolding addr_from_endpoint
addr_from_endpoint-IsSocketAddr ep v = elim (Bool-cases (ep.is_ip4 == 0)) [
  | inl six ↦
      rw six
        (record { ip_ok = (v.ip_full, v.ip_bytes); port_ok = swap_bytes-lt ep.port v.port_short })
  | inr four ↦ rw four (record {
    ip_ok =
        (omega (arith, length-take 4 ep.ip, v.ip_full), All-take (λ b. b < 256) 4 ep.ip v.ip_bytes);
    port_ok = swap_bytes-lt ep.port v.port_short;
  })
]

addr_from_endpoint-plain :
    (ep : Endpoint) → let a = addr_from_endpoint ep in socket_addr a.ip a.port ≡ a
unfolding addr_from_endpoint
addr_from_endpoint-plain ep = elim (Bool-cases (ep.is_ip4 == 0)) [
  | inl six ↦ rw six refl
  | inr four ↦ rw four refl
]

-- An address that came from libvppcom is given back to it as it was.
pub returned_address :
    (ep : Endpoint)
    → IsEndpoint ep
    → addr_from_endpoint (endpoint_into_buf (addr_from_endpoint ep) zeroed) ≡ addr_from_endpoint ep
returned_address ep v =
    addr_from_endpoint-endpoint_into_buf (addr_from_endpoint ep)
      (addr_from_endpoint-IsSocketAddr ep v)
    ∙ addr_from_endpoint-plain ep
