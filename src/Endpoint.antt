-- ===== src/Endpoint.antt =====
-- src/session.rs, `endpoint_into_buf` and `addr_from_endpoint`, on a little-endian host.
pub mod RoundTrip
use vcl_rs.Base.{ℕ, ◌+◌, ◌*◌, ◌/◌, ◌%◌, List, take, overlay, replicate, ◌==◌, if◌then◌else◌}
use vcl_rs.Net.{IpAddr, v4, v6, SocketAddr, socket_addr}
use vcl_rs.Ffi.{Endpoint}

-- `u16::to_be` and `u16::from_be`
unfoldable pub swap_bytes : ℕ → ℕ
swap_bytes p = p % 256 * 256 + p / 256

-- The match on `addr.ip()`: `is_ip4`, and the buffer after the copy.
ip_into_buf : IpAddr → List ℕ → ℕ × List ℕ
ip_into_buf (v4 o) ip_buf = (1, overlay ip_buf o)
ip_into_buf (v6 o) ip_buf = (0, overlay ip_buf o)

unfoldable pub endpoint_into_buf : SocketAddr → List ℕ → Endpoint
unfolding ip_into_buf
endpoint_into_buf addr ip_buf =
    let (is_ip4, ip) = ip_into_buf addr.ip ip_buf in
    record { is_ip4 = is_ip4; ip = ip; port = swap_bytes addr.port }

unfoldable pub addr_from_endpoint : Endpoint → SocketAddr
addr_from_endpoint ep =
    let port = swap_bytes ep.port in
    if ep.is_ip4 == 0 then socket_addr (v6 ep.ip) port else socket_addr (v4 (take 4 ep.ip)) port

-- `[0u8; 16]`
abbrev pub zeroed : List ℕ
zeroed = replicate 16 0
