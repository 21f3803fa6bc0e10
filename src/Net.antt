-- ===== src/Net.antt =====
-- `std::net` addresses, as the crate uses them. `Ipv4Addr` is its four octets and `Ipv6Addr` its
-- sixteen; a `SocketAddrV6` also has a flow label and a scope, which `SocketAddr::new` sets to 0.
use vcl_rs.Base.{ℕ, ◌<◌, ◌≡◌, Bool, true, false, ◌&&◌, List, [], ◌∷◌, replicate, length, All, ◌==◌}

pub data IpAddr : Type 0 where
  v4 : List ℕ → IpAddr
  v6 : List ℕ → IpAddr

pub record SocketAddr : Type 0 where
  pub ip : IpAddr
  pub port : ℕ
  pub flowinfo : ℕ
  pub scope_id : ℕ

-- `SocketAddr::new`
abbrev pub socket_addr : IpAddr → ℕ → SocketAddr
socket_addr ip port = record { ip = ip; port = port; flowinfo = 0; scope_id = 0 }

abbrev pub is_ipv4 : IpAddr → Bool
is_ipv4 (v4 o) = true
is_ipv4 (v6 o) = false

abbrev pub octets : IpAddr → List ℕ
octets (v4 o) = o
octets (v6 o) = o

abbrev pub bytes_eq : List ℕ → List ℕ → Bool
bytes_eq [] [] = true
bytes_eq [] (y ∷ ys) = false
bytes_eq (x ∷ xs) [] = false
bytes_eq (x ∷ xs) (y ∷ ys) = (x == y) && bytes_eq xs ys

-- `==` on `IpAddr`
abbrev pub ip_eq : IpAddr → IpAddr → Bool
ip_eq (v4 a) (v4 b) = bytes_eq a b
ip_eq (v4 a) (v6 b) = false
ip_eq (v6 a) (v4 b) = false
ip_eq (v6 a) (v6 b) = bytes_eq a b

-- "0.0.0.0" and "::"
abbrev pub unspecified : Bool → IpAddr
unspecified true = v4 (replicate 4 0)
unspecified false = v6 (replicate 16 0)

-- What the types of `std::net` guarantee.
abbrev pub IsIp : IpAddr → Type 0
IsIp (v4 o) = (length o ≡ 4) × All (λ b. b < 256) o
IsIp (v6 o) = (length o ≡ 16) × All (λ b. b < 256) o

pub record IsSocketAddr (a : SocketAddr) : Type 0 where
  pub ip_ok : IsIp a.ip
  pub port_ok : a.port < 65536
