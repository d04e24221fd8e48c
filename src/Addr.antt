-- ===== src/Addr.antt =====
-- src/proto_impl/addr.rs: the socket address that crosses the boundary. Only IPv4 fits.
use quinn_ffi.Prelude.{ℕ, ◌≡◌, bytes, arith}
use quinn_ffi.Effect.{M, Payload, ok, throw, pure}
use quinn_ffi.Proto.{SocketAddr, v4, v6}

pub record IpAddr : Type 0 where
  pub port : ℕ
  pub address_0 : ℕ
  pub address_1 : ℕ
  pub address_2 : ℕ
  pub address_3 : ℕ

-- `From<SocketAddr> for IpAddr`: panics on an IPv6 address.
unfoldable pub from_socket_addr : {S : Type 0} → SocketAddr → M S IpAddr
from_socket_addr (v4 a b c d port) =
    pure (record { port = port; address_0 = a; address_1 = b; address_2 = c; address_3 = d })
from_socket_addr (v6 ip port) = throw (Payload.str (bytes "not supported"))

-- `Into<SocketAddr> for IpAddr`.
unfoldable pub into_socket_addr : IpAddr → SocketAddr
into_socket_addr a = v4 a.address_0 a.address_1 a.address_2 a.address_3 a.port

-- An address that the application passes in comes back unchanged.
pub from-into :
    {S : Type 0} (a : IpAddr) (s : S) → from_socket_addr (into_socket_addr a) s ≡ (ok a, s)
unfolding from_socket_addr into_socket_addr
from-into a s = ground arith
