-- ===== src/Bindings/Endpoints/Ipv6.antt =====
-- A datagram to an IPv6 address, which does not fit the application's `IpAddr`.
use quinn_ffi.Prelude.{bytes}
use quinn_ffi.Effect.{Payload}
use quinn_ffi.Proto.{Proto}
use quinn_ffi.World.{World}
use quinn_ffi.Endpoint

abbrev unsupported : Payload
unsupported = Payload.str (bytes "not supported")
