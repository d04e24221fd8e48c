-- ===== src/Connection/Grows.antt =====
-- The methods of `ConnectionImpl` and what they leave of the shared state.
use quinn_ffi.Proto.{Proto}
use quinn_ffi.World.{World}
use quinn_ffi.World.Grows.{
  Grows, Grows-trans, invoke-Grows, send_notice-Grows, send_endpoint_event-Grows,
  recv_connection_event-Grows, now-Grows,
}
use quinn_ffi.World.Clock.{now}
use quinn_ffi.Callbacks.{invoke}
use quinn_ffi.Sending.{send_endpoint_event, send_notice, recv_connection_event}
use quinn_ffi.Connection.Preserved.{WorldPreserves}

module _ {P : Proto} (w₀ : World P) where
  pub parts-Grows : WorldPreserves (Grows w₀)
  parts-Grows = record {
    called = λ call w i. Grows-trans w₀ w (invoke call w).1 i (invoke-Grows call w);
    noticed = λ k m w i. Grows-trans w₀ w (send_notice k m w).1 i (send_notice-Grows k m w);
    sent = λ k m w i.
        Grows-trans w₀ w (send_endpoint_event k m w).1 i (send_endpoint_event-Grows k m w);
    received =
        λ k w i. Grows-trans w₀ w (recv_connection_event k w).1 i (recv_connection_event-Grows k w);
    read = λ w i. Grows-trans w₀ w (now w).1 i (now-Grows w);
  }
