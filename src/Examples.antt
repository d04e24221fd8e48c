-- ===== src/Examples.antt =====
-- A concrete `quinn_proto`, and the theorems at concrete inputs.
pub mod Toy
pub mod Worlds
mod Results
mod Connections
mod Endpoints
mod Delivery
mod Reach
mod Sharing
mod Pollers
mod Streams
mod Calls
mod Lifecycle
mod Handles
