-- ===== src/Bindings.antt =====
-- src/ffi/bindings.rs: the exported functions. A function stands as its body and the macro `ffi!`
-- around it, with the names of its arguments and their null checks; a number is never null.
pub mod Streams
pub mod Errors
pub mod Connections
pub mod Endpoints
pub mod Configs
pub mod Logging
pub mod Sharing
pub mod Accounted
