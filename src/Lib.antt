-- ===== src/Lib.antt =====
-- quinn-ffi: the C interface of a QUIC implementation, over the crate quinn_proto.
--
-- The program. An application in another language calls exported functions (src/ffi/bindings.rs) with
-- handles, which are addresses of boxed `Arc<Mutex<_>>`s (src/ffi/handle_mut.rs, src/ffi/safe_api.rs).
-- A call checks its pointers for null, runs under `catch_unwind`, locks the endpoint or connection of
-- its handle, and turns the outcome into a result kind (src/ffi/ffi_result.rs); the error itself is kept
-- for `last_error`. Connections (src/proto_impl/connection.rs) and endpoints
-- (src/proto_impl/endpoint.rs) talk through `mpsc` channels: a connection sends datagrams and protocol
-- events to its endpoint, the endpoint answers through a map of senders. The endpoint polls its
-- connections through a second map, of `Arc`s. A thread polls the endpoint when it is told to. The
-- application hears of everything by callbacks.
--
-- The files.
--   Prelude, Prelude/*        lists, tests and finite maps over the native numbers
--   Effect                    how a call ends (returned, error, panic, hang, undefined behaviour) and the
--                             state monad of all code; `hang` is a lock that is never given back, or fuel
--                             that ran out
--   ErrorKind, FfiResult,     src/proto_impl/result.rs and src/ffi/ffi_result.rs
--     QuinnError
--   Addr                      src/proto_impl/addr.rs
--   Proto                     the functions of quinn_proto that the source calls, a parameter everywhere
--   World                     the shared state: ENDPOINT_ID, LAST_RESULT, the statics of `callbacks`, the
--                             application's memory, the boxes, `Arc`s and channels, each store a finite
--                             map under fresh numbers. World/Mpsc, World/Mutex, World/Arcs and World/Clock
--                             are what the standard library does; World/Memory is src/ffi/out.rs,
--                             src/ffi/reference.rs and src/ffi/null.rs, and World/Memory/Slices about it
--   Callbacks                 `mod callbacks` of src/ffi/bindings.rs. A call of the application is
--                             recorded with its arguments and the function that it reaches
--   Sending                   `send` and `try_recv` with the errors that `?` makes of theirs
--   Connection                `ConnectionImpl`; Connection/* are about its methods
--   Endpoint, Endpoint/Refs   `EndpointImpl`; Endpoint/Loop, Routing, Ids, Delivery and Poll are about its
--                             methods, Endpoint/Refs/Closed and Removed how one loses its connections.
--                             What all methods keep is proved once, for any property that their parts
--                             keep, in Endpoint/Preserved and Connection/Preserved (World/Mutex/Locked for
--                             code under a lock); Endpoint/Senders, Reach and World/Grows fill these for
--                             the map of senders, Endpoint/Refs/Counted and Parts for the counts of the
--                             `Arc`s, which World/Arcs/Counts, Counted and Left are about. From there
--                             Handle/Counted goes to the whole state, FfiResult/Preserved and Api/Preserved
--                             through `ffi!`, the modules Accounted to each exported function and to the
--                             poller, and Bindings/Sharing to any order of all of them
--   Poller                    `EndpointPoller`, whose thread is a step function: a round of
--                             its loop (`turn`), and with what the thread drops where it ends
--                             (`thread_round`). Poller/Turns, Exits and Stopped are about what the loop
--                             does over many rounds
--   Api                       the macro `ffi!` of src/ffi/safe_api.rs and src/ffi/unsafe_api.rs
--   Handle                    the boxes of src/ffi/handle_mut.rs with the locks in them. Handle/Trait is
--                             `HandleMut` of src/ffi.rs, with its implementations in
--                             src/ffi/safe_api.rs (SafeApi) and src/ffi/unsafe_api.rs (UnsafeApi), and the
--                             cell that they implement (Cells, Values, Refines); Handle/Boxes is
--                             `FFIHandleRef` of src/ffi/handle_shared.rs and `FFIHandleMut` for any type;
--                             Handle/Poison is about handles that are poisoned
--   Utf8                      which bytes `String::from_utf8` takes
--   Bindings/*                the exported functions of src/ffi/bindings.rs, one definition for each;
--                             their children are about what these do: Streams/Reading and Outcomes,
--                             Connections/Calls, Freed and Stuck, Configs/Created, Errors/Reporting,
--                             Logging/Once, and Endpoints/Connected, Created, Disposed, Shutdown, Poisoned,
--                             Ipv6 and Forgotten
--   Examples/*                a concrete quinn_proto and state, and the theorems at them
--
-- How code is rendered. A method on `&mut self` is a function on the struct beside the shared state. A
-- field that holds an end of a channel or an `Arc` holds its number there. A `u8`, `u32` or `i8` is a
-- natural number, with the wrap-around of each conversion written out; -1 as an `i8` is 255. The feature
-- `auto-poll` is an argument. A poll function of quinn_proto is called until it gives nothing; such a
-- loop has fuel, which is one more than what a measure of quinn_proto says is left. That the measure
-- falls with each value given (`IsDraining`) is a hypothesis, and with it the fuel is enough:
-- handle_transmits-Drains, handle_endpoint_events-Gives and handle_app_events-Hears have no further
-- condition on it. The loop of `EndpointImpl::handle_connection_events` has the source's own bound, 160.
--
-- Simplifications. Calls of one thread run one after the other, and a lock that is held when a call
-- starts is held for good. Of a channel the model knows whether a sender is alive, not how many. Log
-- output is left out. The counter of the polling thread wraps, as in a release build; a debug build panics
-- there. A panic text that the standard library ends with the `Debug` form of an error, at the two
-- `expect`s of `connect_client` and of the polling thread, stops before that form: the first text is raised
-- with no error stored and is lost, the second on a thread of its own.
--
-- rustls and tracing are parameters (Bindings/Configs, Bindings/Logging): what rustls says of a certificate
-- and a key, and whether tracing takes a subscriber as the global default.
--
-- Not modelled: the trait `HandleRef` of src/ffi.rs, which nothing implements; the module declarations and
-- re-exports of src/lib.rs, src/ffi.rs and src/proto_impl.rs; the attributes and marker traits of Rust.
pub mod Prelude
pub mod ErrorKind
pub mod Effect
pub mod Proto
pub mod Addr
pub mod World
pub mod Callbacks
pub mod Sending
pub mod Connection
pub mod Endpoint
pub mod FfiResult
pub mod QuinnError
pub mod Api
pub mod Handle
pub mod Poller
pub mod Utf8
pub mod Bindings
mod Examples
