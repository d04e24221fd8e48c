-- ===== src/Examples/Worlds.antt =====
-- Concrete states over the toy library.
use quinn_ffi.Prelude.{ℕ, ◌+◌, ◌*◌, none, some, true, false, List, [], ◌∷◌, bytes}
use quinn_ffi.ErrorKind.{io_error}
use quinn_ffi.Proto.{connected, stream, opened, Dir, SocketAddr, v4}
use quinn_ffi.Addr.{IpAddr}
use quinn_ffi.World.{
  World, Channel, Shared, EndpointImpl, ConnectionImpl, ConnectionEvent, EndpointEvent, Slot,
}
use quinn_ffi.Examples.Toy.{toy, ToyConnection, ToyEndpoint}

abbrev pub open_channel : {A : Type 0} → List A → Channel A
open_channel q = record { queue = q; sender_alive = true; receiver_alive = true }

abbrev pub shared : {A : Type 0} → A → Shared A
shared a = record { strong = 2; locked = false; poisoned = false; value = a }

abbrev pub peer : SocketAddr
peer = v4 127 0 0 1 4433

-- A connection with a datagram, two events for its endpoint and two for the application.
abbrev pub busy : ToyConnection
busy = record {
  timeout = some 15;
  outgoing = (7 ∷ [], peer) ∷ [];
  to_endpoint = false ∷ false ∷ [];
  events = connected ∷ stream (opened Dir.bi) ∷ [];
  incoming = 4 ∷ [];
  unread = 1 ∷ 2 ∷ 3 ∷ [];
  finished = false;
  seen = [];
}

abbrev pub connection : ConnectionImpl toy
connection = record {
  inner = busy;
  connection_handle = 9;
  connection_events = 3;
  endpoint_events = 1;
  timer_deadline = none;
  last_poll = 0;
  endpoint_poll_notifier = some 2;
}

abbrev pub toy_endpoint : ToyEndpoint
toy_endpoint = record { outgoing = (8 ∷ [], peer) ∷ []; answers = some 5 }

abbrev pub endpoint : EndpointImpl toy
endpoint = record {
  id = 1;
  inner = toy_endpoint;
  endpoint_events_rx = 1;
  endpoint_events_tx = 1;
  endpoint_poll_notifier = some 2;
  default_client_config = none;
  connections = (9, 3) ∷ [];
  connection_refs = (9, 20) ∷ [];
}

abbrev pub function_of : Slot → ℕ
function_of s = 77

-- The application's memory: a word at 50 and 51, the host name at 60, a buffer at 61.
abbrev pub world : World toy
world = record {
  last_result = some (record { last_err = some (io_error (bytes "old")) });
  endpoint_id = 0;
  callbacks = λ s. some (function_of s);
  calls = [];
  clock = λ n. 10 + 10 * n;
  reads = 0;
  words = (50, 0) ∷ (51, 0) ∷ [];
  buffers = (60, b'h' ∷ b'i' ∷ []) ∷ (61, 0 ∷ 0 ∷ 0 ∷ 0 ∷ []) ∷ [];
  next_id = 100;
  endpoint_events = (1, open_channel ((9, EndpointEvent.transmit (6 ∷ [], peer)) ∷ [])) ∷ [];
  connection_events = (3, open_channel (ConnectionEvent.proto 11 ∷ ConnectionEvent.ping ∷ [])) ∷ [];
  notices = (2, open_channel []) ∷ [];
  endpoint_boxes = (30, 10) ∷ [];
  connection_boxes = (40, 20) ∷ [];
  client_configs = [];
  server_configs = [];
  endpoints = (10, shared endpoint) ∷ [];
  connections = (20, shared connection) ∷ [];
  dispatch = 0;
  pollers = [];
}

-- Where a client connects to.
abbrev pub server : IpAddr
server = record { port = 4433; address_0 = 127; address_1 = 0; address_2 = 0; address_3 = 1 }
