-- ===== src/Proto.antt =====
-- The parts of the crate `quinn_proto` that the code uses, as a parameter: its types and functions
-- are given by nothing but their signatures. Numbers stand for instants, for
-- `proto::ConnectionHandle(usize)` and for `StreamId(u64)`, whose fields the code reads or builds.
use quinn_ffi.Prelude.{ℕ, ◌<◌, ◌≤◌, ◌≡◌, ◌^◌, ◌⊎◌, Bool, Option, none, some, List}
use quinn_ffi.ErrorKind.{Text}

-- `Dir`, with its discriminants 0 and 1.
pub data Dir : Type 0 where
  bi uni : Dir

abbrev pub dir_as_u8 : Dir → ℕ
dir_as_u8 Dir.bi = 0
dir_as_u8 Dir.uni = 1

-- `StreamEvent`, which `handle_app_events` matches in full.
pub data StreamEvent : Type 0 where
  writable : ℕ → StreamEvent
  opened : Dir → StreamEvent
  readable : ℕ → StreamEvent
  available : Dir → StreamEvent
  finished : ℕ → StreamEvent
  stopped : ℕ → ℕ → StreamEvent

-- `Event`; a lost connection carries the text that `{:?}` prints of its reason.
pub data Event : Type 0 where
  handshake_data_ready : Event
  connected : Event
  connection_lost : Text → Event
  stream : StreamEvent → Event
  datagram_received : Event

-- `std::net::SocketAddr`.
pub data SocketAddr : Type 0 where
  v4 : ℕ → ℕ → ℕ → ℕ → ℕ → SocketAddr
  v6 : List ℕ → ℕ → SocketAddr

-- `DatagramEvent`.
pub data DatagramEvent (Connection ConnectionEvent : Type 0) : Type 0 where
  connection_event : ConnectionEvent → DatagramEvent Connection ConnectionEvent
  new_connection : Connection → DatagramEvent Connection ConnectionEvent

pub record Proto : Type 1 where
  pub Connection : Type 0
  pub Endpoint : Type 0
  pub ConnectionEvent : Type 0
  pub EndpointEvent : Type 0
  pub Transmit : Type 0
  pub ClientConfig : Type 0
  pub ServerConfig : Type 0
  pub ConnectError : Type 0
  pub VarInt : Type 0
  pub Chunks : Type 0
  pub ReadError : Type 0
  pub ReadableError : Type 0
  pub WriteError : Type 0
  -- `Transmit`'s fields
  pub contents : Transmit → List ℕ
  pub destination : Transmit → SocketAddr
  -- `VarInt` and `StreamId`
  pub varint_from_u64 : ℕ → Option VarInt
  pub into_inner : VarInt → ℕ
  pub varint_of_stream : ℕ → VarInt
  pub stream_of_varint : VarInt → ℕ
  pub stream_dir : ℕ → Dir
  pub varint_error_text : Text
  -- `Connection`
  pub poll_timeout : Connection → Option ℕ × Connection
  pub handle_timeout : Connection → ℕ → Connection
  pub poll_transmit : Connection → ℕ → ℕ → Option Transmit × Connection
  pub poll_endpoint_events : Connection → Option EndpointEvent × Connection
  pub poll : Connection → Option Event × Connection
  pub handle_event : Connection → ConnectionEvent → Connection
  pub ping : Connection → Connection
  pub close : Connection → ℕ → VarInt → List ℕ → Connection
  pub accept : Connection → Dir → Option ℕ × Connection
  pub open_stream : Connection → Dir → Option ℕ × Connection
  pub finish : Connection → ℕ → Connection
  pub write : Connection → ℕ → List ℕ → (WriteError ⊎ ℕ) × Connection
  pub write_error_text : WriteError → Text
  -- `RecvStream::read`, `Chunks::next` and `Chunks::finalize`; the chunks borrow the connection
  pub read : Connection → ℕ → Bool → (ReadableError × Connection) ⊎ Chunks
  pub next : Chunks → ℕ → (ReadError ⊎ Option (List ℕ)) × Chunks
  pub finalize : Chunks → Bool × Connection
  pub readable_error_text : ReadableError → Text
  pub read_error_text : ReadError → Text
  pub is_blocked : ReadError → Bool
  -- `Endpoint`
  pub new_endpoint : Option ServerConfig → Endpoint
  pub endpoint_poll_transmit : Endpoint → Option Transmit × Endpoint
  pub endpoint_handle_event : Endpoint → ℕ → EndpointEvent → Option ConnectionEvent × Endpoint
  pub is_drained : EndpointEvent → Bool
  pub connect :
      Endpoint → ClientConfig → SocketAddr → Text → (ConnectError ⊎ (ℕ × Connection)) × Endpoint
  pub no_default_client_config : ConnectError
  pub connect_error_text : ConnectError → Text
  pub handle :
      Endpoint
      → ℕ
      → SocketAddr
      → List ℕ
      → Option (ℕ × DatagramEvent Connection ConnectionEvent) × Endpoint
  -- How many more values each queue of a connection or endpoint can give before it gives none.
  pub transmits_left : Connection → ℕ
  pub endpoint_events_left : Connection → ℕ
  pub events_left : Connection → ℕ
  pub endpoint_transmits_left : Endpoint → ℕ

-- A poll function is called until it gives nothing: each value that one gives leaves fewer to give.
-- Accepting a stream gives no application event back.
pub record IsDraining (P : Proto) : Type 0 where
  pub transmit_falls :
      (c : P.Connection) (now max : ℕ) (t : P.Transmit)
      → (P.poll_transmit c now max).0 ≡ some t
      → P.transmits_left (P.poll_transmit c now max).1 < P.transmits_left c
  pub endpoint_event_falls :
      (c : P.Connection) (e : P.EndpointEvent)
      → (P.poll_endpoint_events c).0 ≡ some e
      → P.endpoint_events_left (P.poll_endpoint_events c).1 < P.endpoint_events_left c
  pub event_falls :
      (c : P.Connection) (e : Event)
      → (P.poll c).0 ≡ some e
      → P.events_left (P.poll c).1 < P.events_left c
  pub accept_keeps : (c : P.Connection) (d : Dir) → P.events_left (P.accept c d).1 ≤ P.events_left c
  pub endpoint_transmit_falls :
      (e : P.Endpoint) (t : P.Transmit)
      → (P.endpoint_poll_transmit e).0 ≡ some t
      → P.endpoint_transmits_left (P.endpoint_poll_transmit e).1 < P.endpoint_transmits_left e

-- `VarInt` holds no number from 2^62 on.
pub record IsVarInt (P : Proto) : Type 0 where
  pub from_above : (n : ℕ) → ¬ (n < 2 ^ 62) → P.varint_from_u64 n ≡ none
