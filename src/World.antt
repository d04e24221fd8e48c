-- ===== src/World.antt =====
-- The state that the calls share: the structs of src/proto_impl, the mutexes, channels and boxes
-- that hold them, the statics, the clock, and the memory that the application passes in.
pub mod Mpsc
pub mod Mutex
pub mod Memory
pub mod Clock
pub mod Arcs
pub mod Grows
use quinn_ffi.Prelude.{ℕ, Option, List, Bool, Dict}
use quinn_ffi.ErrorKind.{Text, FfiErrorKind}
use quinn_ffi.Proto.{Proto}
use quinn_ffi.Addr.{IpAddr}

-- An `mpsc` channel: the messages on the way, oldest first, and which ends are alive.
pub record Channel (A : Type 0) : Type 0 where
  pub queue : List A
  pub sender_alive : Bool
  pub receiver_alive : Bool

-- An `Arc<Mutex<A>>`: the count of its references, and the mutex.
pub record Shared (A : Type 0) : Type 0 where
  pub strong : ℕ
  pub locked : Bool
  pub poisoned : Bool
  pub value : A

-- `LastResult` of ffi_result.rs.
pub record LastResult : Type 0 where
  pub last_err : Option FfiErrorKind

-- `ConnectionEvent` of connection.rs.
pub data ConnectionEvent (P : Proto) : Type 0 where
  close : P.VarInt → List ℕ → ConnectionEvent P
  proto : P.ConnectionEvent → ConnectionEvent P
  ping : ConnectionEvent P

-- `EndpointEvent` of endpoint.rs.
pub data EndpointEvent (P : Proto) : Type 0 where
  proto : P.EndpointEvent → EndpointEvent P
  transmit : P.Transmit → EndpointEvent P

-- `ConnectionImpl`; the ends of channels are the channels' numbers.
pub record ConnectionImpl (P : Proto) : Type 0 where
  pub inner : P.Connection
  pub connection_handle : ℕ
  pub connection_events : ℕ
  pub endpoint_events : ℕ
  pub timer_deadline : Option ℕ
  pub last_poll : ℕ
  pub endpoint_poll_notifier : Option ℕ

-- `EndpointImpl`; `connections` maps to senders, `connection_refs` to shared connections.
pub record EndpointImpl (P : Proto) : Type 0 where
  pub id : ℕ
  pub inner : P.Endpoint
  pub endpoint_events_rx : ℕ
  pub endpoint_events_tx : ℕ
  pub endpoint_poll_notifier : Option ℕ
  pub default_client_config : Option P.ClientConfig
  pub connections : Dict ℕ
  pub connection_refs : Dict ℕ

-- `EndpointPoller` with the local variable of its thread.
pub record EndpointPoller : Type 0 where
  pub receiver : ℕ
  pub loop_again : Bool
  pub endpoint_ref : ℕ
  pub spin_counter : ℕ

-- The statics of `callbacks`, one for each event.
pub data Slot : Type 0 where
  new_connection connected connection_lost stream_writable stream_readable stream_finished : Slot
  stream_stopped stream_available datagram_received stream_opened transmit : Slot
  connection_pollable : Slot

-- A call of the application, with the arguments that it gets. Memory that is passed by pointer and
-- length stands as the bytes and the length.
pub data Call : Type 0 where
  on_new_connection : ℕ → ℕ → ℕ → Call
  on_connected : ℕ → Call
  on_connection_lost : ℕ → Text → ℕ → Call
  on_stream_writable : ℕ → ℕ → ℕ → Call
  on_stream_readable : ℕ → ℕ → ℕ → Call
  on_stream_finished : ℕ → ℕ → ℕ → Call
  on_stream_stopped : ℕ → ℕ → ℕ → Call
  on_stream_available : ℕ → ℕ → Call
  on_datagram_received : ℕ → Call
  on_stream_opened : ℕ → ℕ → ℕ → Call
  on_transmit : ℕ → List ℕ → ℕ → IpAddr → Call
  on_connection_pollable : ℕ → Call

pub record World (P : Proto) : Type 0 where
  -- `LAST_RESULT` of the calling thread, and `ENDPOINT_ID`
  pub last_result : Option LastResult
  pub endpoint_id : ℕ
  -- the function that each static holds, and the calls made, oldest first
  pub callbacks : Slot → Option ℕ
  pub calls : List (ℕ × Call)
  -- what the clock shows at each reading, and how often it has been read
  pub clock : ℕ → ℕ
  pub reads : ℕ
  -- the words and the byte buffers of the application, by address; 0 is the null pointer
  pub words : Dict ℕ
  pub buffers : Dict (List ℕ)
  -- the number of the next channel, box or `Arc`
  pub next_id : ℕ
  pub endpoint_events : Dict (Channel (ℕ × EndpointEvent P))
  pub connection_events : Dict (Channel (ConnectionEvent P))
  pub notices : Dict (Channel ℕ)
  -- what `Box::into_raw` gave, by address, and the contents of the `Arc`s
  pub endpoint_boxes : Dict ℕ
  pub connection_boxes : Dict ℕ
  pub client_configs : Dict (Shared P.ClientConfig)
  pub server_configs : Dict (Shared P.ServerConfig)
  pub endpoints : Dict (Shared (EndpointImpl P))
  pub connections : Dict (Shared (ConnectionImpl P))
  -- the state that the crate tracing keeps: which subscriber is the global default
  pub dispatch : ℕ
  -- the threads that `start_polling` has started
  pub pollers : List EndpointPoller
