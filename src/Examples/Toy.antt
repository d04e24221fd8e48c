-- ===== src/Examples/Toy.antt =====
-- A small library in the place of `quinn_proto`: every queue is a list.
use quinn_ffi.Prelude.{
  ℕ, ◌<◌, ◌≤◌, ◌≡◌, ◌^◌, refl, ◌⊎◌, inl, inr, Option, none, some, Bool, true, false, List, [], ◌∷◌,
  length, arith, ltb, if◌then◌else◌, bytes, take,
}
use quinn_ffi.Proto.{Proto, IsDraining, IsVarInt, Dir, Event, SocketAddr}

pub record ToyConnection : Type 0 where
  pub timeout : Option ℕ
  pub outgoing : List (List ℕ × SocketAddr)
  pub to_endpoint : List Bool
  pub events : List Event
  pub incoming : List ℕ
  pub unread : List ℕ
  pub finished : Bool
  pub seen : List ℕ

pub record ToyEndpoint : Type 0 where
  pub outgoing : List (List ℕ × SocketAddr)
  pub answers : Option ℕ

abbrev pub quiet : ToyConnection
quiet = record {
  timeout = none;
  outgoing = [];
  to_endpoint = [];
  events = [];
  incoming = [];
  unread = [];
  finished = false;
  seen = [];
}

abbrev first_timeout : ToyConnection → Option ℕ × ToyConnection
first_timeout c = (c.timeout, c)

abbrev first_outgoing :
    ToyConnection → List (List ℕ × SocketAddr) → Option (List ℕ × SocketAddr) × ToyConnection
first_outgoing c [] = (none, c)
first_outgoing c (t ∷ ts) = (some t, record c { outgoing = ts })

abbrev first_to_endpoint : ToyConnection → List Bool → Option Bool × ToyConnection
first_to_endpoint c [] = (none, c)
first_to_endpoint c (e ∷ es) = (some e, record c { to_endpoint = es })

abbrev first_event : ToyConnection → List Event → Option Event × ToyConnection
first_event c [] = (none, c)
first_event c (e ∷ es) = (some e, record c { events = es })

abbrev first_incoming : ToyConnection → List ℕ → Option ℕ × ToyConnection
first_incoming c [] = (none, c)
first_incoming c (s ∷ ss) = (some s, record c { incoming = ss })

abbrev first_sent :
    ToyEndpoint → List (List ℕ × SocketAddr) → Option (List ℕ × SocketAddr) × ToyEndpoint
first_sent e [] = (none, e)
first_sent e (t ∷ ts) = (some t, record e { outgoing = ts })

-- Reading is blocked while nothing is unread, unless the stream is finished.
abbrev first_chunk : ToyConnection → ℕ → List ℕ → (Bool ⊎ Option (List ℕ)) × ToyConnection
first_chunk c len [] = (if c.finished then inr none else inl true, c)
first_chunk c len (b ∷ bs) = (inr (some (take len (b ∷ bs))), record c { unread = [] })

abbrev pub toy : Proto
toy = record {
  Connection = ToyConnection;
  Endpoint = ToyEndpoint;
  ConnectionEvent = ℕ;
  EndpointEvent = Bool;
  Transmit = List ℕ × SocketAddr;
  ClientConfig = ℕ;
  ServerConfig = ℕ;
  ConnectError = ℕ;
  VarInt = ℕ;
  Chunks = ToyConnection;
  ReadError = Bool;
  ReadableError = ℕ;
  WriteError = ℕ;
  contents = λ t. t.0;
  destination = λ t. t.1;
  varint_from_u64 = λ n. if ltb n (2 ^ 62) then some n else none;
  into_inner = λ v. v;
  varint_of_stream = λ s. s;
  stream_of_varint = λ v. v;
  stream_dir = λ s. Dir.bi;
  varint_error_text = bytes "value too large for varint encoding";
  poll_timeout = first_timeout;
  handle_timeout = λ c now. record c { timeout = none };
  poll_transmit = λ c now max. first_outgoing c c.outgoing;
  poll_endpoint_events = λ c. first_to_endpoint c c.to_endpoint;
  poll = λ c. first_event c c.events;
  handle_event = λ c e. record c { seen = e ∷ c.seen };
  ping = λ c. c;
  close = λ c now code reason. record c { events = [] };
  accept = λ c d. first_incoming c c.incoming;
  open_stream = λ c d. (some 4, c);
  finish = λ c s. c;
  write = λ c s bs. (inr (length bs), c);
  write_error_text = λ e. bytes "stopped";
  read = λ c s ordered. inr c;
  next = λ c len. first_chunk c len c.unread;
  finalize = λ c. (false, c);
  readable_error_text = λ e. bytes "unknown stream";
  read_error_text = λ e. bytes "reset";
  is_blocked = λ e. e;
  new_endpoint = λ s. record { outgoing = []; answers = none };
  endpoint_poll_transmit = λ e. first_sent e e.outgoing;
  endpoint_handle_event = λ e handle event. (e.answers, e);
  is_drained = λ e. e;
  connect = λ e config addr name. (inr (0, quiet), e);
  no_default_client_config = 0;
  connect_error_text = λ e. bytes "NoDefaultClientConfig";
  handle = λ e now addr bs. (none, e);
  transmits_left = λ c. length c.outgoing;
  endpoint_events_left = λ c. length c.to_endpoint;
  events_left = λ c. length c.events;
  endpoint_transmits_left = λ e. length e.outgoing;
}

outgoing_falls :
    (c : ToyConnection) (l : List (List ℕ × SocketAddr)) (t : List ℕ × SocketAddr)
    → c.outgoing ≡ l
    → (first_outgoing c l).0 ≡ some t
    → length (first_outgoing c l).1.outgoing < length c.outgoing
outgoing_falls c [] t e h = cc
outgoing_falls c (x ∷ l) t e h = rw e (omega arith)

to_endpoint_falls :
    (c : ToyConnection) (l : List Bool) (t : Bool)
    → c.to_endpoint ≡ l
    → (first_to_endpoint c l).0 ≡ some t
    → length (first_to_endpoint c l).1.to_endpoint < length c.to_endpoint
to_endpoint_falls c [] t e h = cc
to_endpoint_falls c (x ∷ l) t e h = rw e (omega arith)

events_fall :
    (c : ToyConnection) (l : List Event) (t : Event)
    → c.events ≡ l
    → (first_event c l).0 ≡ some t
    → length (first_event c l).1.events < length c.events
events_fall c [] t e h = cc
events_fall c (x ∷ l) t e h = rw e (omega arith)

accept_keeps :
    (c : ToyConnection) (l : List ℕ) → length (first_incoming c l).1.events ≤ length c.events
accept_keeps c [] = omega arith
accept_keeps c (s ∷ ss) = omega arith

sent_falls :
    (c : ToyEndpoint) (l : List (List ℕ × SocketAddr)) (t : List ℕ × SocketAddr)
    → c.outgoing ≡ l
    → (first_sent c l).0 ≡ some t
    → length (first_sent c l).1.outgoing < length c.outgoing
sent_falls c [] t e h = cc
sent_falls c (x ∷ l) t e h = rw e (omega arith)

pub toy-IsDraining : IsDraining toy
toy-IsDraining = record {
  transmit_falls = λ c now max t h. outgoing_falls c c.outgoing t refl h;
  endpoint_event_falls = λ c e h. to_endpoint_falls c c.to_endpoint e refl h;
  event_falls = λ c e h. events_fall c c.events e refl h;
  accept_keeps = λ c d. accept_keeps c c.incoming;
  endpoint_transmit_falls = λ e t h. sent_falls e e.outgoing t refl h;
}

above : (n : ℕ) → ¬ (n < 2 ^ 62) → (if ltb n (2 ^ 62) then some n else none) ≡ none
above n h = ground arith

pub toy-IsVarInt : IsVarInt toy
toy-IsVarInt = record { from_above = above }
