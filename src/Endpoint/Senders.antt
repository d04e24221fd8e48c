-- ===== src/Endpoint/Senders.antt =====
-- The map of senders of an endpoint: what every method keeps of it.
pub mod Methods
pub mod Polled
use quinn_ffi.Prelude.{
  ℕ, zero, suc, ◌+◌, ◌<◌, ◌≤◌, ◌≡◌, ◌≢◌, refl, ◌∙◌, sym, ap, subst, none, some, inl, inr, ◌⊎◌,
  Option, Bool, Bool-cases, ◌==◌, ==_iff, arith, [], ◌∷◌, Dict, lookup, insert, erase,
  lookup-insert, lookup-erase, List,
}
use quinn_ffi.ErrorKind.{Text}
use quinn_ffi.Effect.{M, ok, lift, ignore, gets, unwrap, when, Exit, err, panic, hang, undefined}
use quinn_ffi.Effect.Laws.{Preserves, >>=-Preserves, when-Preserves}
use quinn_ffi.Proto.{Proto, SocketAddr}
use quinn_ffi.World.{World, EndpointImpl, ConnectionImpl, ConnectionEvent, EndpointEvent, Channel}
use quinn_ffi.World.Mpsc.{
  new_channel, drop_sender, try_recv_on, Received, empty, disconnected, message,
}
use quinn_ffi.World.Mpsc.Alive.{
  IsAlive, new_channel-IsAlive, new_channel-IsAlive_ne, drop_sender-IsAlive,
}
use quinn_ffi.World.Grows.{
  Grows, Grows-refl, Grows-same, on_transmit-Grows, send_connection_event-Grows,
}
use quinn_ffi.World.Clock.{now}
use quinn_ffi.Sending.{none_panic, send_connection_event}
use quinn_ffi.Connection.{new_connection}
use quinn_ffi.Endpoint.{
  Endp, self, inner, new_endpoint, drop_connection_sender, insert_sender, remove_sender,
  connection_channel, add_connection, forward_event_to_connection,
}

erased :
    (h handle k : ℕ) (d : Dict ℕ)
    → lookup h (erase handle d) ≡ some k
    → (handle ≢ h) × (lookup h d ≡ some k)
erased h handle k d q = elim (Bool-cases (handle == h)) [
  | inl e ↦ absurd (ground (arith, lookup-erase h handle d))
  | inr e ↦ (ground arith, ground (arith, lookup-erase h handle d))
]

inserted :
    (h handle n k : ℕ) (d : Dict ℕ)
    → lookup h (insert handle n d) ≡ some k
    → ((handle ≡ h) × (n ≡ k)) ⊎ ((handle ≢ h) × (lookup h d ≡ some k))
inserted h handle n k d q = elim (Bool-cases (handle == h)) [
  | inl e ↦ inl (ground arith, ground (arith, lookup-insert h handle n d))
  | inr e ↦ inr (ground arith, ground (arith, lookup-insert h handle n d))
]

module _ {P : Proto} where
  -- Each sender of the map is alive, its number is used up, and no two handles share one.
  pub record IsWf (s : EndpointImpl P × World P) : Type 0 where
    pub alive : (h k : ℕ) → lookup h s.0.connections ≡ some k → IsAlive k s.1.connection_events
    pub below : (h k : ℕ) → lookup h s.0.connections ≡ some k → k < s.1.next_id
    pub distinct :
        (h h' k : ℕ)
        → lookup h s.0.connections ≡ some k
        → lookup h' s.0.connections ≡ some k
        → h ≡ h'

  -- The map is as it was, and the shared state took nothing away.
  pub IsWf-Grows :
      (s s' : EndpointImpl P × World P)
      → s'.0.connections ≡ s.0.connections
      → Grows s.1 s'.1
      → IsWf s
      → IsWf s'
  IsWf-Grows s s' e (l, g) i =
      let back : (h k : ℕ)
          → lookup h s'.0.connections ≡ some k
          → lookup h s.0.connections ≡ some k =
        λ h k q. ap (lookup h) (sym e) ∙ q in
      record {
        alive = λ h k q. g k (i.alive h k (back h k q));
        below = λ h k q. let b = i.below h k (back h k q) in omega arith;
        distinct = λ h h' k q q'. i.distinct h h' k (back h k q) (back h' k q');
      }

  pub IsWf-none : (e : EndpointImpl P) (w : World P) → e.connections ≡ [] → IsWf (e, w)
  unfolding lookup
  IsWf-none e w n =
      let never_found : (h k : ℕ) → lookup h e.connections ≢ some k = λ h k q. ground arith in
      record {
        alive = λ h k q. absurd (never_found h k q);
        below = λ h k q. absurd (never_found h k q);
        distinct = λ h h' k q q'. absurd (never_found h k q);
      }

  dropped-IsAlive :
      (k : ℕ) (before : Option ℕ) (w : World P)
      → before ≢ some k
      → IsAlive k w.connection_events
      → IsAlive k (drop_connection_sender before w).connection_events
  unfolding drop_connection_sender
  dropped-IsAlive k none w n a = a
  dropped-IsAlive k (some j) w n a =
      drop_sender-IsAlive k j w.connection_events (λ e. n (ap {B = Option ℕ} some e)) a

  dropped-next_id :
      (before : Option ℕ) (w : World P) → (drop_connection_sender before w).next_id ≡ w.next_id
  unfolding drop_connection_sender
  dropped-next_id none w = refl
  dropped-next_id (some k) w = refl

  pub remove_sender-IsWf : (handle : ℕ) → Preserves IsWf (remove_sender handle)
  unfolding remove_sender
  remove_sender-IsWf handle (e, w) i = record {
    alive = λ h k q.
        let (n, q') = erased h handle k e.connections q in
        dropped-IsAlive k (lookup handle e.connections) w (λ p. n (i.distinct handle h k p q'))
          (i.alive h k q');
    below = λ h k q.
        let (n, q') = erased h handle k e.connections q in
        subst (λ m. k < m) (sym (dropped-next_id (lookup handle e.connections) w)) (i.below h k q');
    distinct = λ h h' k q q'.
        i.distinct h h' k (erased h handle k e.connections q).1
          (erased h' handle k e.connections q').1;
  }

  -- A sender with an unused number is put into the map, and the one that it replaces is dropped.
  insert_sender-IsWf :
      (handle n : ℕ) (e : EndpointImpl P) (w : World P)
      → IsWf (e, w)
      → ((h k : ℕ) → lookup h e.connections ≡ some k → k < n)
      → IsAlive n w.connection_events
      → n < w.next_id
      → IsWf (insert_sender handle n (e, w)).1
  unfolding insert_sender
  insert_sender-IsWf handle n e w i lower a l =
      let before = lookup handle e.connections in
      let fresh : before ≢ some n = λ p. let b = lower handle n p in absurd (omega arith) in
      record {
        alive = λ h k q. elim (inserted h handle n k e.connections q) [
          | inl (p, r) ↦
              subst (λ m. IsAlive m (drop_connection_sender before w).connection_events) r
                (dropped-IsAlive n before w fresh a)
          | inr (p, q') ↦
              dropped-IsAlive k before w (λ b. p (i.distinct handle h k b q')) (i.alive h k q')
        ];
        below = λ h k q.
            subst (λ m. k < m) (sym (dropped-next_id before w))
              (elim (inserted h handle n k e.connections q) [
                | inl (p, r) ↦ omega arith
                | inr (p, q') ↦ i.below h k q'
              ]);
        distinct = λ h h' k q q'. elim (inserted h handle n k e.connections q) [
          | inl (p, r) ↦ elim (inserted h' handle n k e.connections q') [
            | inl (p', r') ↦ sym p ∙ p'
            | inr (p', r') ↦ let b = lower h' k r' in absurd (omega arith)
          ]
          | inr (p, r) ↦ elim (inserted h' handle n k e.connections q') [
            | inl (p', r') ↦ let b = lower h k r in absurd (omega arith)
            | inr (p', r') ↦ i.distinct h h' k r r'
          ]
        ];
      }

  pub new_endpoint-IsWf :
      (i : P.Endpoint) (e : EndpointImpl P) (w w' : World P)
      → new_endpoint i w ≡ (ok e, w')
      → IsWf (e, w')
  unfolding new_endpoint
  new_endpoint-IsWf i e w w' h = IsWf-none e w' (ground arith)

  pub add_connection-IsWf :
      (handle : ℕ) (conn : P.Connection) → Preserves IsWf (add_connection handle conn)
  unfolding add_connection connection_channel new_connection now insert_sender
  add_connection-IsWf handle conn (e, w) i =
      let n = w.next_id in
      let w₁ : World P = record w {
        connection_events = new_channel n w.connection_events;
        next_id = n + 1;
      } in
      let i₁ : IsWf (e, w₁) = record {
        alive = λ h k q.
            let b = i.below h k q in
            new_channel-IsAlive_ne k n w.connection_events (omega arith) (i.alive h k q);
        below = λ h k q. let b = i.below h k q in omega arith;
        distinct = i.distinct;
      } in
      let done = insert_sender handle n (e, w₁) in
      IsWf-Grows done.1 (add_connection handle conn (e, w)).1 refl
        (Grows-same done.1.1 (add_connection handle conn (e, w)).1.1 refl refl)
        (insert_sender-IsWf handle n e w₁ i₁ i.below (new_channel-IsAlive n w.connection_events)
          (omega arith))
