-- ===== src/World/Mpsc.antt =====
-- The operations of `std::sync::mpsc` on a store of channels.
pub mod Fifo
pub mod Alive
use quinn_ffi.Prelude.{
  ℕ, ◌≡◌, ◌≢◌, refl, Option, none, some, Bool, true, false, List, [], ◌∷◌, ◌++◌, Dict, lookup,
  insert, arith, lookup-insert, lookup-insert_self, lookup-insert_ne, if◌then◌else◌, append_assoc,
}
use quinn_ffi.World.{Channel}

-- `Err(TryRecvError::Empty)`, `Err(TryRecvError::Disconnected)` or `Ok`.
pub data Received (A : Type 0) : Type 0 where
  empty disconnected : Received A
  message : A → Received A

module _ {A : Type 0} where
  -- `mpsc::channel()`, under a number of its own.
  unfoldable pub new_channel : ℕ → Dict (Channel A) → Dict (Channel A)
  new_channel k d = insert k (record { queue = []; sender_alive = true; receiver_alive = true }) d

  abbrev pub push_to : ℕ → A → Dict (Channel A) → Channel A → Option (Dict (Channel A))
  push_to k a d c =
      if c.receiver_alive then some (insert k (record c { queue = c.queue ++ a ∷ [] }) d) else none

  -- `sender.send(a)`: fails if the receiver is gone.
  unfoldable pub send_on : ℕ → A → Dict (Channel A) → Option (Dict (Channel A))
  send_on k a d = elim (lookup k d) [ none ↦ none | some c ↦ push_to k a d c ]

  -- The messages that wait in a channel.
  unfoldable pub queue_of : ℕ → Dict (Channel A) → List A
  queue_of k d = elim (lookup k d) [ none ↦ [] | some c ↦ c.queue ]

  -- The receiver is there.
  abbrev pub IsOpen : ℕ → Dict (Channel A) → Type 0
  IsOpen k d = (c : Channel A) × (lookup k d ≡ some c) × (c.receiver_alive ≡ true)

  abbrev pub pop_from : ℕ → Dict (Channel A) → Channel A → List A → Received A × Dict (Channel A)
  pop_from k d c [] = (if c.sender_alive then empty else disconnected, d)
  pop_from k d c (a ∷ rest) = (message a, insert k (record c { queue = rest }) d)

  -- `receiver.try_recv()`.
  unfoldable pub try_recv_on : ℕ → Dict (Channel A) → Received A × Dict (Channel A)
  try_recv_on k d = elim (lookup k d) [ none ↦ (disconnected, d) | some c ↦ pop_from k d c c.queue ]

  -- The last sender, or the receiver, is dropped.
  unfoldable pub drop_sender : ℕ → Dict (Channel A) → Dict (Channel A)
  drop_sender k d = elim (lookup k d) [
    | none ↦ d
    | some c ↦ insert k (record c { sender_alive = false }) d
  ]

  unfoldable pub drop_receiver : ℕ → Dict (Channel A) → Dict (Channel A)
  drop_receiver k d = elim (lookup k d) [
    | none ↦ d
    | some c ↦ insert k (record c { receiver_alive = false; queue = [] }) d
  ]
