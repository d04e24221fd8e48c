-- ===== src/World/Mpsc/Fifo.antt =====
-- The order of the messages in a channel of `std::sync::mpsc`.
use quinn_ffi.Prelude.{
  true, false, Dict, List, Option, Option-cases, [], append-nil, append_assoc, arith, if◌then◌else◌,
  inl, inr, insert, lookup, lookup-insert_ne, lookup-insert_self, none, refl, some, sym, ℕ, ◌++◌,
  ◌∙◌, ◌∷◌, ◌≡◌, ◌≢◌, ◌⊎◌,
}
use quinn_ffi.World.{Channel}
use quinn_ffi.World.Mpsc.{
  new_channel, drop_sender, send_on, queue_of, try_recv_on, Received, empty, disconnected, message,
  IsOpen,
}

module _ {A : Type 0} where
  abbrev push_cell : ℕ → A → Dict (Channel A) → Option (Channel A) → Dict (Channel A)
  push_cell k a d none = d
  push_cell k a d (some c) = insert k (record c { queue = c.queue ++ a ∷ [] }) d

  -- The store with one message more, and with many, in a channel that is there.
  pub push : ℕ → A → Dict (Channel A) → Dict (Channel A)
  push k a d = push_cell k a d (lookup k d)

  unfoldable pub push_all : ℕ → List A → Dict (Channel A) → Dict (Channel A)
  push_all k [] d = d
  push_all k (a ∷ as') d = push_all k as' (push k a d)

  pub send_on-push :
      (k : ℕ) (a : A) (d : Dict (Channel A)) → IsOpen k d → send_on k a d ≡ some (push k a d)
  unfolding send_on push
  send_on-push k a d (c, h, o) = ground arith

  pub push-IsOpen : (k : ℕ) (a : A) (d : Dict (Channel A)) → IsOpen k d → IsOpen k (push k a d)
  unfolding push
  push-IsOpen k a d (c, h, o) =
      (record c { queue = c.queue ++ a ∷ [] }, rw h (lookup-insert_self k _ d), o)

  queue-push :
      (k : ℕ) (a : A) (d : Dict (Channel A))
      → IsOpen k d
      → queue_of k (push k a d) ≡ queue_of k d ++ a ∷ []
  unfolding queue_of push
  queue-push k a d (c, h, o) =
      ground (arith, lookup-insert_self k (record c { queue = c.queue ++ a ∷ [] }) d)

  -- What is sent waits behind what was there, in order.
  pub queue-push_all :
      (k : ℕ) (xs : List A) (d : Dict (Channel A))
      → IsOpen k d
      → queue_of k (push_all k xs d) ≡ queue_of k d ++ xs
  unfolding push_all
  queue-push_all k [] d h = sym (append-nil (queue_of k d))
  queue-push_all k (a ∷ xs) d h =
      queue-push_all k xs (push k a d) (push-IsOpen k a d h)
      ∙ (rw (queue-push k a d h) (append_assoc (queue_of k d) (a ∷ []) xs))

  pub push_all-IsOpen :
      (k : ℕ) (xs : List A) (d : Dict (Channel A)) → IsOpen k d → IsOpen k (push_all k xs d)
  unfolding push_all
  push_all-IsOpen k [] d h = h
  push_all-IsOpen k (a ∷ xs) d h = push_all-IsOpen k xs (push k a d) (push-IsOpen k a d h)

  queue-push_ne :
      (k j : ℕ) (a : A) (d : Dict (Channel A)) → k ≢ j → queue_of j (push k a d) ≡ queue_of j d
  unfolding queue_of push
  queue-push_ne k j a d h = elim (Option-cases (lookup k d)) [
    | inl e ↦ rw (e, push)
    | inr (c, e) ↦
        rw (e, push)
          (ground (arith, lookup-insert_ne j k (record c { queue = c.queue ++ a ∷ [] }) d h))
  ]

  -- Other channels stay as they were.
  pub queue-push_all_ne :
      (k j : ℕ) (xs : List A) (d : Dict (Channel A))
      → k ≢ j
      → queue_of j (push_all k xs d) ≡ queue_of j d
  unfolding push_all
  queue-push_all_ne k j [] d h = refl
  queue-push_all_ne k j (a ∷ xs) d h =
      queue-push_all_ne k j xs (push k a d) h ∙ queue-push_ne k j a d h

  -- What `try_recv` finds: nothing waits and nothing changes, or the oldest message is taken.
  pub data Found (k : ℕ) (d : Dict (Channel A)) : Type 0 where
    nothing :
        queue_of k d ≡ []
        → (r : Received A) → (r ≡ empty) ⊎ (r ≡ disconnected)
        → try_recv_on k d ≡ (r, d)
        → Found k d
    oldest :
        (a : A) (rest : List A) (d' : Dict (Channel A))
        → queue_of k d ≡ a ∷ rest
        → try_recv_on k d ≡ (message a, d')
        → queue_of k d' ≡ rest
        → Found k d

  Found-in :
      (k : ℕ) (d : Dict (Channel A)) (c : Channel A) (q : List A)
      → lookup k d ≡ some c
      → c.queue ≡ q
      → Found k d
  unfolding queue_of try_recv_on
  Found-in k d c [] h e =
      nothing (ground arith) (if c.sender_alive then empty else disconnected) (ground arith)
        (ground arith)
  Found-in k d c (a ∷ rest) h e =
      oldest a rest (insert k (record c { queue = rest }) d) (ground arith) (ground arith)
        (ground (arith, lookup-insert_self k (record c { queue = rest }) d))

  pub try_recv_on-Found : (k : ℕ) (d : Dict (Channel A)) → Found k d
  unfolding queue_of try_recv_on
  try_recv_on-Found k d = elim (Option-cases (lookup k d)) [
    | inl e ↦ nothing (ground arith) disconnected (inr refl) (ground arith)
    | inr (c, e) ↦ Found-in k d c c.queue e refl
  ]

  -- A channel just made, and one with nothing in it.
  abbrev pub fresh : Channel A
  fresh = record { queue = []; sender_alive = true; receiver_alive = true }

  pub recv-push-fresh :
      (k : ℕ) (m : A) (d : Dict (Channel A))
      → lookup k d ≡ some fresh
      → (try_recv_on k (push k m d)).0 ≡ message m
  unfolding try_recv_on push
  recv-push-fresh k m d h = ground (
    arith,
    lookup-insert_self k (record { queue = m ∷ []; sender_alive = true; receiver_alive = true }) d,
  )

  pub new_channel-fresh : (k : ℕ) (d : Dict (Channel A)) → lookup k (new_channel k d) ≡ some fresh
  unfolding new_channel
  new_channel-fresh k d = lookup-insert_self k fresh d

  pub drop_sender-fresh :
      (k j : ℕ) (d : Dict (Channel A))
      → j ≢ k
      → lookup k d ≡ some fresh
      → lookup k (drop_sender j d) ≡ some fresh
  unfolding drop_sender
  drop_sender-fresh k j d n h = elim (Option-cases (lookup j d)) [
    | inl e ↦ rw (e, drop_sender) h
    | inr (c, e) ↦
        rw (e, drop_sender) (lookup-insert_ne k j (record c { sender_alive = false }) d n ∙ h)
  ]
