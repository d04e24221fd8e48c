-- ===== src/World/Mpsc/Alive.antt =====
-- The senders of the channels of `std::sync::mpsc`.
use quinn_ffi.Prelude.{
  ℕ, ◌≡◌, ◌≢◌, refl, some, true, List, inl, inr, Option-cases, Bool-cases, ◌==◌, ==_iff, [], ◌∷◌,
  ◌++◌, Dict, lookup, insert, lookup-insert, lookup-insert_self, lookup-insert_ne, arith, ◌∙◌,
  subst,
}
use quinn_ffi.World.{Channel}
use quinn_ffi.World.Mpsc.{new_channel, send_on, try_recv_on, drop_sender, drop_receiver, pop_from}

module _ {A : Type 0} where
  -- The channel is there, and so is its sender.
  abbrev pub IsAlive : ℕ → Dict (Channel A) → Type 0
  IsAlive k d = (c : Channel A) × (lookup k d ≡ some c) × (c.sender_alive ≡ true)

  -- A cell is put in the place of one, with the same sender.
  insert-IsAlive :
      (k j : ℕ) (c c' : Channel A) (d : Dict (Channel A))
      → lookup j d ≡ some c
      → c'.sender_alive ≡ c.sender_alive
      → IsAlive k d
      → IsAlive k (insert j c' d)
  insert-IsAlive k j c c' d h s (x, hx, a) = elim (Bool-cases (j == k)) [
    | inl e ↦ (c', ground (arith, lookup-insert k j c' d), ground (arith, ==_iff j k))
    | inr e ↦ (x, ground (arith, lookup-insert k j c' d), a)
  ]

  pub new_channel-IsAlive : (k : ℕ) (d : Dict (Channel A)) → IsAlive k (new_channel k d)
  unfolding new_channel
  new_channel-IsAlive k d = (_, lookup-insert_self k _ d, refl)

  pub new_channel-IsAlive_ne :
      (k j : ℕ) (d : Dict (Channel A)) → j ≢ k → IsAlive k d → IsAlive k (new_channel j d)
  unfolding new_channel
  new_channel-IsAlive_ne k j d n (c, h, a) = (c, lookup-insert_ne k j _ d n ∙ h, a)

  pub drop_sender-IsAlive :
      (k j : ℕ) (d : Dict (Channel A)) → j ≢ k → IsAlive k d → IsAlive k (drop_sender j d)
  unfolding drop_sender
  drop_sender-IsAlive k j d n (c, h, a) = elim (Option-cases (lookup j d)) [
    | inl e ↦ (c, rw (e, drop_sender) h, a)
    | inr (x, e) ↦ (c, rw (e, drop_sender) (lookup-insert_ne k j _ d n ∙ h), a)
  ]

  pub drop_receiver-IsAlive :
      (k j : ℕ) (d : Dict (Channel A)) → IsAlive k d → IsAlive k (drop_receiver j d)
  unfolding drop_receiver
  drop_receiver-IsAlive k j d a = elim (Option-cases (lookup j d)) [
    | inl e ↦ rw (e, drop_receiver) a
    | inr (x, e) ↦ rw (e, drop_receiver) (insert-IsAlive k j x _ d e refl a)
  ]

  -- Sending and receiving.
  pub send_on-IsAlive :
      (k j : ℕ) (m : A) (d d' : Dict (Channel A))
      → send_on j m d ≡ some d'
      → IsAlive k d
      → IsAlive k d'
  unfolding send_on
  send_on-IsAlive k j m d d' h a = elim (Option-cases (lookup j d)) [
    | inl e ↦ absurd (ground arith)
    | inr (x, e) ↦ elim (Bool-cases x.receiver_alive) [
      | inl r ↦
          let c' = record x { queue = x.queue ++ m ∷ [] } in
          let same : insert j c' d ≡ d' = ground arith in
          subst (IsAlive k) same (insert-IsAlive k j x c' d e refl a)
      | inr r ↦ absurd (ground arith)
    ]
  ]

  pop_from-IsAlive :
      (k j : ℕ) (d : Dict (Channel A)) (c : Channel A) (q : List A)
      → lookup j d ≡ some c
      → IsAlive k d
      → IsAlive k (pop_from j d c q).1
  pop_from-IsAlive k j d c [] e a = a
  pop_from-IsAlive k j d c (m ∷ rest) e a =
      insert-IsAlive k j c (record c { queue = rest }) d e refl a

  pub try_recv_on-IsAlive :
      (k j : ℕ) (d : Dict (Channel A)) → IsAlive k d → IsAlive k (try_recv_on j d).1
  unfolding try_recv_on
  try_recv_on-IsAlive k j d a = elim (Option-cases (lookup j d)) [
    | inl e ↦ rw (e, try_recv_on) a
    | inr (x, e) ↦ rw (e, try_recv_on) (pop_from-IsAlive k j d x x.queue e a)
  ]
