-- ===== src/Callbacks/Latest.antt =====
-- Which function the application hears an event by, after any calls of the setters.
use quinn_ffi.Prelude.{
  ℕ, ◌≡◌, refl, ap, sym, ◌∙◌, Option, none, some, true, List, [], ◌∷◌, ◌++◌, ◌==◌, ==_iff, ==-refl,
  if◌then◌else◌, Bool-cases, Option-cases, inl, inr,
}
use mathlib.Core.Logic.{ite, if_pos, if_neg}
use quinn_ffi.Effect.{Exit, ok, undefined}
use quinn_ffi.Proto.{Proto}
use quinn_ffi.World.{World, Slot, Call}
use quinn_ffi.Callbacks.{invoke, set_callback, slot_of, slot_index}

slot_at : ℕ → Slot
slot_at n =
    if n == 0
    then Slot.new_connection
    else if n == 1
    then Slot.connected
    else if n == 2
    then Slot.connection_lost
    else if n == 3
    then Slot.stream_writable
    else if n == 4
    then Slot.stream_readable
    else if n == 5
    then Slot.stream_finished
    else if n == 6
    then Slot.stream_stopped
    else if n == 7
    then Slot.stream_available
    else if n == 8
    then Slot.datagram_received
    else if n == 9
    then Slot.stream_opened
    else if n == 10
    then Slot.transmit
    else Slot.connection_pollable

slot_at-slot_index : (s : Slot) → slot_at (slot_index s) ≡ s
unfolding slot_at
slot_at-slot_index Slot.new_connection = refl
slot_at-slot_index Slot.connected = refl
slot_at-slot_index Slot.connection_lost = refl
slot_at-slot_index Slot.stream_writable = refl
slot_at-slot_index Slot.stream_readable = refl
slot_at-slot_index Slot.stream_finished = refl
slot_at-slot_index Slot.stream_stopped = refl
slot_at-slot_index Slot.stream_available = refl
slot_at-slot_index Slot.datagram_received = refl
slot_at-slot_index Slot.stream_opened = refl
slot_at-slot_index Slot.transmit = refl
slot_at-slot_index Slot.connection_pollable = refl

slot_index_inj : (s t : Slot) → (slot_index s == slot_index t) ≡ true → s ≡ t
slot_index_inj s t h =
    sym (slot_at-slot_index s)
    ∙ ap slot_at ((==_iff (slot_index s) (slot_index t)).0 h)
    ∙ slot_at-slot_index t

pub Slot-discrete : Discrete Slot
Slot-discrete = hlevel

-- The function that the last entry for the slot has, or else the one from before.
abbrev pub latest : Slot → List (Slot × ℕ) → Option ℕ → Option ℕ
latest s [] before = before
latest s ((t, f) ∷ sets) before = latest s sets (ite (Slot-discrete t s) (some f) before)

module _ {P : Proto} where
  -- The setters are called one after the other.
  unfoldable pub set_callbacks : List (Slot × ℕ) → World P → World P
  set_callbacks [] w = w
  set_callbacks ((s, f) ∷ sets) w = set_callbacks sets (set_callback s f w)

  set_callback-static :
      (s t : Slot) (f : ℕ) (w : World P)
      → (set_callback t f w).callbacks s ≡ ite (Slot-discrete t s) (some f) (w.callbacks s)
  unfolding set_callback
  set_callback-static s t f w = elim (Slot-discrete t s) [
    | yes e ↦ rw (if_pos _ e) (rw e (rw (==-refl (slot_index s)) refl))
    | no n ↦ rw (if_neg _ n) (elim (Bool-cases (slot_index t == slot_index s)) [
      | inl h ↦ absurd (n (slot_index_inj t s h))
      | inr h ↦ rw h refl
    ])
  ]

  pub set_callbacks-static :
      (s : Slot) (sets : List (Slot × ℕ)) (w : World P)
      → (set_callbacks sets w).callbacks s ≡ latest s sets (w.callbacks s)
  unfolding set_callbacks
  set_callbacks-static s [] w = refl
  set_callbacks-static s ((t, f) ∷ sets) w =
      set_callbacks-static s sets (set_callback t f w)
      ∙ ap (latest s sets) (set_callback-static s t f w)

  pub set_callbacks-calls :
      (sets : List (Slot × ℕ)) (w : World P) → (set_callbacks sets w).calls ≡ w.calls
  unfolding set_callbacks set_callback
  set_callbacks-calls [] w = refl
  set_callbacks-calls ((t, f) ∷ sets) w = set_callbacks-calls sets (set_callback t f w)

  -- Invoking a callback with the function that is set, if one is.
  abbrev pub called : Call → Option ℕ → World P → Exit (Unit {0}) × World P
  called call none w = (undefined, w)
  called call (some f) w = (ok tt, record w { calls = w.calls ++ (f, call) ∷ [] })

  pub invoke-called :
      (call : Call) (w : World P) → invoke call w ≡ called call (w.callbacks (slot_of call)) w
  unfolding invoke
  invoke-called call w = elim (Option-cases (w.callbacks (slot_of call))) [
    | inl e ↦ rw (e, invoke) refl
    | inr (f, e) ↦ rw (e, invoke) refl
  ]
