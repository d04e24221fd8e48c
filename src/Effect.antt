-- ===== src/Effect.antt =====
-- Code that changes a state and may return an error, panic, wait or misbehave.
pub mod Laws
use quinn_ffi.Prelude.{Option, none, some, Bool, if◌then◌else◌}
use quinn_ffi.ErrorKind.{Text, FfiErrorKind}

-- The payload of a panic: `String`, `&'static str` or another type.
pub data Payload : Type 0 where
  string : Text → Payload
  str : Text → Payload
  other : Payload

-- How a call ends. `err` is the early return of a `Result` through `?`; `hang` is a call that does
-- not return (it waits for a lock that is held, or its loop has no end within its bound);
-- `undefined` is undefined behaviour.
pub data Exit {ℓ} (A : Type ℓ) : Type ℓ where
  ok : A → Exit A
  err : FfiErrorKind → Exit A
  panic : Payload → Exit A
  hang : Exit A
  undefined : Exit A

-- Code over a state `S`.
abbrev pub M : Type 0 → Type 0 → Type 0
M S A = S → Exit A × S

abbrev pub bind_exit : {S A B : Type 0} → (A → M S B) → Exit A → M S B
bind_exit f (ok a) s = f a s
bind_exit f (err e) s = (err e, s)
bind_exit f (panic p) s = (panic p, s)
bind_exit f hang s = (hang, s)
bind_exit f undefined s = (undefined, s)

infixl 5 ◌>>=◌ ◌>>◌
abbrev pub ◌>>=◌ : {S A B : Type 0} → M S A → (A → M S B) → M S B
◌>>=◌ m f s = let (e, s') = m s in bind_exit f e s'

abbrev pub ◌>>◌ : {S B : Type 0} → M S (Unit {0}) → M S B → M S B
m >> k = m >>= λ _. k

module _ {S A : Type 0} where
  abbrev pub pure : A → M S A
  pure a s = (ok a, s)

  abbrev pub raise : FfiErrorKind → M S A
  raise e s = (err e, s)

  abbrev pub throw : Payload → M S A
  throw p s = (panic p, s)

  abbrev pub never : M S A
  never s = (hang, s)

  abbrev pub misbehave : M S A
  misbehave s = (undefined, s)

  abbrev pub gets : (S → A) → M S A
  gets f s = (ok (f s), s)

  -- A step that gives a value and the next state.
  abbrev pub state : (S → A × S) → M S A
  state f s = let (a, s') = f s in (ok a, s')

  -- `option.unwrap()`.
  abbrev pub unwrap : Payload → Option A → M S A
  unwrap p none = throw p
  unwrap p (some a) = pure a

abbrev pub modify : {S : Type 0} → (S → S) → M S (Unit {0})
modify f s = (ok tt, f s)

abbrev pub discard : {A : Type 0} → Exit A → Exit (Unit {0})
discard (ok a) = ok tt
discard (err e) = ok tt
discard (panic p) = panic p
discard hang = hang
discard undefined = undefined

-- `let _ = m`: a `Result` that is not looked at.
abbrev pub ignore : {S A : Type 0} → M S A → M S (Unit {0})
ignore m s = let (e, s') = m s in (discard e, s')

-- Code over the second part of a state.
abbrev pub lift : {R S A : Type 0} → M S A → M (R × S) A
lift m (r, s) = let (e, s') = m s in (e, (r, s'))

-- The state is left alone, whatever the end.
abbrev pub when : {S : Type 0} → Bool → M S (Unit {0}) → M S (Unit {0})
when b m = if b then m else pure tt
