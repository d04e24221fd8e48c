-- ===== src/World/Mutex/Laws.antt =====
-- What a lock does to its cell, for each end of the code that holds it.
use quinn_ffi.Prelude.{ℕ, ◌≡◌, refl, none, some, true, false, Dict, lookup, insert, arith}
use quinn_ffi.Effect.{M, Exit, panic, hang, undefined}
use quinn_ffi.World.{Shared}
use quinn_ffi.World.Mutex.{with_lock, with_try_lock, guarded, release, poison_panic}

module _ {S A : Type 0} (get : S → Dict (Shared A)) (put : S → Dict (Shared A) → S) where
  pub with_lock-poisoned :
      {B : Type 0} (k : ℕ) (body : M (A × S) B) (c : Shared A) (s : S)
      → lookup k (get s) ≡ some c
      → c.locked ≡ false
      → c.poisoned ≡ true
      → with_lock get put k body s ≡ (panic poison_panic, s)
  unfolding with_lock
  with_lock-poisoned k body c s h l p = rw (h, l, p)

  pub with_lock-locked :
      {B : Type 0} (k : ℕ) (body : M (A × S) B) (c : Shared A) (s : S)
      → lookup k (get s) ≡ some c
      → c.locked ≡ true
      → with_lock get put k body s ≡ (hang, s)
  unfolding with_lock
  with_lock-locked k body c s h l = rw (h, l)

  pub with_lock-guarded :
      {B : Type 0} (k : ℕ) (body : M (A × S) B) (c : Shared A) (s : S)
      → lookup k (get s) ≡ some c
      → c.locked ≡ false
      → c.poisoned ≡ false
      → with_lock get put k body s ≡ guarded get put k body c s
  unfolding with_lock
  with_lock-guarded k body c s h l p = rw (h, l, p, with_lock) refl

  pub with_lock-none :
      {B : Type 0} (k : ℕ) (body : M (A × S) B) (s : S)
      → lookup k (get s) ≡ none
      → with_lock get put k body s ≡ (undefined, s)
  unfolding with_lock
  with_lock-none k body s h = rw h

  -- The body runs on the value, with the cell locked, and the cell gets the value back.
  pub with_lock-runs :
      {B : Type 0} (k : ℕ) (body : M (A × S) B) (c c' : Shared A) (e : Exit B) (a : A) (s s' : S)
      → lookup k (get s) ≡ some c
      → c.locked ≡ false
      → c.poisoned ≡ false
      → body (c.value, put s (insert k (record c { locked = true }) (get s))) ≡ (e, (a, s'))
      → lookup k (get s') ≡ some c'
      → with_lock get put k body s ≡ (e, put s' (insert k (release e a c') (get s')))
  unfolding with_lock guarded
  with_lock-runs k body c c' e a s s' h l p r h' = ground arith

  -- `try_lock` in each case.
  pub with_try_lock-locked :
      {B : Type 0} (k : ℕ) (body : M (A × S) B) (would_block poisoned : M S B) (c : Shared A)
      (s : S)
      → lookup k (get s) ≡ some c
      → c.locked ≡ true
      → with_try_lock get put k body would_block poisoned s ≡ would_block s
  unfolding with_try_lock
  with_try_lock-locked k body would_block poisoned c s h l = rw (h, l)

  pub with_try_lock-poisoned :
      {B : Type 0} (k : ℕ) (body : M (A × S) B) (would_block poisoned : M S B) (c : Shared A)
      (s : S)
      → lookup k (get s) ≡ some c
      → c.locked ≡ false
      → c.poisoned ≡ true
      → with_try_lock get put k body would_block poisoned s ≡ poisoned s
  unfolding with_try_lock
  with_try_lock-poisoned k body would_block poisoned c s h l p = rw (h, l, p)

  pub with_try_lock-free :
      {B : Type 0} (k : ℕ) (body : M (A × S) B) (would_block poisoned : M S B) (c : Shared A)
      (s : S)
      → lookup k (get s) ≡ some c
      → c.locked ≡ false
      → c.poisoned ≡ false
      → with_try_lock get put k body would_block poisoned s ≡ with_lock get put k body s
  unfolding with_try_lock with_lock
  with_try_lock-free k body would_block poisoned c s h l p = rw (h, l, p) refl

  pub with_try_lock-none :
      {B : Type 0} (k : ℕ) (body : M (A × S) B) (would_block poisoned : M S B) (s : S)
      → lookup k (get s) ≡ none
      → with_try_lock get put k body would_block poisoned s ≡ (undefined, s)
  unfolding with_try_lock
  with_try_lock-none k body would_block poisoned s h = rw h

  -- How the code under a lock ends is how its body ends.
  pub with_try_lock-exit :
      {B : Type 0} (k : ℕ) (body : M (A × S) B) (would_block poisoned : M S B) (c : Shared A)
      (s : S)
      → lookup k (get s) ≡ some c
      → c.locked ≡ false
      → c.poisoned ≡ false
      → (with_try_lock get put k body would_block poisoned s).0
        ≡ (body (c.value, put s (insert k (record c { locked = true }) (get s)))).0
  unfolding with_try_lock guarded
  with_try_lock-exit k body would_block poisoned c s h l p = rw (h, l, p) refl

  pub with_try_lock-guarded :
      {B : Type 0} (k : ℕ) (body : M (A × S) B) (would_block poisoned : M S B) (c : Shared A)
      (s : S)
      → lookup k (get s) ≡ some c
      → c.locked ≡ false
      → c.poisoned ≡ false
      → with_try_lock get put k body would_block poisoned s ≡ guarded get put k body c s
  unfolding with_try_lock
  with_try_lock-guarded k body would_block poisoned c s h l p = rw (h, l, p) refl
