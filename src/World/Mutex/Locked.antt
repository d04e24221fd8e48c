-- ===== src/World/Mutex/Locked.antt =====
-- What a lock preserves: a property that does not read what is in a cell, only how often the cell is
-- referred to.
use quinn_ffi.Prelude.{
  ℕ, ◌≡◌, refl, Option, none, some, inl, inr, Option-cases, Bool-cases, lookup, insert, true, Dict,
}
use quinn_ffi.Effect.{M, Exit}
use quinn_ffi.Effect.Laws.{Preserves}
use quinn_ffi.World.{Shared}
use quinn_ffi.World.Mutex.{with_lock, with_try_lock, guarded, settle, release}
use quinn_ffi.World.Mutex.Laws.{
  with_lock-none, with_lock-guarded, with_lock-locked, with_lock-poisoned, with_try_lock-none,
  with_try_lock-locked, with_try_lock-poisoned, with_try_lock-guarded,
}

-- A cell can be replaced by one with the same count.
abbrev pub AllowsWrites :
    {S A : Type 0} → (S → Dict (Shared A)) → (S → Dict (Shared A) → S) → (S → Type 0) → Type 0
AllowsWrites {S} {A} get put I =
    (k : ℕ) (c c' : Shared A) (s : S)
    → lookup k (get s) ≡ some c
    → c'.strong ≡ c.strong
    → I s
    → I (put s (insert k c' (get s)))

module _ {S A : Type 0} (get : S → Dict (Shared A)) (put : S → Dict (Shared A) → S) (I : S → Type 0)
    (writes : AllowsWrites get put I) where
  settle-Preserves :
      {B : Type 0} (k : ℕ) (x : Exit B) (c : A) (s : S) (o : Option (Shared A))
      → lookup k (get s) ≡ o
      → I s
      → I (settle get put k x c s o)
  settle-Preserves k x c s none l i = i
  settle-Preserves k x c s (some cell) l i = writes k cell (release x c cell) s l refl i

  guarded-Preserves :
      {B : Type 0} (k : ℕ) (body : M (A × S) B) (cell : Shared A) (s : S)
      → Preserves (λ t. I t.1) body
      → lookup k (get s) ≡ some cell
      → I s
      → I (guarded get put k body cell s).1
  unfolding guarded
  guarded-Preserves k body cell s h l i =
      let held : S = put s (insert k (record cell { locked = true }) (get s)) in
      let (x, (c, s')) = body (cell.value, held) in
      settle-Preserves k x c s' (lookup k (get s')) refl
        (h (cell.value, held) (writes k cell (record cell { locked = true }) s l refl i))

  pub tried-Preserves :
      {B : Type 0} (k : ℕ) (body : M (A × S) B) (skipped : M S B)
      → Preserves (λ t. I t.1) body
      → Preserves I skipped
      → Preserves I (with_try_lock get put k body skipped skipped)
  tried-Preserves k body skipped h g s i = elim (Option-cases (lookup k (get s))) [
    | inl e ↦ rw (with_try_lock-none get put k body skipped skipped s e) i
    | inr (c, e) ↦ elim (Bool-cases c.locked) [
      | inl l ↦ rw (with_try_lock-locked get put k body skipped skipped c s e l) (g s i)
      | inr l ↦ elim (Bool-cases c.poisoned) [
        | inl f ↦ rw (with_try_lock-poisoned get put k body skipped skipped c s e l f) (g s i)
        | inr f ↦
            rw (with_try_lock-guarded get put k body skipped skipped c s e l f)
              (guarded-Preserves k body c s h e i)
      ]
    ]
  ]

  -- A lock that is waited for, and unwrapped.
  pub locked-Preserves :
      {B : Type 0} (k : ℕ) (body : M (A × S) B)
      → Preserves (λ t. I t.1) body
      → Preserves I (with_lock get put k body)
  locked-Preserves k body h s i = elim (Option-cases (lookup k (get s))) [
    | inl e ↦ rw (with_lock-none get put k body s e) i
    | inr (c, e) ↦ elim (Bool-cases c.locked) [
      | inl l ↦ rw (with_lock-locked get put k body c s e l) i
      | inr l ↦ elim (Bool-cases c.poisoned) [
        | inl f ↦ rw (with_lock-poisoned get put k body c s e l f) i
        | inr f ↦
            rw (with_lock-guarded get put k body c s e l f) (guarded-Preserves k body c s h e i)
      ]
    ]
  ]
