-- ===== src/Api/Laws.antt =====
-- The null checks and the boundary of `safe-api`.
use quinn_ffi.Prelude.{
  ◌≡◌, refl, Option, none, some, Bool, true, false, List, [], ◌∷◌, if◌then◌else◌,
}
use quinn_ffi.ErrorKind.{Text, io_error}
use quinn_ffi.Effect.{M, ok}
use quinn_ffi.Proto.{Proto}
use quinn_ffi.World.{World}
use quinn_ffi.FfiResult.{FfiResult, argument_null, set_last, catch, context}
use quinn_ffi.FfiResult.Laws.{catch-ok}
use quinn_ffi.Api.{safe_ffi, null_checks}

-- The name of the first argument that is null.
abbrev pub first_null : List (Text × Bool) → Option Text
first_null [] = none
first_null ((name, null) ∷ rest) = if null then some name else first_null rest

module _ {P : Proto} where
  null_checks-none :
      (args : List (Text × Bool)) (body : M (World P) FfiResult)
      → first_null args ≡ none
      → null_checks args body ≡ body
  unfolding null_checks
  null_checks-none [] body h = refl
  null_checks-none ((name, true) ∷ rest) body h = cc
  null_checks-none ((name, false) ∷ rest) body h = null_checks-none rest body h

  null_checks-some :
      (args : List (Text × Bool)) (body : M (World P) FfiResult) (name : Text)
      → first_null args ≡ some name
      → null_checks args body ≡ context (io_error name) argument_null
  unfolding null_checks
  null_checks-some [] body name h = cc
  null_checks-some ((n, true) ∷ rest) body name h = cc
  null_checks-some ((n, false) ∷ rest) body name h = null_checks-some rest body name h

  -- With a null argument the body does not run: the call returns `ArgumentNull`, and the name of
  -- the first null argument is all that it stores.
  pub safe_ffi-null :
      (args : List (Text × Bool)) (body : M (World P) FfiResult) (name : Text) (w : World P)
      → first_null args ≡ some name
      → safe_ffi args body w ≡ (ok argument_null, set_last (io_error name) w)
  unfolding safe_ffi context
  safe_ffi-null args body name w h =
      catch-ok (null_checks args body) argument_null w (set_last (io_error name) w)
        (rw (null_checks-some args body name h))

  -- With none, the call is the body under `catch`.
  pub safe_ffi-catch :
      (args : List (Text × Bool)) (body : M (World P) FfiResult)
      → first_null args ≡ none
      → safe_ffi args body ≡ catch body
  unfolding safe_ffi
  safe_ffi-catch args body h = rw (null_checks-none args body h)
