-- ===== src/QuinnError/Strings.antt =====
-- What an application reads of the C string in a `QuinnError`.
use quinn_ffi.Prelude.{ℕ, zero, suc, ◌+◌, ◌≡◌, refl, Option, none, some, List, [], ◌∷◌, ◌++◌}
use quinn_ffi.ErrorKind.{Text}
use quinn_ffi.Effect.{ok, panic}
use quinn_ffi.QuinnError.{QuinnError, nul_position, new_quinn_error, nul_panic, made}

-- `strcpy`: the bytes up to the first zero, if there is one.
abbrev pub c_string : List ℕ → Option Text
c_string [] = none
c_string (zero ∷ text) = some []
c_string (suc b ∷ text) = elim (c_string text) [ none ↦ none | some t ↦ some (suc b ∷ t) ]

c_string-nul :
    (text : Text) (n : ℕ) → nul_position n text ≡ none → c_string (text ++ 0 ∷ []) ≡ some text
unfolding nul_position
c_string-nul [] n h = refl
c_string-nul (zero ∷ text) n h = cc
c_string-nul (suc b ∷ text) n h = rw (c_string-nul text (n + 1) h)

-- An error with no zero byte in its reason is made, and its C string reads as the reason; any other
-- reason makes the call panic.
pub new_quinn_error-c_string :
    {S : Type 0} (code : ℕ) (reason : Text) (s : S)
    → (nul_position 0 reason ≡ none
        → (e : QuinnError) × (new_quinn_error code reason s ≡ (ok e, s))
          × (e.code ≡ code)
          × (c_string e.reason ≡ some reason))
      × ((n : ℕ)
          → nul_position 0 reason ≡ some n
          → new_quinn_error code reason s ≡ (panic (nul_panic n reason), s))
unfolding new_quinn_error made
new_quinn_error-c_string code reason s = (
  λ h.
      (record { code = code; reason = reason ++ 0 ∷ [] }, rw h refl, refl, c_string-nul reason 0 h),
  λ n h. rw h refl,
)
