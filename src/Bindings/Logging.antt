-- ===== src/Bindings/Logging.antt =====
-- `enable_log`, which stands in builds with the feature `debug`. The crate tracing is a parameter.
pub mod Once
use quinn_ffi.Prelude.{
  ℕ, Option, none, some, Bool, false, List, [], ◌∷◌, ◌++◌, bytes, if◌then◌else◌,
}
use quinn_ffi.ErrorKind.{Text}
use quinn_ffi.Effect.{M, Payload, ◌>>=◌, ◌>>◌, pure, throw}
use quinn_ffi.Proto.{Proto}
use quinn_ffi.World.{World}
use quinn_ffi.World.Memory.{is_null, as_bytes}
use quinn_ffi.FfiResult.{FfiResult, ok_result}
use quinn_ffi.Api.{safe_ffi}
use quinn_ffi.Utf8.{is_utf8}

-- What the source asks of tracing: to make a subscriber with a filter the global default, in a state of
-- the crate. With no new state the call has failed; the text is what `{:?}` prints of its error.
pub record Tracing : Type 0 where
  pub set_global_default : Text → ℕ → Option ℕ
  pub set_error_text : Text

abbrev pub log_args : ℕ → List (Text × Bool)
log_args log_filter =
    (bytes "log_filter", is_null log_filter) ∷ (bytes "log_filter_length", false) ∷ []

-- The panics of the two `unwrap`s. Of the first the text is cut: the bytes that are no UTF-8 follow.
abbrev pub utf8_panic : Payload
utf8_panic = Payload.string (bytes "called `Result::unwrap()` on an `Err` value: FromUtf8Error")

abbrev pub subscriber_panic : Tracing → Payload
subscriber_panic T =
    Payload.string (bytes "called `Result::unwrap()` on an `Err` value: " ++ T.set_error_text)

module _ {P : Proto} (T : Tracing) where
  subscribed : Option ℕ → M (World P) FfiResult
  subscribed none w = throw (subscriber_panic T) w
  subscribed (some d) w = pure ok_result (record w { dispatch = d })

  unfoldable pub log_body : ℕ → ℕ → M (World P) FfiResult
  unfolding subscribed
  log_body log_filter log_filter_length = do
    filter ← as_bytes log_filter log_filter_length
    if is_utf8 filter
        then (λ w. subscribed (T.set_global_default filter w.dispatch) w)
        else throw utf8_panic

  unfoldable pub enable_log : ℕ → ℕ → M (World P) FfiResult
  enable_log log_filter log_filter_length =
      safe_ffi (log_args log_filter) (log_body log_filter log_filter_length)
