-- ===== src/Bindings/Connections/Calls.antt =====
-- What the application gets of a call on a connection, for each end of the callback under the lock.
use quinn_ffi.Prelude.{ℕ, ◌≡◌, refl, none, some, true, false, Bool, List, lookup, insert}
use quinn_ffi.ErrorKind.{Text}
use quinn_ffi.Effect.{M, Exit, ok, err, panic, hang, undefined}
use quinn_ffi.Proto.{Proto}
use quinn_ffi.World.{World, Shared, ConnectionImpl}
use quinn_ffi.World.Mutex.{release, is_hang, is_panic}
use quinn_ffi.World.Mutex.Laws.{with_lock-runs}
use quinn_ffi.Connection.{Conn}
use quinn_ffi.Endpoint.{connection_cells, put_connection_cells}
use quinn_ffi.FfiResult.{FfiResult, ok_result, err_result, new, catch, into_result}
use quinn_ffi.FfiResult.Laws.{
  clear_last, kind_of, remember, catch-ok, catch-panic_unset, into_result-ok, into_result-err,
  into_result-panic,
}
use quinn_ffi.Api.{safe_ffi}
use quinn_ffi.Api.Laws.{first_null, safe_ffi-catch}
use quinn_ffi.Handle.{connection_access, deref_connection}

module _ {P : Proto} where
  -- The result, and what is stored as the last error, by how the callback ended.
  abbrev pub reported : {A : Type 0} → Exit A → World P → Exit FfiResult × World P
  reported (ok a) w = (ok ok_result, w)
  reported (err e) w = (ok (new (kind_of e)), remember e w)
  reported (panic p) w = (ok err_result, w)
  reported hang w = (hang, w)
  reported undefined w = (undefined, w)

  connection_access-runs :
      {A : Type 0} (p k : ℕ) (cb : Conn P A) (cell cell' : Shared (ConnectionImpl P)) (x : Exit A)
      (c : ConnectionImpl P) (w w' : World P)
      → lookup p w.connection_boxes ≡ some k
      → lookup k w.connections ≡ some cell
      → cell.locked ≡ false
      → cell.poisoned ≡ false
      → cb (
        cell.value,
        record w { connections = insert k (record cell { locked = true }) w.connections },
      )
        ≡ (x, (c, w'))
      → lookup k w'.connections ≡ some cell'
      → connection_access p cb w
        ≡ (x, record w' { connections = insert k (release x c cell') w'.connections })
  unfolding connection_access deref_connection
  connection_access-runs p k cb cell cell' x c w w' b h l f r h' =
      rw
        (
          b,
          with_lock-runs connection_cells put_connection_cells k cb cell cell' x c w w' h l f r h',
        )
        refl

  call_end :
      {A : Type 0} (m : M (World P) A) (x : Exit A) (w w' : World P)
      → m (clear_last w) ≡ (x, w')
      → w'.last_result ≡ none
      → catch (into_result m) w ≡ reported x w'
  unfolding catch into_result
  call_end m (ok a) w w' h n =
      catch-ok (into_result m) ok_result w w' (into_result-ok m a (clear_last w) w' h)
  call_end m (err e) w w' h n =
      catch-ok (into_result m) (new (kind_of e)) w (remember e w')
        (into_result-err m e (clear_last w) w' h)
  call_end m (panic p) w w' h n =
      catch-panic_unset (into_result m) p w w' (into_result-panic m p (clear_last w) w' h) n
  call_end m hang w w' h n = rw h refl
  call_end m undefined w w' h n = rw h refl

  -- A call on a connection, whatever its callback does and however that ends: the result is `Ok` if it
  -- returned, the kind of its error, which is kept for `last_error` unless it is a result kind, or `Error` if
  -- it panicked. The lock is released unless the callback never returns, and the connection is poisoned if
  -- and only if the callback panicked. So it is for a valid handle whose lock is free and not poisoned, with
  -- no null pointer, and a callback that stores no error itself.
  pub connection_call-reported :
      {A : Type 0} (args : List (Text × Bool)) (p k : ℕ) (cb : Conn P A)
      (cell cell' : Shared (ConnectionImpl P)) (x : Exit A) (c : ConnectionImpl P) (w w' : World P)
      → first_null args ≡ none
      → lookup p w.connection_boxes ≡ some k
      → lookup k w.connections ≡ some cell
      → cell.locked ≡ false
      → cell.poisoned ≡ false
      → cb (
        cell.value,
        record (clear_last w) {
          connections = insert k (record cell { locked = true }) w.connections;
        },
      )
        ≡ (x, (c, w'))
      → lookup k w'.connections ≡ some cell'
      → w'.last_result ≡ none
      → safe_ffi args (into_result (connection_access p cb)) w
        ≡ reported x (record w' {
          connections =
              insert k
                (record cell' { value = c; locked = is_hang x; poisoned = is_panic x })
                w'.connections;
        })
  connection_call-reported args p k cb cell cell' x c w w' n b h l f r h' q =
      rw (safe_ffi-catch args (into_result (connection_access p cb)) n) (
        call_end (connection_access p cb) x w _
          (connection_access-runs p k cb cell cell' x c (clear_last w) w' b h l f r h') q)
