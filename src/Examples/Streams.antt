-- ===== src/Examples/Streams.antt =====
-- The theorems on streams, at concrete connections.
use quinn_ffi.Prelude.{◌≡◌, refl, false, inr, some, [], ◌∷◌, arith, lookup, insert}
use quinn_ffi.Effect.{ok}
use quinn_ffi.Bindings.Streams.{read_stream_inner}
use quinn_ffi.Bindings.Streams.Outcomes.{read_stream_inner-ends}
use quinn_ffi.Examples.Toy.{ToyConnection}
use quinn_ffi.Examples.Worlds.{world, connection, busy}

memory_lem :
    (lookup 61 world.buffers ≡ some (0 ∷ 0 ∷ 0 ∷ 0 ∷ [])) × (lookup 50 world.words ≡ some 0)
unfolding lookup
memory_lem = (refl, refl)

-- The toy's three unread bytes go into a buffer of four.
abbrev emptied : ToyConnection
emptied = record busy { unread = [] }

read_stream_inner-ends_example : read_stream_inner false 4 61 4 50 (connection, world) ≡ (
  ok tt,
  (
    record connection { inner = emptied },
    record world {
      buffers = insert 61 (1 ∷ 2 ∷ 3 ∷ 0 ∷ []) world.buffers;
      words = insert 50 3 world.words;
    },
  ),
)
read_stream_inner-ends_example =
    read_stream_inner-ends 4 61 4 50 0 77 4 (0 ∷ 0 ∷ 0 ∷ 0 ∷ []) (inr (some (1 ∷ 2 ∷ 3 ∷ []))) false
      busy emptied emptied connection world refl refl refl refl memory_lem.0 (omega arith)
      memory_lem.1 refl
