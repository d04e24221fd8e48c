-- ===== src/World/Clock.antt =====
-- `Instant::now()`.
use quinn_ffi.Prelude.{ℕ, ◌+◌}
use quinn_ffi.Effect.{M, state}
use quinn_ffi.Proto.{Proto}
use quinn_ffi.World.{World}

module _ {P : Proto} where
  unfoldable pub now : M (World P) ℕ
  now = state λ w. (w.clock w.reads, record w { reads = w.reads + 1 })
