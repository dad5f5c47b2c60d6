-- ===== src/Master/Watch.antt =====
-- Run of master/master_controller.go beside the goroutine of watchCounters. Run closes the stop channel
-- and does not wait: the goroutine may be between collectCounters and WriteCounters. The memory writer
-- is locked, so that a write is one step.
use sigbench.Prelude.{ℕ, ◌≡◌, Bool, true, false, List, Option, none, some, run_steps, if◌then◌else◌}
use sigbench.Counters.{Counters}
use sigbench.Snapshot.Memory.{MemorySnapshotWriter, new_memory_writer, write_memory}

-- The arguments of a WriteCounters: time.Now(), and what collectCounters has given.
pub record Snapshot : Type 0 where
  pub now : ℕ
  pub counters : Counters

-- The goroutine is in its select, or has the arguments of WriteCounters and waits for the writer's lock,
-- or has returned.
pub data Watcher : Type 0 where
  selecting : Watcher
  collected : Snapshot → Watcher
  ended : Watcher

-- Run waits for the agents, or has closed the channel, or has the arguments of its own WriteCounters, or
-- is behind it.
pub data Runner : Type 0 where
  waiting closed : Runner
  collected : Snapshot → Runner
  finished : Runner

pub record Watched : Type 0 where
  pub runner : Runner
  pub watcher : Watcher
  pub writer : MemorySnapshotWriter

-- `c.SnapshotWriter.WriteCounters(…)`
abbrev pub written : Snapshot → MemorySnapshotWriter → MemorySnapshotWriter
written c w = (write_memory {E = ⊥} c.now c.counters w).0

unfoldable pub launch : Watched
launch = record { runner = Runner.waiting; watcher = Watcher.selecting; writer = new_memory_writer }

-- A tick, with what collectCounters gives; the write behind it; the end of the goroutine at the closed
-- channel; and the agents' end, and Run's own collection and write.
pub data Event : Type 0 where
  ticks : Snapshot → Event
  watcher_writes : Event
  watcher_stops : Event
  agents_end : Event
  runner_collects : Snapshot → Event
  runner_writes : Event

abbrev pub is_closed : Runner → Bool
is_closed Runner.waiting = false
is_closed _ = true

unfoldable pub watcher_step : Event → Watcher → Watched → Option Watched
watcher_step (ticks c) Watcher.selecting w = some (record w { watcher = Watcher.collected c })
watcher_step watcher_writes (Watcher.collected c) w =
    some (record w { watcher = Watcher.selecting; writer = written c w.writer })
watcher_step watcher_stops Watcher.selecting w =
    if is_closed w.runner then some (record w { watcher = Watcher.ended }) else none
watcher_step _ _ w = none

unfoldable pub runner_step : Event → Runner → Watched → Option Watched
runner_step agents_end Runner.waiting w = some (record w { runner = Runner.closed })
runner_step (runner_collects c) Runner.closed w = some (record w { runner = Runner.collected c })
runner_step runner_writes (Runner.collected c) w =
    some (record w { runner = Runner.finished; writer = written c w.writer })
runner_step _ _ w = none

unfoldable pub step : Watched → Event → Option Watched
unfolding watcher_step runner_step
step w (ticks c) = watcher_step (ticks c) w.watcher w
step w watcher_writes = watcher_step watcher_writes w.watcher w
step w watcher_stops = watcher_step watcher_stops w.watcher w
step w agents_end = runner_step agents_end w.runner w
step w (runner_collects c) = runner_step (runner_collects c) w.runner w
step w runner_writes = runner_step runner_writes w.runner w

unfoldable pub watch : Watched → List Event → Option Watched
watch w es = run_steps step w es

-- No tick: the select takes the closed channel.
abbrev pub IsNoTick : Event → Type 0
IsNoTick (ticks c) = ⊥
IsNoTick _ = Unit {0}

-- What a writer holds behind the write.
abbrev pub snap : Snapshot → MemorySnapshotWriter
snap c = record { counters = c.counters; updated_at = c.now }

-- The goroutine will write `c`, or has written it last.
abbrev Holds : Snapshot → Watcher → MemorySnapshotWriter → Type 0
Holds c Watcher.selecting m = m ≡ snap c
Holds c (Watcher.collected d) m = d ≡ c
Holds c Watcher.ended m = m ≡ snap c

abbrev HoldsIn : Snapshot → Watched → Type 0
HoldsIn c w = Holds c w.watcher w.writer

abbrev Overtakes : Snapshot → Watched → Type 0
Overtakes c w = (w.runner ≡ Runner.finished) × HoldsIn c w
