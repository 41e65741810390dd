-- ===== src/Elevator/Runs.antt =====
-- elevator/elevator.cpp with elevator/restartwrapper.h: the life of the control thread, whose rounds
-- alternate with what the environment does.
use ttk.Prelude.{Bool, All, In, ◌⊎◌}
use ttk.Prelude.Int.{ℤ}
use ttk.ConcurrentQueue.{ConcurrentQueue}
use ttk.Command.{Command}
use ttk.State.{StateChange}
use ttk.Elevator.{World, Result, returned, raised}
use ttk.Elevator.Quiet.{SameDrive}
use ttk.Elevator.Inputs.{Locals}
use ttk.Elevator.Cycle.{cycle, enter, unwind}

-- `Foreign` are the changes that may come in from other nodes.
module _ (Foreign : StateChange → Type 0) where
  -- The environment presses buttons, moves the car past sensors and sends commands: it changes the
  -- bits of input channels and the queues, and leaves the driven channels and the state. The queue
  -- of changes is shared with the scheduler, which takes changes out, and with the receiver, which
  -- puts in those of other nodes: afterwards it holds changes that were there before and foreign
  -- ones.
  pub data Environment (w : World) : World → Type 0 where
    inputs :
        (bits : ℤ → Bool)
        → SameDrive w
            (record w { driver = record w.driver { io = record w.driver.io { set_bits = bits } } })
        → Environment w
            (record w { driver = record w.driver { io = record w.driver.io { set_bits = bits } } })
    commands : (q : ConcurrentQueue Command) → Environment w (record w { in_commands = q })
    shared :
        (q : ConcurrentQueue StateChange)
        → All (λ (u : StateChange). In u w.out_state.queue ⊎ Foreign u) q.queue
        → Environment w (record w { out_state = q })

  -- What the control thread can reach from the world in which it is started.
  pub data Reach (w₀ : World) : World × Result Locals → Type 0 where
    entered : Reach w₀ (enter w₀)
    changed :
        {w w' : World} {l : Locals}
        → Reach w₀ (w, returned l)
        → Environment w w'
        → Reach w₀ (w', returned l)
    round : {w : World} {l : Locals} → Reach w₀ (w, returned l) → Reach w₀ (cycle l w)
    unwound : {w : World} → Reach w₀ (w, raised) → Reach w₀ (unwind w)
