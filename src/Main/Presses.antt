-- ===== src/Main/Presses.antt =====
-- elevator/scheduler.cpp, elevator/udpqueue.h and tools/main.cpp: what a press of a call button makes
-- of the own node and of another one.
use ttk.Prelude.{Bool}
use ttk.Prelude.Int.{ℤ}
use ttk.Command.{Command}
use ttk.State.{StateChange}
use ttk.ConcurrentQueue.{ConcurrentQueue}
use ttk.GlobalState
use ttk.Scheduler.{Scheduler, light_command, call_command}
use ttk.Main.Calls.{call_type}
use ttk.Main.Commands
use ttk.Main.Updates

module _ (up : Bool) (u : StateChange) where
  -- The commands that a press is answered with.
  abbrev pub light : Command
  light = light_command (call_type up) u.change_floor

  abbrev pub call : ℤ → Command
  call i = call_command (call_type up) i u.change_floor
