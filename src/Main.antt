-- ===== src/Main.antt =====
-- tools/main.cpp and tools/stop.cpp: how a node is put together. The options are what the parser of
-- the command line found; forking and the installation of signal handlers are calls into the system.
pub mod Commands
pub mod Updates
pub mod Starting
pub mod Calls
pub mod Presses
use ttk.Prelude.{
  ℕ, ◌+◌, Bool, true, false, not, ◌&&◌, List, [], ◌∷◌, Option, none, some, ◌==◌, if◌then◌else◌,
}
use ttk.Prelude.Int.{ℤ, pos, ◌==ℤ◌, ltb_ℤ}
use ttk.Driver.{Direction}
use ttk.Driver.Io.{Io}
use ttk.Driver.Ops.{Driver, new_driver, stop_elevator}
use ttk.Command.{Command}
use ttk.State.{ElevatorState, StateChange}
use ttk.Elevator
use ttk.Elevator.Start.{recover}
use ttk.ConcurrentQueue.{ConcurrentQueue, new_queue}
use ttk.HeartBeat.{HeartBeatManager, new_manager, get_new}
use ttk.UdpTools.{Address, any_ip, broadcast}
use ttk.UdpQueue.{QueueSender, QueueReceiver, new_sender, new_receiver}

abbrev pub comm_send : Address
comm_send = record { ip_address = any_ip; port = record { port = 64123 } }

abbrev pub state_change_port : ℕ
state_change_port = 64016

abbrev pub command_port : ℕ
command_port = 64017

abbrev at_port : ℕ → Address
at_port n = record { ip_address = any_ip; port = record { port = n } }

abbrev to_port : ℕ → Address
to_port n = record { ip_address = broadcast; port = record { port = n } }

-- The predicates of the two receivers.
unfoldable pub is_for : ℤ → Command → Bool
is_for id comm = comm.target_elevator_id ==ℤ id

unfoldable pub stamp : ℤ → ℕ → StateChange → StateChange × Bool
stamp id now chan =
    (record chan { state = record chan.state { timestamp = now } }, not (chan.state.id ==ℤ id))

unfoldable pub commands_receiver : ℤ → ConcurrentQueue Command → QueueReceiver Command
commands_receiver id queue =
    new_receiver (at_port command_port) queue (some (λ now comm. (comm, is_for id comm)))

unfoldable pub state_changes_receiver : ℤ → ConcurrentQueue StateChange → QueueReceiver StateChange
state_changes_receiver id queue = new_receiver (at_port state_change_port) queue (some (stamp id))

unfoldable pub state_changes_sender : ConcurrentQueue StateChange → QueueSender StateChange
state_changes_sender queue = new_sender comm_send (to_port state_change_port) queue

unfoldable pub commands_sender : ConcurrentQueue Command → QueueSender Command
commands_sender queue = new_sender comm_send (to_port command_port) queue

-- `optNodes->boolValue() && optNodes->intValue() > 1`; `none` is an option that was not given.
abbrev several : Option ℤ → Bool
several none = false
several (some n) = ltb_ℤ (pos 1) n

-- The number of nodes.
unfoldable pub nodes_of : Option ℤ → ℤ
nodes_of none = pos 1
nodes_of (some n) = if ltb_ℤ (pos 1) n then n else pos 1

-- `connected` is the identifier that the session manager finds.
unfoldable pub node_id : Option ℤ → ℤ → ℤ
node_id nodes connected = if several nodes then connected else pos 0

-- The heartbeats of the session manager, the elevator and the two threads of the scheduler; `start`
-- is what an object holds before its first beat.
unfoldable pub heartbeats : Option ℤ → ℕ → HeartBeatManager
heartbeats nodes start =
    let session = if several nodes then get_new start 5000 new_manager else new_manager in
    get_new start 200 (get_new start 200 (get_new start 100 session))

-- The recovery of the elevator, before its thread is started; `state` is the recovered state, where
-- the session manager has one.
unfoldable pub maybe_recover : Option ElevatorState → Elevator.M (Unit {0})
unfolding recover
maybe_recover none = Elevator.return tt
maybe_recover (some state) = recover false state

-- The handler of SIGCHLD and SIGINT: it stops the elevator, and exits with the number of a signal
-- that is not SIGCHLD.
pub data Handled : Type 0 where
  exits : ℕ → Handled
  waits : Handled

-- `is_sigchld` says which of the two `sig` is. The driver is constructed on the hardware as it is;
-- where the handler returns, its destructor stops the elevator once more.
unfoldable pub handle_signal : Direction → Io → Bool → ℕ → Driver × Handled
handle_signal unset io is_sigchld sig =
    let driver = stop_elevator (new_driver unset io) in
    if is_sigchld then (stop_elevator driver, waits) else (driver, exits sig)

-- tools/stop.cpp: the destructor of the driver stops the elevator once more.
unfoldable pub stop_program : Direction → Io → Driver
stop_program unset io = stop_elevator (stop_elevator (new_driver unset io))
