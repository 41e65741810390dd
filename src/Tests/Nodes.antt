-- ===== src/Tests/Nodes.antt =====
-- elevator/udpqueue.h and tools/main.cpp: messages between nodes 0 and 1.
use ttk.Prelude.{◌+◌, ◌≡◌, refl, false, [], ◌∷◌, head, none, map, arith}
use ttk.Prelude.Int.{ℤ, pos}
use ttk.Outcome.{ok}
use ttk.Driver.{call_up}
use ttk.Command.{Command}
use ttk.State.{StateChange, button_up_pressed}
use ttk.ConcurrentQueue.{ConcurrentQueue}
use ttk.GlobalState
use ttk.GlobalState.Lookup.{updates}
use ttk.Scheduler.{Scheduler, call_command}
use ttk.Scheduler.Serving.{to_local}
use ttk.Scheduler.Remote.{handle_all, states}
use ttk.UdpTools.{Address, any_ip, ip, same_ip}
use ttk.Serialization.Formats.{command_format, elevator_command}
use ttk.Serialization.Messages.{IsInt, IsMessage, IsUpdate, command-RoundTrips, command-size}
use ttk.UdpQueue.{QueueSender, QueueReceiver, send_all, receive_all}
use ttk.UdpQueue.Delivery.{arrivals, with_queue, packet, send-receive}
use ttk.Main.Commands
use ttk.Main.Commands.{forward_all, for_node, commands-delivered}
use ttk.Main.Updates
use ttk.Main.Updates.{stamped, updates-known}
use ttk.Tests.Schedules.{node, near, far}

abbrev first_node : Address
first_node = record { ip_address = record { addr = 10 }; port = record { port = 64123 } }

abbrev call : ℤ → Command
call i = call_command call_up i (pos 2)

abbrev floor_int : IsInt (pos 2)
floor_int = record { from_min = omega arith; to_max = omega arith }

abbrev one_int : IsInt (pos 1)
one_int = record { from_min = omega arith; to_max = omega arith }

abbrev outbox : QueueSender Command
outbox = record {
  sock = record { local_address = first_node; rcvbuf_size = 1500 };
  send_addr = record { ip_address = record { addr = 255 }; port = record { port = 64017 } };
  queue = record { queue = [] };
}

abbrev everything : QueueReceiver Command
everything = record {
  sock = record {
    local_address = record { ip_address = record { addr = 0 }; port = record { port = 64017 } };
    rcvbuf_size = 1500;
  };
  queue = record { queue = [] };
  pred = none;
}

-- The first message arrives twice.
send-receive_example :
    (send_all elevator_command command_format 1
        (record outbox { queue = record { queue = call (pos 1) ∷ [] } })
      ≡ (outbox, map (packet elevator_command command_format outbox.send_addr) (call (pos 1) ∷ [])))
    × (receive_all elevator_command command_format
          (arrivals elevator_command command_format first_node
            ((5, call (pos 1)) ∷ (7, call (pos 1)) ∷ []))
          everything
        ≡ with_queue everything (call (pos 1) ∷ call (pos 1) ∷ []))
send-receive_example =
    send-receive elevator_command command_format IsMessage command-RoundTrips (omega arith) outbox
      (call (pos 1) ∷ []) first_node ((5, call (pos 1)) ∷ (7, call (pos 1)) ∷ []) everything
      (((one_int, floor_int), omega (arith, command-size (call (pos 1)))), tt)
      (head _, (head _, tt)) refl (omega arith)

abbrev no_commands : ConcurrentQueue Command
no_commands = record { queue = [] }

zero_int : IsInt (pos 0)
zero_int = record { from_min = omega arith; to_max = omega arith }

first_node_elsewhere : same_ip first_node.ip_address any_ip ≡ false
unfolding ip
first_node_elsewhere = refl

commands-delivered_example :
    (s' : Scheduler) × (forward_all (call (pos 1) ∷ call (pos 0) ∷ []) node ≡ (s', ok tt))
    × (s'.commands_to_local.queue ≡ to_local (pos 0) (call (pos 1) ∷ call (pos 0) ∷ []))
    × (Commands.received (pos 1) first_node (λ n. n) s'.commands_to_remote no_commands
        ≡ for_node (pos 1) (call (pos 1) ∷ call (pos 0) ∷ []))
commands-delivered_example =
    commands-delivered node (call (pos 1) ∷ call (pos 0) ∷ []) (pos 1) first_node (λ n. n)
      no_commands ((one_int, floor_int), ((zero_int, floor_int), tt)) (λ e. cc) first_node_elsewhere
      refl

-- Elevator 0 on floor 1 reports that somebody on floor 3 wants to go up.
abbrev own_press : StateChange
own_press = record { change_type = button_up_pressed; change_floor = pos 3; state = far }

abbrev other_node : Scheduler
other_node = record node { local_elev_id = pos 1 }

abbrev pressed : StateChange
pressed = record { change_type = button_up_pressed; change_floor = pos 2; state = near }

abbrev reports : ConcurrentQueue StateChange
reports = record { queue = pressed ∷ [] }

abbrev no_reports : ConcurrentQueue StateChange
no_reports = record { queue = [] }

near-IsUpdate : IsUpdate pressed
near-IsUpdate = (
  floor_int,
  record {
    id_int = one_int;
    time_int = omega arith;
    floor_int = record { from_min = omega arith; to_max = omega arith };
    inside_word = omega arith;
    up_word = omega arith;
    down_word = omega arith;
  },
)

updates-known_example :
    (Updates.received (pos 0) first_node (λ n. n + 40) reports no_reports
      ≡ Updates.stamped (pos 0) (λ n. n + 40) (pressed ∷ []))
    × (s' : Scheduler) × (handle_all (Updates.stamped (pos 0) (λ n. n + 40) (pressed ∷ [])) node
        ≡ (s', ok tt))
    × (s'.state_update_out ≡ node.state_update_out)
    × ((j : ℤ)
        → GlobalState.get j s'.global_state
          ≡ GlobalState.get j (
              updates
                (states (Updates.stamped (pos 0) (λ n. n + 40) (pressed ∷ [])))
                node.global_state))
updates-known_example =
    updates-known node first_node (λ n. n + 40) reports no_reports (near-IsUpdate, tt)
      first_node_elsewhere refl
