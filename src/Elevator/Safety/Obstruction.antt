-- ===== src/Elevator/Safety/Obstruction.antt =====
-- elevator/elevator.cpp: an obstruction shuts the elevator down.
use ttk.Prelude.{◌≡◌, ◌≢◌, refl, sym, ◌∙◌, true, false, arith}
use ttk.Driver.{stay}
use ttk.Driver.Channels
use ttk.Driver.Io.{io_set_bit}
use ttk.Driver.Ops.{driver_info, get_obstruction}
use ttk.Driver.Shutdown.{LampsOff, shutdown-stops}
use ttk.Elevator.{World, returned, hung, on_driver, info}
use ttk.Elevator.Inputs.{handle_obstruction, wait_obstruction}
use ttk.Elevator.Safety.Motor.{MotorAgrees, running}

-- On the hardware's four floors, an obstruction that stays catches the thread in its waiting loop,
-- with the motor off and all lamps off.
pub handle_obstruction-hung :
    (w : World)
    → info w ≡ driver_info
    → get_obstruction w.driver ≡ true
    → w.obstruction_clears ≡ false
    → (w' : World) × (handle_obstruction w ≡ (w', hung))
      × LampsOff w'.driver
      × (w'.driver.io.analog Channels.motor ≡ 0)
unfolding handle_obstruction wait_obstruction on_driver
handle_obstruction-hung w i o c =
    let (d, e, off, stopped) = shutdown-stops w.driver i in
    (record w { driver = d }, rw (o, e, c), off, stopped)

-- On the hardware's four floors, after an obstruction that goes away while the elevator has a
-- direction, the loop goes on with the motor off and the direction as it was, so that the motor no
-- longer agrees with the state.
pub handle_obstruction-stale :
    (w : World)
    → info w ≡ driver_info
    → get_obstruction w.driver ≡ true
    → w.obstruction_clears ≡ true
    → w.elev_state.direction ≢ stay
    → (w' : World) × (handle_obstruction w ≡ (w', returned tt))
      × (w'.elev_state.direction ≡ w.elev_state.direction)
      × (w'.driver.io.analog Channels.motor ≡ 0)
      × (¬ MotorAgrees w')
unfolding handle_obstruction wait_obstruction on_driver io_set_bit
handle_obstruction-stale w i o c n =
    let (d, e, off, stopped) = shutdown-stops w.driver i in
    (
      record w { driver = record d { io = io_set_bit Channels.obstruction false d.io } },
      rw (o, e, c),
      refl,
      stopped,
      λ m. zero-ne_running (sym stopped ∙ m.on n),
    )
  where
    zero-ne_running : 0 ≢ running
    zero-ne_running = omega arith
