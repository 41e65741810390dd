-- ===== src/Driver/Channels.antt =====
-- elevator/channels.h: the numbers of the hardware's channels, and the tables of
-- elevator/driver.cpp that give the channel of a button and of its lamp.
use ttk.Prelude.{ℕ, zero, suc, ◌+◌}
use ttk.Prelude.Int.{ℤ, pos, negsuc}
use ttk.Driver.{ButtonType, call_up, call_down, target_floor}

abbrev pub obstruction : ℤ
obstruction = pos (0x300 + 23)

abbrev pub stop : ℤ
stop = pos (0x300 + 22)

abbrev pub sensor1 : ℤ
sensor1 = pos (0x200 + 4)

abbrev pub sensor2 : ℤ
sensor2 = pos (0x200 + 5)

abbrev pub sensor3 : ℤ
sensor3 = pos (0x200 + 6)

abbrev pub sensor4 : ℤ
sensor4 = pos (0x200 + 7)

abbrev pub motordir : ℤ
motordir = pos (0x300 + 15)

abbrev pub light_stop : ℤ
light_stop = pos (0x300 + 14)

abbrev pub door_open : ℤ
door_open = pos (0x300 + 3)

abbrev pub floor_ind2 : ℤ
floor_ind2 = pos (0x300 + 1)

abbrev pub floor_ind1 : ℤ
floor_ind1 = pos (0x300 + 0)

abbrev pub motor : ℤ
motor = pos (0x100 + 0)

-- The port of a button or lamp that no hardware has.
abbrev pub nowhere : ℤ
nowhere = negsuc 0

-- lampChannelMatrix, by the index of the row.
unfoldable pub lamp_channel : ℕ → ButtonType → ℤ
lamp_channel zero call_up = pos (0x300 + 9)
lamp_channel zero call_down = nowhere
lamp_channel zero target_floor = pos (0x300 + 13)
lamp_channel (suc zero) call_up = pos (0x300 + 8)
lamp_channel (suc zero) call_down = pos (0x300 + 7)
lamp_channel (suc zero) target_floor = pos (0x300 + 12)
lamp_channel (suc (suc zero)) call_up = pos (0x300 + 6)
lamp_channel (suc (suc zero)) call_down = pos (0x300 + 5)
lamp_channel (suc (suc zero)) target_floor = pos (0x300 + 11)
lamp_channel (suc (suc (suc i))) call_up = nowhere
lamp_channel (suc (suc (suc i))) call_down = pos (0x300 + 4)
lamp_channel (suc (suc (suc i))) target_floor = pos (0x300 + 10)

-- buttonChannelMatrix, by the index of the row.
unfoldable pub button_channel : ℕ → ButtonType → ℤ
button_channel zero call_up = pos (0x300 + 17)
button_channel zero call_down = nowhere
button_channel zero target_floor = pos (0x300 + 21)
button_channel (suc zero) call_up = pos (0x300 + 16)
button_channel (suc zero) call_down = pos (0x200 + 0)
button_channel (suc zero) target_floor = pos (0x300 + 20)
button_channel (suc (suc zero)) call_up = pos (0x200 + 1)
button_channel (suc (suc zero)) call_down = pos (0x200 + 2)
button_channel (suc (suc zero)) target_floor = pos (0x300 + 19)
button_channel (suc (suc (suc i))) call_up = nowhere
button_channel (suc (suc (suc i))) call_down = pos (0x200 + 3)
button_channel (suc (suc (suc i))) target_floor = pos (0x300 + 18)
