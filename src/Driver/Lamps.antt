-- ===== src/Driver/Lamps.antt =====
-- elevator/driver.cpp: the lamps of the buttons that the hardware has are told apart.
use ttk.Prelude.{
  ℕ, zero, suc, ◌+◌, ◌≤◌, ◌<◌, ◌≡◌, ◌≢◌, ◌⊎◌, inl, inr, Bool, if◌then◌else◌, arith, refl, subst,
  sym, ap, ◌∙◌, ◌==◌,
}
use ttk.Prelude.Int.{ℤ, pos, negsuc, gap, eq_of_parts}
use ttk.Outcome.{ok, failed, ok_injective, failed-ne_ok}
use ttk.Driver.{ButtonType, call_up, call_down, target_floor, Button, InBounds}
use ttk.Driver.Channels
use ttk.Driver.Channels.{lamp_channel, nowhere}
use ttk.Driver.Io.{io_set_bit, io_read_bit, read-set_self, read-set_ne}
use ttk.Driver.Ops.{
  Driver, driver_info, lamp, set_button_lamp, get_button_lamp, get_door_open_lamp, get_stop_lamp,
}

-- A button that the hardware has: no way up from the highest floor, none down from the lowest.
pub record IsReal (b : Button) : Type 0 where
  pub floor_exists : InBounds b.floor driver_info
  pub not_top : b.type ≡ call_up → b.floor ≢ pos 4
  pub not_bottom : b.type ≡ call_down → b.floor ≢ pos 1

-- The row and the column of a lamp's channel.
owner : ℤ → ℕ × ButtonType
owner (negsuc n) = (0, call_up)
owner (pos n) =
    if n == 0x300 + 9
    then (0, call_up)
    else if n == 0x300 + 13
    then (0, target_floor)
    else if n == 0x300 + 8
    then (1, call_up)
    else if n == 0x300 + 7
    then (1, call_down)
    else if n == 0x300 + 12
    then (1, target_floor)
    else if n == 0x300 + 6
    then (2, call_up)
    else if n == 0x300 + 5
    then (2, call_down)
    else if n == 0x300 + 11
    then (2, target_floor)
    else if n == 0x300 + 4
    then (3, call_down)
    else (3, target_floor)

owner-lamp_channel :
    (i : ℕ) (t : ButtonType)
    → i < 4
    → (t ≡ call_up → i ≢ 3)
    → (t ≡ call_down → i ≢ 0)
    → owner (lamp_channel i t) ≡ (i, t)
unfolding owner lamp_channel
owner-lamp_channel zero call_up h p q = refl
owner-lamp_channel zero call_down h p q = absurd (q refl refl)
owner-lamp_channel zero target_floor h p q = refl
owner-lamp_channel (suc zero) call_up h p q = refl
owner-lamp_channel (suc zero) call_down h p q = refl
owner-lamp_channel (suc zero) target_floor h p q = refl
owner-lamp_channel (suc (suc zero)) call_up h p q = refl
owner-lamp_channel (suc (suc zero)) call_down h p q = refl
owner-lamp_channel (suc (suc zero)) target_floor h p q = refl
owner-lamp_channel (suc (suc (suc zero))) call_up h p q = absurd (p refl refl)
owner-lamp_channel (suc (suc (suc zero))) call_down h p q = refl
owner-lamp_channel (suc (suc (suc zero))) target_floor h p q = refl
owner-lamp_channel (suc (suc (suc (suc i)))) t h p q = absurd (omega arith)

unfoldable pub row : Button → ℕ
row b = gap b.floor (pos 1)

pub lamp-ok : (b : Button) → IsReal b → lamp b ≡ ok (lamp_channel (row b) b.type)
unfolding lamp row
lamp-ok b r = ground (arith, r.floor_exists)

owner-lamp : (b : Button) → IsReal b → owner (lamp_channel (row b) b.type) ≡ (row b, b.type)
unfolding row
owner-lamp b r =
    owner-lamp_channel (row b) b.type (omega (arith, r.floor_exists))
      (λ e f. r.not_top e (eq_of_parts b.floor (pos 4) (omega (arith, f, r.floor_exists))))
      (λ e f. r.not_bottom e (eq_of_parts b.floor (pos 1) (omega (arith, f, r.floor_exists))))

-- Two different buttons have different lamps.
pub lamp_injective :
    (b c : Button)
    → IsReal b
    → IsReal c
    → lamp_channel (row b) b.type ≡ lamp_channel (row c) c.type
    → b ≡ c
unfolding row
lamp_injective b c r s e =
    let f = sym (owner-lamp b r) ∙ ap owner e ∙ owner-lamp c s in
    let g : b.floor ≡ c.floor =
      eq_of_parts b.floor c.floor
        (omega (arith, ap (λ (p : ℕ × ButtonType). p.0) f, r.floor_exists, s.floor_exists)) in
    ground (arith, g, ap (λ (p : ℕ × ButtonType). p.1) f)

-- The lamps of buttons stand apart from the other channels.
lamp_range :
    (i : ℕ) (t : ButtonType)
    → (lamp_channel i t ≡ nowhere)
      ⊎ ((n : ℕ) × (lamp_channel i t ≡ pos n) × (0x304 ≤ n) × (n ≤ 0x30d))
unfolding lamp_channel
lamp_range zero call_up = inr (_, refl, omega arith, omega arith)
lamp_range zero call_down = inl refl
lamp_range zero target_floor = inr (_, refl, omega arith, omega arith)
lamp_range (suc zero) call_up = inr (_, refl, omega arith, omega arith)
lamp_range (suc zero) call_down = inr (_, refl, omega arith, omega arith)
lamp_range (suc zero) target_floor = inr (_, refl, omega arith, omega arith)
lamp_range (suc (suc zero)) call_up = inr (_, refl, omega arith, omega arith)
lamp_range (suc (suc zero)) call_down = inr (_, refl, omega arith, omega arith)
lamp_range (suc (suc zero)) target_floor = inr (_, refl, omega arith, omega arith)
lamp_range (suc (suc (suc i))) call_up = inl refl
lamp_range (suc (suc (suc i))) call_down = inr (_, refl, omega arith, omega arith)
lamp_range (suc (suc (suc i))) target_floor = inr (_, refl, omega arith, omega arith)

lamp-ne_special :
    (i : ℕ) (t : ButtonType) (k : ℕ) → (k < 0x304) ⊎ (0x30d < k) → pos k ≢ lamp_channel i t
lamp-ne_special i t k h e = ground (arith, lamp_range i t, e, h)

-- What an attempt to set a button's lamp leaves alone: the door lamp and the motor.
pub record Keeps (d d' : Driver) : Type 0 where
  pub same_info : d'.info ≡ d.info
  pub same_direction : d'.last_direction ≡ d.last_direction
  pub same_door : get_door_open_lamp d' ≡ get_door_open_lamp d
  pub same_stop : get_stop_lamp d' ≡ get_stop_lamp d
  pub same_motordir : io_read_bit Channels.motordir d'.io ≡ io_read_bit Channels.motordir d.io
  pub same_motor : d'.io.analog ≡ d.io.analog

set-Keeps :
    (i : ℕ) (t : ButtonType) (v : Bool) (d : Driver)
    → Keeps d (record d { io = io_set_bit (lamp_channel i t) v d.io })
unfolding get_stop_lamp get_door_open_lamp
set-Keeps i t v d = record {
  same_info = refl;
  same_direction = refl;
  same_door = read-set_ne _ _ v d.io (lamp-ne_special i t _ (omega arith));
  same_stop = read-set_ne _ _ v d.io (lamp-ne_special i t _ (omega arith));
  same_motordir = read-set_ne _ _ v d.io (lamp-ne_special i t _ (omega arith));
  same_motor = unfold io_set_bit in refl;
}

lamp_cases : (b : Button) → (lamp b ≡ failed) ⊎ (lamp b ≡ ok (lamp_channel (row b) b.type))
unfolding lamp row
lamp_cases b = ground arith

pub set_button_lamp-Keeps :
    (b : Button) (v : Bool) (d : Driver) {d' : Driver} → set_button_lamp b v d ≡ ok d' → Keeps d d'
unfolding set_button_lamp
set_button_lamp-Keeps b v d {d'} e = elim (lamp_cases b) [
  | inl f ↦ absurd (failed-ne_ok (rw f at e))
  | inr f ↦ subst (Keeps d) (ok_injective (rw f at e)) (set-Keeps (row b) b.type v d)
]

-- For buttons that the hardware has, a lamp reads as it was last set, and setting it changes no
-- other button's lamp, neither the stop lamp nor the door lamp, and not the motor; no assertion
-- fails.
pub get_button_lamp-set :
    (b c : Button) (v : Bool) (d : Driver)
    → IsReal b
    → IsReal c
    → (d' : Driver) × (set_button_lamp b v d ≡ ok d')
      × (get_button_lamp b d' ≡ ok v)
      × (c ≢ b → get_button_lamp c d' ≡ get_button_lamp c d)
      × Keeps d d'
unfolding set_button_lamp get_button_lamp
get_button_lamp-set b c v d r s = (
  record d { io = io_set_bit (lamp_channel (row b) b.type) v d.io },
  rw (lamp-ok b r),
  rw (lamp-ok b r) (ap ok (read-set_self _ v d.io)),
  (λ n. rw (lamp-ok c s) (ap ok (read-set_ne _ _ v d.io (λ e. n (lamp_injective c b s r e))))),
  set-Keeps (row b) b.type v d,
)
