-- ===== src/Tests/FloorSets.antt =====
-- elevator/floorset.h at four floors.
use ttk.Prelude.{◌≡◌, refl, true, false, arith}
use ttk.Prelude.Int.{ℤ, pos, ◌<ℤ◌}
use ttk.Outcome.{ok, failed, Decides}
use ttk.Driver.{InBounds}
use ttk.Driver.Ops.{driver_info}
use ttk.FloorSet.{FloorSet, Has, IsWord, Fits, get, assign, any_higher, flag, higher_mask}
use ttk.FloorSet.Members.{set-get}
use ttk.FloorSet.Ranges.{any_higher-Has}

-- Floors 1 and 3.
abbrev odd_floors : FloorSet
odd_floors = record { floors = 5 }

abbrev third : FloorSet
third = record { floors = 4 }

at_three : InBounds (pos 3) driver_info
at_three = omega arith

four_floors : Fits driver_info
four_floors = omega arith

set-get_example : IsWord (assign false (pos 3) driver_info odd_floors)
set-get_example =
    (set-get false (pos 3) driver_info odd_floors at_three four_floors (omega arith)).3

any_higher-Has_example :
    Decides
      (any_higher (pos 3) driver_info odd_floors)
      ((g : ℤ) × (pos 3 <ℤ g) × Has odd_floors driver_info g)
any_higher-Has_example =
    any_higher-Has (pos 3) driver_info odd_floors at_three four_floors (omega arith)

higher_than_one : any_higher (pos 1) driver_info odd_floors ≡ ok true
unfolding any_higher higher_mask flag
higher_than_one = refl

higher_than_three : any_higher (pos 3) driver_info odd_floors ≡ ok false
unfolding any_higher higher_mask flag
higher_than_three = refl

out_of_bounds : get (pos 5) driver_info odd_floors ≡ failed
unfolding get
out_of_bounds = refl
