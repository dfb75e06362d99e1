-- ===== src/Inventory.antt =====
-- server/game/inventory.cpp: the slots that a player carries. An index is `none` where the code
-- returns -1. A slot's quantity is never negative, so it is a natural number. `equip` and
-- `use_consumable`, which also change the player, are in `Player.Equipment`.
pub mod Valid
pub mod Adding
pub mod Stock
pub mod Removal
use argentum_online_taller_g.Prelude.{
  ℕ, ◌+◌, ◌-◌, Bool, true, false, not, ◌&&◌, Option, none, some, List, [], ◌∷◌, Bytes, bytes_eq,
  ◌==◌, ltb, leb, if◌then◌else◌, find_index, find_first, count_if, get_elem?, set, replicate,
  length,
}
use argentum_online_taller_g.Prelude.Int.{ℤ, pos, negsuc, pos_part, leb_ℤ, ltb_ℤ}
use argentum_online_taller_g.Text.{normalize_name}
use argentum_online_taller_g.Config.{GameConfig}
use argentum_online_taller_g.Item.{Item, EquipmentSlot, get_slot, slot_eq}

pub record InventorySlot : Type 0 where
  pub item : Option Item
  pub quantity : ℕ
  pub equipped_slot : Option EquipmentSlot

abbrev pub Inventory : Type 0
Inventory = List InventorySlot

-- `InventorySlot{nullptr, 0, std::nullopt}`.
abbrev pub empty_slot : InventorySlot
empty_slot = record { item = none; quantity = 0; equipped_slot = none }

-- `Inventory::Inventory`.
unfoldable pub new_inventory : GameConfig → Inventory
new_inventory config = replicate (pos_part config.max_inventory_items) empty_slot

-- `s.item != nullptr`.
unfoldable pub holds_item : InventorySlot → Bool
holds_item s = elim s.item [ none ↦ false | some _ ↦ true ]

-- `i_slots[i].item.get() == &item`.
unfoldable pub holds_ref : ℕ → InventorySlot → Bool
holds_ref address s = elim s.item [ none ↦ false | some it ↦ it.address == address ]

-- `i_slots[i].item && i_slots[i].item->get_name() == name`.
unfoldable pub holds_name : Bytes → InventorySlot → Bool
holds_name name s = elim s.item [ none ↦ false | some it ↦ bytes_eq it.name name ]

unfoldable pub holds_normalized : Bytes → InventorySlot → Bool
holds_normalized name_norm s = elim s.item [
  | none ↦ false
  | some it ↦ bytes_eq (normalize_name it.name) name_norm
]

-- `s.item && s.equipped_slot == slot`.
unfoldable pub equipped_in : EquipmentSlot → InventorySlot → Bool
unfolding holds_item
equipped_in slot s = holds_item s && elim s.equipped_slot [ none ↦ false | some e ↦ slot_eq e slot ]

unfoldable pub find_item_by_ref : Inventory → Item → Option ℕ
find_item_by_ref inv item = find_index (holds_ref item.address) inv

unfoldable pub find_item_by_type : Inventory → Item → Option ℕ
find_item_by_type inv item = find_index (holds_name item.name) inv

unfoldable pub find_item_by_name : Inventory → Bytes → Option ℕ
find_item_by_name inv name = find_index (holds_normalized (normalize_name name)) inv

unfoldable pub has_item_by_name : Inventory → Bytes → Bool
has_item_by_name inv name = elim (find_item_by_name inv name) [ none ↦ false | some _ ↦ true ]

unfoldable pub is_full : Inventory → Bool
is_full [] = true
is_full (s ∷ inv) = holds_item s && is_full inv

unfoldable pub get_size : Inventory → ℕ
get_size inv = count_if holds_item inv

unfoldable pub can_add_item : Inventory → Item → Bool
can_add_item inv item = elim (get_slot item) [
  | some _ ↦ not (is_full inv)
  | none ↦ elim (find_item_by_type inv item) [ some _ ↦ true | none ↦ not (is_full inv) ]
]

-- `i_slots[index].quantity += quantity`.
unfoldable pub add_quantity : Inventory → ℕ → ℕ → Inventory
add_quantity inv index q = elim (get_elem? inv index) [
  | none ↦ inv
  | some s ↦ set inv index (record s { quantity = s.quantity + q })
]

-- The loop that fills the first empty slot.
unfoldable pub place_item : Inventory → Item → ℕ → Inventory
place_item [] item q = []
place_item (s ∷ inv) item q =
    let rest = place_item inv item q in
    if holds_item s
    then s ∷ rest
    else record { item = some item; quantity = q; equipped_slot = none } ∷ inv

-- A stack for what is not equippable, a slot of its own for the rest.
unfoldable pub store_item : Inventory → Item → ℕ → Inventory
unfolding add_quantity
store_item inv item q = elim (get_slot item) [
  | some _ ↦ place_item inv item q
  | none ↦ elim (find_item_by_type inv item) [
    | some index ↦ add_quantity inv index q
    | none ↦ place_item inv item q
  ]
]

unfoldable pub add_item : Inventory → Option Item → ℤ → Bool × Inventory
unfolding store_item
add_item inv none quantity = (false, inv)
add_item inv (some item) quantity =
    if leb_ℤ quantity (pos 0)
    then (false, inv)
    else if can_add_item inv item
    then (true, store_item inv item (pos_part quantity))
    else (false, inv)

-- The first slot of which the test holds is taken off: `it->equipped_slot = std::nullopt`.
unfoldable pub unequip_first : (InventorySlot → Bool) → Inventory → Option Inventory
unequip_first p inv = elim (find_index p inv) [
  | none ↦ none
  | some i ↦ elim (get_elem? inv i) [
    | none ↦ none
    | some s ↦ some (set inv i (record s { equipped_slot = none }))
  ]
]

unfoldable pub unequip : Inventory → EquipmentSlot → Bool × Inventory
unfolding unequip_first
unequip inv slot = elim (unequip_first (equipped_in slot) inv) [
  | none ↦ (false, inv)
  | some inv' ↦ (true, inv')
]

-- One unit less; the last unit leaves the inventory and is returned.
unfoldable pub take_unit : Inventory → ℕ → Option Item × Inventory
take_unit inv index = elim (get_elem? inv index) [
  | none ↦ (none, inv)
  | some s ↦
      if ltb 1 s.quantity
      then (none, set inv index (record s { quantity = s.quantity - 1 }))
      else (s.item, set inv index empty_slot)
]

unfoldable pub remove_item : Inventory → Item → Option Item × Inventory
unfolding take_unit
remove_item inv item = elim (find_item_by_ref inv item) [
  | none ↦ (none, inv)
  | some index ↦ take_unit inv index
]

-- The item that a slot holds, handed to `remove_item` by reference.
unfoldable pub remove_item_by_name : Inventory → Bytes → Option Item × Inventory
remove_item_by_name inv name = elim (find_item_by_name inv name) [
  | none ↦ (none, inv)
  | some index ↦ elim (get_elem? inv index) [
    | none ↦ (none, inv)
    | some s ↦ elim s.item [ none ↦ (none, inv) | some item ↦ remove_item inv item ]
  ]
]

unfoldable pub get_equipped_item : Inventory → EquipmentSlot → Option Item
get_equipped_item inv slot = elim (find_first (equipped_in slot) inv) [
  | none ↦ none
  | some s ↦ s.item
]

unfoldable pub slot_has_item : Inventory → EquipmentSlot → Bool
slot_has_item inv slot = elim (get_equipped_item inv slot) [ none ↦ false | some _ ↦ true ]

unfoldable pub get_equipped_items : Inventory → List (EquipmentSlot × Item)
get_equipped_items [] = []
get_equipped_items (s ∷ inv) = elim s.item [
  | none ↦ get_equipped_items inv
  | some item ↦ elim s.equipped_slot [
    | none ↦ get_equipped_items inv
    | some e ↦ (e, item) ∷ get_equipped_items inv
  ]
]

-- An index out of range gives an empty slot.
unfoldable pub pop_slot : Inventory → ℤ → InventorySlot × Inventory
pop_slot inv (negsuc _) = (empty_slot, inv)
pop_slot inv (pos i) = elim (get_elem? inv i) [
  | none ↦ (empty_slot, inv)
  | some s ↦ (s, set inv i empty_slot)
]

-- The dropped slots in order, and the inventory that is left.
unfoldable pub drop_all : Inventory → List InventorySlot × Inventory
drop_all [] = ([], [])
drop_all (s ∷ inv) =
    let (dropped, left) = drop_all inv in
    if holds_item s then (s ∷ dropped, empty_slot ∷ left) else (dropped, s ∷ left)
