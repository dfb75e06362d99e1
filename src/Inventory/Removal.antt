-- ===== src/Inventory/Removal.antt =====
-- server/game/inventory.cpp: `remove_item_by_name` and the units that an inventory holds.
use argentum_online_taller_g.Prelude.{
  ℕ, ◌+◌, ◌-◌, ◌<◌, ◌≡◌, refl, inl, inr, true, false, some, Bytes, bytes_eq, bytes_eq_iff, arith,
  ltb, if◌then◌else◌, Bool-cases, Option-cases, get_elem?, All-get_elem?, find_index-get_elem?,
  find_index-none, sum_by-set, count_if-pos, unique_index,
}
use argentum_online_taller_g.Text.{normalize_name}
use argentum_online_taller_g.Item.{Item}
use argentum_online_taller_g.Inventory.{
  Inventory, InventorySlot, empty_slot, holds_item, holds_ref, holds_name, holds_normalized,
  find_item_by_ref, find_item_by_name, take_unit, remove_item, remove_item_by_name,
  has_item_by_name,
}
use argentum_online_taller_g.Inventory.Valid.{IsValid, IsValidSlot}
use argentum_online_taller_g.Inventory.Stock.{stock, units, units-empty}

-- A unit less in a slot, or the slot emptied with its last unit.
take_unit-stock :
    (inv : Inventory) (i : ℕ) (s : InventorySlot) (item : Item) (name : Bytes)
    → get_elem? inv i ≡ some s
    → s.item ≡ some item
    → 0 < s.quantity
    → stock name (take_unit inv i).1 + (if bytes_eq item.name name then 1 else 0) ≡ stock name inv
unfolding take_unit stock
take_unit-stock inv i s item name at held q = elim (Bool-cases (ltb 1 s.quantity)) [
  | inl t ↦
      rw (at, t, take_unit)
        (ground (
          arith,
          sum_by-set (units name) inv i (record s { quantity = s.quantity - 1 }) s at,
          units_of (s.quantity - 1),
          units_of s.quantity,
        ))
  | inr f ↦
      rw (at, f, take_unit)
        (ground (
          arith,
          sum_by-set (units name) inv i empty_slot s at,
          units-empty name empty_slot (unfold holds_item in refl),
          units_of s.quantity,
        ))
]
  where
    units_of :
        (n : ℕ)
        → units name (record s { quantity = n }) ≡ (if bytes_eq item.name name then n else 0)
    units_of n = unfold units holds_name in rw held

-- The slot that holds an item is the one that `remove_item` finds by its address.
remove_item-held :
    (inv : Inventory) (i : ℕ) (s : InventorySlot) (item : Item)
    → IsValid inv
    → get_elem? inv i ≡ some s
    → s.item ≡ some item
    → remove_item inv item ≡ take_unit inv i
unfolding remove_item
remove_item-held inv i s item ok at held = elim (Option-cases (find_item_by_ref inv item)) [
  | inl n ↦ absurd (
      omega (
        arith,
        count_if-pos (holds_ref item.address) inv i s at here,
        find_index-none (holds_ref item.address) inv (unfold find_item_by_ref in n),
      ))
  | inr (j, f) ↦
      let (s', at', here') =
        find_index-get_elem? (holds_ref item.address) inv j (unfold find_item_by_ref in f) in
      let same : j ≡ i =
        unique_index (holds_ref item.address) inv j i s' s (ok.distinct item.address) at' here' at
          here in
      rw (f, same, remove_item)
]
  where
    here : holds_ref item.address s ≡ true
    here = unfold holds_ref in rw held (ground arith)

has_item-index :
    (inv : Inventory) (name : Bytes)
    → has_item_by_name inv name ≡ true
    → (i : ℕ) × (s : InventorySlot) × (item : Item) × (find_item_by_name inv name ≡ some i)
      × (get_elem? inv i ≡ some s)
      × (s.item ≡ some item)
      × (normalize_name item.name ≡ normalize_name name)
unfolding has_item_by_name find_item_by_name
has_item-index inv name has = elim (Option-cases (find_item_by_name inv name)) [
  | inl n ↦ absurd (let no : false ≡ true = rw (n, has_item_by_name) at has in cc)
  | inr (i, f) ↦
      let (s, at, t) =
        find_index-get_elem? (holds_normalized (normalize_name name)) inv i
          (unfold find_item_by_name in f) in
      elim (Option-cases s.item) [
        | inl n ↦
            absurd (
              let no : false ≡ true = unfold holds_normalized in rw (n, holds_normalized) at t in
              cc)
        | inr (item, held) ↦ (
          i,
          s,
          item,
          f,
          at,
          held,
          (bytes_eq_iff _ _).0 (unfold holds_normalized in rw (held, holds_normalized) at t),
        )
      ]
]

-- In an inventory that is in order, taking an item out by its name takes exactly one unit of one
-- item, whose normalised name is the one asked for, and leaves every other stock as it was.
pub remove_item_by_name-stock :
    (inv : Inventory) (name : Bytes)
    → IsValid inv
    → has_item_by_name inv name ≡ true
    → (item : Item) × (normalize_name item.name ≡ normalize_name name)
      × ((other : Bytes)
          → stock other (remove_item_by_name inv name).1
              + (if bytes_eq item.name other then 1 else 0)
            ≡ stock other inv)
unfolding remove_item_by_name
remove_item_by_name-stock inv name ok has =
    let (i, s, item, f, at, held, same) = has_item-index inv name has in
    (
      item,
      same,
      λ other.
          rw (f, at, held, remove_item_by_name, remove_item-held inv i s item ok at held)
            (take_unit-stock inv i s item other at held
              (counted s item held (All-get_elem? IsValidSlot inv i s ok.slots at))),
    )
  where
    counted :
        (s : InventorySlot) (item : Item) → s.item ≡ some item → IsValidSlot s → 0 < s.quantity
    counted s item held v = ground arith
