-- ===== src/Inventory/Valid.antt =====
-- server/game/inventory.cpp: when an inventory is in order, and its operations on those that are.
use mathlib.Core.Option.{some-injective}
use argentum_online_taller_g.Prelude.{
  ℕ, zero, suc, ◌-◌, ◌≤◌, ◌<◌, ◌≡◌, refl, ◌⊎◌, inl, inr, Bool, true, false, Option, none, some,
  Bytes, arith, ltb, Bool-cases, Option-cases, find_index, count_if, get_elem?, set, replicate, All,
  All-set, All-get_elem?, count_if-set, find_index-get_elem?,
}
use argentum_online_taller_g.Prelude.Int.{ℤ, pos, negsuc, pos_part}
use argentum_online_taller_g.Config.{GameConfig}
use argentum_online_taller_g.Item.{Item, EquipmentSlot, get_slot}
use argentum_online_taller_g.Inventory.{
  Inventory, InventorySlot, empty_slot, new_inventory, holds_item, holds_ref, equipped_in,
  find_item_by_ref, find_item_by_name, unequip_first, unequip, take_unit, remove_item,
  remove_item_by_name, pop_slot,
}

-- An empty slot counts nothing and is not equipped; a filled one counts at least one unit, and is
-- equipped only in the slot that its item is made for.
abbrev pub IsValidSlot : InventorySlot → Type 0
IsValidSlot s = elim s.item [
  | none ↦ (s.quantity ≡ 0) × (s.equipped_slot ≡ none)
  | some it ↦ (0 < s.quantity) × ((s.equipped_slot ≡ none) ⊎ (s.equipped_slot ≡ get_slot it))
]

-- Every slot is in order, at most one item is worn in each place, and no item stands in two slots.
pub record IsValid (inv : Inventory) : Type 0 where
  pub slots : All IsValidSlot inv
  pub worn : (e : EquipmentSlot) → count_if (equipped_in e) inv ≤ 1
  pub distinct : (a : ℕ) → count_if (holds_ref a) inv ≤ 1

-- An item that is not in the inventory yet.
abbrev pub IsNew : Item → Inventory → Type 0
IsNew item inv = count_if (holds_ref item.address) inv ≡ 0

count_if-replicate :
    (p : InventorySlot → Bool) (n : ℕ)
    → p empty_slot ≡ false
    → count_if p (replicate n empty_slot) ≡ 0
unfolding count_if
count_if-replicate p zero h = refl
count_if-replicate p (suc n) h = rw h (omega (arith, count_if-replicate p n h))

All-replicate : (n : ℕ) → All IsValidSlot (replicate n empty_slot)
All-replicate zero = tt
All-replicate (suc n) = ((refl, refl), All-replicate n)

equipped_in-empty : (e : EquipmentSlot) → equipped_in e empty_slot ≡ false
unfolding equipped_in holds_item
equipped_in-empty e = refl

holds_ref-empty : (a : ℕ) → holds_ref a empty_slot ≡ false
unfolding holds_ref
holds_ref-empty a = refl

-- A new inventory is in order.
pub new_inventory-IsValid : (config : GameConfig) → IsValid (new_inventory config)
unfolding new_inventory
new_inventory-IsValid config = record {
  slots = All-replicate (pos_part config.max_inventory_items);
  worn = λ e. omega (
    arith,
    count_if-replicate (equipped_in e) (pos_part config.max_inventory_items) (equipped_in-empty e),
  );
  distinct = λ a. omega (
    arith,
    count_if-replicate (holds_ref a) (pos_part config.max_inventory_items) (holds_ref-empty a),
  );
}

-- A slot is replaced by one that is in order, is worn only where the old one was, and holds no
-- other item.
set-IsValid :
    (inv : Inventory) (i : ℕ) (s v : InventorySlot)
    → get_elem? inv i ≡ some s
    → IsValidSlot v
    → ((e : EquipmentSlot) → equipped_in e v ≡ true → equipped_in e s ≡ true)
    → ((a : ℕ) → holds_ref a v ≡ true → holds_ref a s ≡ true)
    → IsValid inv
    → IsValid (set inv i v)
set-IsValid inv i s v at good wear hold ok = record {
  slots = All-set IsValidSlot inv i v ok.slots good;
  worn = λ e. ground (arith, count_if-set (equipped_in e) inv i v s at, wear e, ok.worn e);
  distinct = λ a. ground (arith, count_if-set (holds_ref a) inv i v s at, hold a, ok.distinct a);
}

-- A slot may always be emptied.
clear-IsValid :
    (inv : Inventory) (i : ℕ) (s : InventorySlot)
    → get_elem? inv i ≡ some s
    → IsValid inv
    → IsValid (set inv i empty_slot)
unfolding equipped_in holds_item holds_ref
clear-IsValid inv i s at ok =
    set-IsValid inv i s empty_slot at (refl, refl) (λ e h. absurd (cc h)) (λ a h. absurd (cc h)) ok

-- What an item's slot says of a changed quantity or a cleared mark.
requantify-IsValidSlot :
    (s : InventorySlot) (q : ℕ)
    → holds_item s ≡ true
    → 0 < q
    → IsValidSlot s
    → IsValidSlot (record s { quantity = q })
unfolding holds_item
requantify-IsValidSlot s q h k v = ground arith

unequipped-IsValidSlot :
    (s : InventorySlot) → IsValidSlot s → IsValidSlot (record s { equipped_slot = none })
unequipped-IsValidSlot s v = ground arith

pub requantify-IsValid :
    (inv : Inventory) (i : ℕ) (s : InventorySlot) (q : ℕ)
    → get_elem? inv i ≡ some s
    → holds_item s ≡ true
    → 0 < q
    → IsValid inv
    → IsValid (set inv i (record s { quantity = q }))
unfolding equipped_in holds_item holds_ref
requantify-IsValid inv i s q at h k ok =
    set-IsValid inv i s _ at
      (requantify-IsValidSlot s q h k (All-get_elem? IsValidSlot inv i s ok.slots at)) (λ e t. t)
      (λ a t. t) ok

-- In a valid inventory a slot that counts something holds an item.
pub counted-holds_item : (s : InventorySlot) → IsValidSlot s → 0 < s.quantity → holds_item s ≡ true
unfolding holds_item
counted-holds_item s v h = ground arith

-- A mark may always be cleared.
pub unequipped-IsValid :
    (inv : Inventory) (i : ℕ) (s : InventorySlot)
    → get_elem? inv i ≡ some s
    → IsValid inv
    → IsValid (set inv i (record s { equipped_slot = none }))
unfolding equipped_in holds_item holds_ref
unequipped-IsValid inv i s at ok =
    set-IsValid inv i s _ at
      (unequipped-IsValidSlot s (All-get_elem? IsValidSlot inv i s ok.slots at))
      (λ e t. absurd (ground arith)) (λ a t. t) ok

pub unequip_first-IsValid :
    (p : InventorySlot → Bool) (inv inv' : Inventory)
    → unequip_first p inv ≡ some inv'
    → IsValid inv
    → IsValid inv'
unfolding unequip_first
unequip_first-IsValid p inv inv' e ok = elim (Option-cases (find_index p inv)) [
  | inl n ↦
      absurd
        (let no : ◌≡◌ {A = Option Inventory} none (some inv') = rw (n, unequip_first) at e in cc)
  | inr (i, f) ↦
      let (s, at, t) = find_index-get_elem? p inv i f in
      let same : ◌≡◌ {A = Option Inventory} (some (set inv i (record s { equipped_slot = none })))
          (some inv') =
        rw (f, at, unequip_first) at e in
      rw (← some-injective _ _ same) (unequipped-IsValid inv i s at ok)
]

pub unequip-IsValid :
    (inv : Inventory) (slot : EquipmentSlot) → IsValid inv → IsValid (unequip inv slot).1
unfolding unequip
unequip-IsValid inv slot ok = elim (Option-cases (unequip_first (equipped_in slot) inv)) [
  | inl n ↦ rw (n, unequip) ok
  | inr (inv', e) ↦ rw (e, unequip) (unequip_first-IsValid _ inv inv' e ok)
]

pub take_unit-IsValid : (inv : Inventory) (i : ℕ) → IsValid inv → IsValid (take_unit inv i).1
unfolding take_unit
take_unit-IsValid inv i ok = elim (Option-cases (get_elem? inv i)) [
  | inl n ↦ rw (n, take_unit) ok
  | inr (s, at) ↦ elim (Bool-cases (ltb 1 s.quantity)) [
    | inl t ↦
        rw (at, t, take_unit)
          (requantify-IsValid inv i s (s.quantity - 1) at
            (counted-holds_item s (All-get_elem? IsValidSlot inv i s ok.slots at) (ground arith))
            (ground arith) ok)
    | inr f ↦ rw (at, f, take_unit) (clear-IsValid inv i s at ok)
  ]
]

pub remove_item-IsValid :
    (inv : Inventory) (item : Item) → IsValid inv → IsValid (remove_item inv item).1
unfolding remove_item
remove_item-IsValid inv item ok = elim (Option-cases (find_item_by_ref inv item)) [
  | inl n ↦ rw (n, remove_item) ok
  | inr (i, e) ↦ rw (e, remove_item) (take_unit-IsValid inv i ok)
]

-- Taking an item out by its name keeps the inventory in order.
pub remove_item_by_name-IsValid :
    (inv : Inventory) (name : Bytes) → IsValid inv → IsValid (remove_item_by_name inv name).1
unfolding remove_item_by_name
remove_item_by_name-IsValid inv name ok = elim (Option-cases (find_item_by_name inv name)) [
  | inl n ↦ rw (n, remove_item_by_name) ok
  | inr (i, e) ↦ elim (Option-cases (get_elem? inv i)) [
    | inl n ↦ rw (e, n, remove_item_by_name) ok
    | inr (s, at) ↦ elim (Option-cases s.item) [
      | inl n ↦ rw (e, at, n, remove_item_by_name) ok
      | inr (item, h) ↦ rw (e, at, h, remove_item_by_name) (remove_item-IsValid inv item ok)
    ]
  ]
]

-- Dropping a slot keeps the inventory in order, for every index.
pub pop_slot-IsValid : (inv : Inventory) (i : ℤ) → IsValid inv → IsValid (pop_slot inv i).1
unfolding pop_slot
pop_slot-IsValid inv (negsuc n) ok = ok
pop_slot-IsValid inv (pos i) ok = elim (Option-cases (get_elem? inv i)) [
  | inl n ↦ rw (n, pop_slot) ok
  | inr (s, at) ↦ rw (at, pop_slot) (clear-IsValid inv i s at ok)
]
