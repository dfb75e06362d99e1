-- ===== src/Inventory/Stock.antt =====
-- server/game/inventory.cpp: how many units of each item an inventory holds, and its operations on
-- that.
use argentum_online_taller_g.Prelude.{
  ℕ, ◌+◌, ◌<◌, ◌≡◌, refl, ap, ◌∙◌, ◌↔◌, ◌⊎◌, inl, inr, Bool, true, false, ◌&&◌, not, none, some, [],
  ◌∷◌, Bytes, bytes_eq, bytes_eq_iff, arith, if◌then◌else◌, Bool-cases, Option-cases, count_if,
  get_elem?, find_index-get_elem?, find_index-none, find_index-count_if, sum_by, sum_by-set,
}
use argentum_online_taller_g.Prelude.Int.{ℤ, pos, negsuc, pos_part, leb_ℤ, pos_part-pos}
use argentum_online_taller_g.Item.{Item, get_slot}
use argentum_online_taller_g.Inventory.{
  Inventory, InventorySlot, empty_slot, holds_item, holds_name, find_item_by_type, is_full,
  can_add_item, add_quantity, place_item, store_item, add_item, pop_slot, drop_all,
}

-- The units of an item, by its name, in one slot.
unfoldable pub units : Bytes → InventorySlot → ℕ
units name s = if holds_name name s then s.quantity else 0

-- The units in a whole inventory.
unfoldable pub stock : Bytes → Inventory → ℕ
stock name inv = sum_by (units name) inv

abbrev filled : Item → ℕ → InventorySlot
filled item q = record { item = some item; quantity = q; equipped_slot = none }

units-filled :
    (name : Bytes) (item : Item) (q : ℕ)
    → units name (filled item q) ≡ (if bytes_eq item.name name then q else 0)
unfolding units holds_name
units-filled name item q = refl

pub units-empty : (name : Bytes) (s : InventorySlot) → holds_item s ≡ false → units name s ≡ 0
unfolding units holds_name holds_item
units-empty name s h = ground arith

-- A change of the quantity, where the slot holds the item that is counted or another.
units-requantify :
    (name : Bytes) (item : Item) (s : InventorySlot) (q : ℕ)
    → holds_name item.name s ≡ true
    → units name (record s { quantity = s.quantity + q })
      ≡ units name s + (if bytes_eq item.name name then q else 0)
unfolding units holds_name
units-requantify name item s q h = elim (Option-cases s.item) [
  | inl n ↦ absurd (ground arith)
  | inr (it, e) ↦ ground (
    arith,
    bytes_eq_iff it.name item.name,
    bytes_eq_iff it.name name,
    bytes_eq_iff item.name name,
  )
]

place_item-stock :
    (name : Bytes) (inv : Inventory) (item : Item) (q : ℕ)
    → is_full inv ≡ false
    → sum_by (units name) (place_item inv item q)
      ≡ sum_by (units name) inv + units name (filled item q)
unfolding sum_by place_item is_full
place_item-stock name [] item q h = absurd (cc)
place_item-stock name (s ∷ inv) item q h = elim (Bool-cases (holds_item s)) [
  | inl t ↦ rw t (omega (arith, place_item-stock name inv item q (rw t at h)))
  | inr f ↦ rw f (omega (arith, units-empty name s f))
]

not-true : (b : Bool) → not b ≡ true → b ≡ false
not-true true h = cc
not-true false h = refl

store_item-stock :
    (name : Bytes) (inv : Inventory) (item : Item) (q : ℕ)
    → can_add_item inv item ≡ true
    → stock name (store_item inv item q)
      ≡ stock name inv + (if bytes_eq item.name name then q else 0)
unfolding stock store_item add_quantity can_add_item
store_item-stock name inv item q h = elim (Option-cases (get_slot item)) [
  | inr (e, w) ↦
      rw (w, store_item)
        (place_item-stock name inv item q (not-true _ (rw (w, can_add_item) at h)) ∙ units_added)
  | inl n ↦ elim (Option-cases (find_item_by_type inv item)) [
    | inl m ↦
        rw (n, m, store_item)
          (place_item-stock name inv item q (not-true _ (rw (n, m, can_add_item) at h))
            ∙ units_added)
    | inr (i, f) ↦ stacked i n f
  ]
]
  where
    units_added :
        sum_by (units name) inv + units name (filled item q)
        ≡ sum_by (units name) inv + (if bytes_eq item.name name then q else 0)
    units_added = ap (◌+◌ (sum_by (units name) inv)) (units-filled name item q)

    stacked :
        (i : ℕ)
        → get_slot item ≡ none
        → find_item_by_type inv item ≡ some i
        → stock name (store_item inv item q)
          ≡ stock name inv + (if bytes_eq item.name name then q else 0)
    stacked i n f =
        let (s, at, t) =
          find_index-get_elem? (holds_name item.name) inv i (unfold find_item_by_type in f) in
        rw (n, f, at, store_item, add_quantity)
          (omega (
            arith,
            sum_by-set (units name) inv i (record s { quantity = s.quantity + q }) s at,
            units-requantify name item s q t,
          ))

-- Adding items adds exactly the quantity to the stock of that item and nothing to any other, when
-- the call succeeds; when it fails no stock changes.
pub add_item-stock :
    (inv : Inventory) (item : Item) (quantity : ℤ) (name : Bytes)
    → let (done, after) = add_item inv (some item) quantity in
      stock name after
      ≡ stock name inv + (if done && bytes_eq item.name name then pos_part quantity else 0)
unfolding add_item
add_item-stock inv item quantity name = elim (Bool-cases (leb_ℤ quantity (pos 0))) [
  | inl z ↦ rw (z, add_item) (omega arith)
  | inr p ↦ elim (Bool-cases (can_add_item inv item)) [
    | inl t ↦ rw (p, t, add_item) (store_item-stock name inv item (pos_part quantity) t)
    | inr f ↦ rw (p, f, add_item) (omega arith)
  ]
]

-- A slot for the item: an empty one, or a stack that it may join.
abbrev pub HasRoom : Inventory → Item → Type 0
HasRoom inv item =
    (is_full inv ≡ false) ⊎ ((get_slot item ≡ none) × (0 < count_if (holds_name item.name) inv))

can_add_item_iff :
    (inv : Inventory) (item : Item) → (can_add_item inv item ≡ true) ↔ HasRoom inv item
unfolding can_add_item
can_add_item_iff inv item = elim (Option-cases (get_slot item)) [
  | inr (e, w) ↦ rw (w, can_add_item) (ground arith)
  | inl n ↦ elim (Option-cases (find_item_by_type inv item)) [
    | inl m ↦
        let none_held : count_if (holds_name item.name) inv ≡ 0 =
          find_index-none _ inv (unfold find_item_by_type in m) in
        rw (n, m, none_held, can_add_item) (ground arith)
    | inr (i, f) ↦
        let held : 0 < count_if (holds_name item.name) inv =
          find_index-count_if _ inv i (unfold find_item_by_type in f) in
        rw (n, f, can_add_item) (λ h. inr (refl, held), λ h. refl)
  ]
]

-- Adding succeeds exactly when the quantity is positive and there is an empty slot or, for what is
-- not equippable, a stack of that name.
pub add_item_iff :
    (inv : Inventory) (item : Item) (quantity : ℤ)
    → ((add_item inv (some item) quantity).0 ≡ true) ↔ ((0 < pos_part quantity) × HasRoom inv item)
unfolding add_item
add_item_iff inv item quantity = elim (Bool-cases (leb_ℤ quantity (pos 0))) [
  | inl z ↦ rw (z, add_item) (λ h. cc, λ h. absurd (ground arith))
  | inr p ↦ elim (Bool-cases (can_add_item inv item)) [
    | inl t ↦
        rw (p, t, add_item)
          (λ h. (pos_part-pos quantity p, (can_add_item_iff inv item).0 t), λ h. refl)
    | inr f ↦ rw (p, f, add_item) (λ h. cc, λ h. cc (f, (can_add_item_iff inv item).1 h.1))
  ]
]

-- Popping a slot, for any index, moves its whole stock into the slot that is returned.
pub pop_slot-stock :
    (inv : Inventory) (index : ℤ) (name : Bytes)
    → let (slot, left) = pop_slot inv index in units name slot + stock name left ≡ stock name inv
unfolding pop_slot stock
pop_slot-stock inv (negsuc n) name =
    omega (arith, units-empty name empty_slot (unfold holds_item in refl))
pop_slot-stock inv (pos i) name = elim (Option-cases (get_elem? inv i)) [
  | inl n ↦
      rw (n, pop_slot) (omega (arith, units-empty name empty_slot (unfold holds_item in refl)))
  | inr (s, at) ↦
      rw (at, pop_slot)
        (omega (
          arith,
          units-empty name empty_slot (unfold holds_item in refl),
          sum_by-set (units name) inv i empty_slot s at,
        ))
]

-- Dropping all moves the whole stock into what is dropped, and leaves nothing.
pub drop_all-stock :
    (inv : Inventory) (name : Bytes)
    → let (dropped, left) = drop_all inv in
      (sum_by (units name) dropped ≡ stock name inv) × (stock name left ≡ 0)
unfolding drop_all stock sum_by
drop_all-stock [] name = (refl, refl)
drop_all-stock (s ∷ inv) name = elim (Bool-cases (holds_item s)) [
  | inl t ↦ rw t (
      omega
        (arith, drop_all-stock inv name, units-empty name empty_slot (unfold holds_item in refl)))
  | inr f ↦ rw f (omega (arith, drop_all-stock inv name, units-empty name s f))
]
