-- ===== src/Inventory/Adding.antt =====
-- server/game/inventory.cpp: `add_item` on an inventory that is in order.
use argentum_online_taller_g.Prelude.{
  ℕ, ◌+◌, ◌≤◌, ◌<◌, ◌≡◌, refl, inl, inr, Bool, true, false, none, some, [], ◌∷◌, Bytes, arith, ◌==◌,
  if◌then◌else◌, Bool-cases, Option-cases, count_if, All, find_index-get_elem?,
}
use argentum_online_taller_g.Prelude.Int.{ℤ, pos, pos_part, leb_ℤ, pos_part-pos}
use argentum_online_taller_g.Item.{Item, EquipmentSlot, get_slot}
use argentum_online_taller_g.Inventory.{
  Inventory, InventorySlot, holds_item, holds_ref, holds_name, equipped_in, find_item_by_type,
  can_add_item, add_quantity, place_item, store_item, add_item,
}
use argentum_online_taller_g.Inventory.Valid.{IsNew, IsValid, IsValidSlot, requantify-IsValid}

-- What placing an item does to a count of slots that passes over the empty ones.
place_item-count_if :
    (p : InventorySlot → Bool) (inv : Inventory) (item : Item) (q : ℕ)
    → ((s : InventorySlot) → holds_item s ≡ false → p s ≡ false)
    → count_if p (place_item inv item q)
      ≤ count_if p inv
        + (if p (record { item = some item; quantity = q; equipped_slot = none }) then 1 else 0)
unfolding place_item count_if
place_item-count_if p [] item q h = omega arith
place_item-count_if p (s ∷ inv) item q h = ground (arith, place_item-count_if p inv item q h, h s)

place_item-All :
    (inv : Inventory) (item : Item) (q : ℕ)
    → 0 < q
    → All IsValidSlot inv
    → All IsValidSlot (place_item inv item q)
unfolding place_item
place_item-All [] item q h ok = tt
place_item-All (s ∷ inv) item q h ok = elim (Bool-cases (holds_item s)) [
  | inl t ↦ rw t (ok.0, place_item-All inv item q h ok.1)
  | inr f ↦ rw f ((h, inl refl), ok.1)
]

empty-equipped_in :
    (e : EquipmentSlot) (s : InventorySlot) → holds_item s ≡ false → equipped_in e s ≡ false
unfolding equipped_in
empty-equipped_in e s h = rw h

empty-holds_ref : (a : ℕ) (s : InventorySlot) → holds_item s ≡ false → holds_ref a s ≡ false
unfolding holds_ref holds_item
empty-holds_ref a s h = ground arith

place_item-IsValid :
    (inv : Inventory) (item : Item) (q : ℕ)
    → 0 < q
    → IsNew item inv
    → IsValid inv
    → IsValid (place_item inv item q)
unfolding equipped_in holds_item holds_ref
place_item-IsValid inv item q h new ok = record {
  slots = place_item-All inv item q h ok.slots;
  worn = λ e.
      ground
        (arith, ok.worn e, place_item-count_if (equipped_in e) inv item q (empty-equipped_in e));
  distinct = λ a. elim (Bool-cases (item.address == a)) [
    | inl t ↦
        let e : item.address ≡ a = ground arith in
        rw (← e) (
          ground (
            arith,
            new,
            place_item-count_if (holds_ref item.address) inv item q (empty-holds_ref item.address),
          ))
    | inr f ↦
        ground
          (arith, ok.distinct a, place_item-count_if (holds_ref a) inv item q (empty-holds_ref a))
  ];
}

holds_name-holds_item :
    (name : Bytes) (s : InventorySlot) → holds_name name s ≡ true → holds_item s ≡ true
unfolding holds_name holds_item
holds_name-holds_item name s h = ground arith

store_item-IsValid :
    (inv : Inventory) (item : Item) (q : ℕ)
    → 0 < q
    → IsNew item inv
    → IsValid inv
    → IsValid (store_item inv item q)
unfolding store_item add_quantity find_item_by_type
store_item-IsValid inv item q h new ok = elim (Option-cases (get_slot item)) [
  | inr (e, w) ↦ rw (w, store_item) (place_item-IsValid inv item q h new ok)
  | inl n ↦ elim (Option-cases (find_item_by_type inv item)) [
    | inl m ↦ rw (n, m, store_item) (place_item-IsValid inv item q h new ok)
    | inr (i, f) ↦
        let (s, at, t) = find_index-get_elem? (holds_name item.name) inv i f in
        rw (n, f, at, store_item, add_quantity)
          (requantify-IsValid inv i s (s.quantity + q) at (holds_name-holds_item item.name s t)
            (omega arith) ok)
  ]
]

-- Adding an item that no slot holds yet keeps the inventory in order, on every branch.
pub add_item-IsValid :
    (inv : Inventory) (item : Item) (quantity : ℤ)
    → IsNew item inv
    → IsValid inv
    → IsValid (add_item inv (some item) quantity).1
unfolding add_item
add_item-IsValid inv item quantity new ok = elim (Bool-cases (leb_ℤ quantity (pos 0))) [
  | inl z ↦ rw (z, add_item) ok
  | inr p ↦ elim (Bool-cases (can_add_item inv item)) [
    | inl t ↦
        rw (p, t, add_item)
          (store_item-IsValid inv item (pos_part quantity) (pos_part-pos quantity p) new ok)
    | inr f ↦ rw (p, f, add_item) ok
  ]
]
