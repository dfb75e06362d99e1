-- ===== src/Player/Wearing.antt =====
-- server/game/inventory.cpp: `equip` on an inventory that is in order, and what is worn.
use mathlib.Core.Option.{some-injective}
use argentum_online_taller_g.Prelude.{
  ℕ, ◌≡◌, ◌≢◌, refl, sym, ap, ◌∙◌, inl, inr, Bool, true, false, not, ◌&&◌, Option, none, some,
  arith, get_elem?, set, find_index, find_first, count_if, Bool-cases, Option-cases, All-get_elem?,
  All-set, find_index-get_elem?, find_index-none, count_if-set, unique_index, count_if-split,
  get_elem?-set_ne, find_first-holds, All-find_first,
}
use argentum_online_taller_g.Prelude.Int.{ℤ}
use argentum_online_taller_g.Item.{
  Item, EquipmentSlot, ItemKind, plain_weapon, magic_weapon, defensive, consumable, health, mana,
  get_slot, slot_eq,
}
use argentum_online_taller_g.Inventory.{
  Inventory, InventorySlot, equipped_in, holds_item, holds_ref, find_item_by_ref, unequip_first,
  get_equipped_item,
}
use argentum_online_taller_g.Inventory.Valid.{
  IsValid, IsValidSlot, remove_item-IsValid, unequipped-IsValid,
}
use argentum_online_taller_g.Player.Character.{Player, restore_mana}
use argentum_online_taller_g.Player.Equipment.{wear, equip, use_consumable, use_effect}

slot_eq-eq : (a b : EquipmentSlot) → slot_eq a b ≡ true → a ≡ b
unfolding slot_eq
slot_eq-eq a b h = ground arith

slot_eq_self : (a : EquipmentSlot) → slot_eq a a ≡ true
unfolding slot_eq
slot_eq_self a = ground arith

fits :
    (e : EquipmentSlot) (s : InventorySlot) (item : Item)
    → IsValidSlot s
    → equipped_in e s ≡ true
    → s.item ≡ some item
    → get_slot item ≡ some e
unfolding equipped_in holds_item
fits e s item v t held = elim (Option-cases s.equipped_slot) [
  | inl n ↦ absurd (ground arith)
  | inr (e', w) ↦ ground (arith, slot_eq-eq e' e)
]

-- In an inventory in order, what is worn in a place says that this is its place.
pub get_equipped_item-get_slot :
    (inv : Inventory) (e : EquipmentSlot) (item : Item)
    → IsValid inv
    → get_equipped_item inv e ≡ some item
    → get_slot item ≡ some e
unfolding get_equipped_item
get_equipped_item-get_slot inv e item ok h = elim (Option-cases (find_first (equipped_in e) inv)) [
  | inl n ↦
      absurd
        (let no : ◌≡◌ {A = Option Item} none (some item) = rw (n, get_equipped_item) at h in cc)
  | inr (s, f) ↦
      fits e s item (All-find_first IsValidSlot (equipped_in e) inv s ok.slots f)
        (find_first-holds (equipped_in e) inv s f) (rw (f, get_equipped_item) at h)
]

and_left : (a b : Bool) → (a && b) ≡ true → a ≡ true
and_left a b h = ground arith

and_right : (a b : Bool) → (a && b) ≡ true → b ≡ true
and_right a b h = ground arith

unworn-equipped_in :
    (e : EquipmentSlot) (t : InventorySlot)
    → equipped_in e (record t { equipped_slot = none }) ≡ false
unfolding equipped_in
unworn-equipped_in e t = ground arith

module _ (inv : Inventory) (i : ℕ) (s : InventorySlot) (item : Item) (e : EquipmentSlot)
    (ok : IsValid inv) (at : get_elem? inv i ≡ some s) (held : s.item ≡ some item)
    (bare : s.equipped_slot ≡ none) (place : get_slot item ≡ some e) where
  here : holds_ref item.address s ≡ true
  unfolding holds_ref
  here = rw held (ground arith)

  bare-equipped_in : (e' : EquipmentSlot) → equipped_in e' s ≡ false
  unfolding equipped_in
  bare-equipped_in e' = ground arith

  abbrev rival : InventorySlot → Bool
  rival t = equipped_in e t && not (holds_ref item.address t)

  -- The item itself is not worn, so whatever is worn in its place is a rival.
  worn-rival : count_if (equipped_in e) inv ≡ count_if rival inv
  worn-rival = elim (Option-cases (find_index both inv)) [
    | inl n ↦ omega (
      arith,
      count_if-split (equipped_in e) (holds_ref item.address) inv,
      find_index-none both inv n,
    )
    | inr (j, f) ↦
        let (t, there, h) = find_index-get_elem? both inv j f in
        let same : j ≡ i =
          unique_index (holds_ref item.address) inv j i t s (ok.distinct item.address) there
            (and_right (equipped_in e t) (holds_ref item.address t) h) at here in
        let slot : t ≡ s = some-injective _ _ (sym there ∙ rw same at) in
        let no : equipped_in e s ≡ true =
          rw slot at (and_left (equipped_in e t) (holds_ref item.address t) h) in
        absurd (cc (no, bare-equipped_in e))
  ]
    where
      both : InventorySlot → Bool
      both t = equipped_in e t && holds_ref item.address t

  worn-IsValidSlot : IsValidSlot (record s { equipped_slot = some e })
  worn-IsValidSlot = ground (arith, All-get_elem? IsValidSlot inv i s ok.slots at, held, place)

  worn-equipped_in :
      (e' : EquipmentSlot) → equipped_in e' (record s { equipped_slot = some e }) ≡ slot_eq e e'
  unfolding equipped_in holds_item
  worn-equipped_in e' = ground arith

  -- Over slots in which the place is free, putting the item on keeps the inventory in order.
  put_on-IsValid :
      (others : Inventory)
      → IsValid others
      → get_elem? others i ≡ some s
      → count_if (equipped_in e) others ≡ 0
      → IsValid (set others i (record s { equipped_slot = some e }))
  unfolding holds_ref
  put_on-IsValid others fine there free = record {
    slots = All-set IsValidSlot others i _ fine.slots worn-IsValidSlot;
    worn = λ e'. elim (Bool-cases (slot_eq e e')) [
      | inl t ↦ rw (← slot_eq-eq e e' t) (
          ground (
            arith,
            free,
            count_if-set (equipped_in e) others i (record s { equipped_slot = some e }) s there,
          ))
      | inr f ↦ ground (
        arith,
        f,
        worn-equipped_in e',
        bare-equipped_in e',
        fine.worn e',
        count_if-set (equipped_in e') others i (record s { equipped_slot = some e }) s there,
      )
    ];
    distinct = λ a. ground (
      arith,
      fine.distinct a,
      count_if-set (holds_ref a) others i (record s { equipped_slot = some e }) s there,
    );
  }

  -- Putting an item on keeps the inventory in order, and the item is the one that is worn there.
  wear-IsValid : IsValid (wear inv i s item e)
  unfolding wear unequip_first
  wear-IsValid = elim (Option-cases (find_index rival inv)) [
    | inl n ↦
        rw (n, wear, unequip_first)
          (put_on-IsValid inv ok at (worn-rival ∙ find_index-none rival inv n))
    | inr (j, f) ↦
        let (t, there, h) = find_index-get_elem? rival inv j f in
        let worn_t : equipped_in e t ≡ true = and_left _ (not (holds_ref item.address t)) h in
        let apart : j ≢ i = λ same.
          let slot : t ≡ s = some-injective _ _ (sym there ∙ rw same at) in
          cc (worn_t, bare-equipped_in e, ap (equipped_in e) slot) in
        rw (f, there, wear, unequip_first)
          (put_on-IsValid (set inv j (record t { equipped_slot = none }))
            (unequipped-IsValid inv j t there ok)
            (get_elem?-set_ne inv (record t { equipped_slot = none }) apart ∙ at)
            (ground (
              arith,
              worn_t,
              unworn-equipped_in e t,
              ok.worn e,
              count_if-set (equipped_in e) inv j (record t { equipped_slot = none }) t there,
            )))
  ]

restore_mana-inventory : (r : ℤ) (p : Player) → (restore_mana r p).inventory ≡ p.inventory
unfolding restore_mana
restore_mana-inventory r p = ground arith

use_consumable-inventory :
    (item : Item) (p : Player) → IsValid p.inventory → IsValid (use_consumable item p).inventory
unfolding use_consumable use_effect
use_consumable-inventory item p ok = use_kind item.kind refl
  where
    use_kind : (k : ItemKind) → item.kind ≡ k → IsValid (use_consumable item p).inventory
    use_kind (consumable health r) h =
        rw (h, use_consumable) (remove_item-IsValid p.inventory item ok)
    use_kind (consumable mana r) h =
        rw (h, use_consumable, restore_mana-inventory r p) (remove_item-IsValid p.inventory item ok)
    use_kind (plain_weapon _ _ _) h = rw (h, use_consumable) ok
    use_kind (magic_weapon _ _) h = rw (h, use_consumable) ok
    use_kind (defensive _ _ _) h = rw (h, use_consumable) ok

-- Equipping what a slot of an inventory in order holds, be it put on, taken off or used up, keeps
-- the inventory in order.
pub equip-IsValid :
    (p : Player) (i : ℕ) (s : InventorySlot) (item : Item)
    → IsValid p.inventory
    → get_elem? p.inventory i ≡ some s
    → s.item ≡ some item
    → IsValid (equip item p).1.inventory
unfolding equip find_item_by_ref
equip-IsValid p i s item ok at held =
    elim (Option-cases (find_index (holds_ref item.address) p.inventory)) [
      | inl n ↦ rw (n, equip, find_item_by_ref) ok
      | inr (j, f) ↦
          let (t, there, h) = find_index-get_elem? (holds_ref item.address) p.inventory j f in
          let same : j ≡ i =
            unique_index (holds_ref item.address) p.inventory j i t s (ok.distinct item.address)
              there h at here in
          let found : find_index (holds_ref item.address) p.inventory ≡ some i = f ∙ ap some same in
          elim (Option-cases (get_slot item)) [
            | inl n ↦ rw (f, n, equip, find_item_by_ref) (use_consumable-inventory item p ok)
            | inr (e, place) ↦ elim (Option-cases s.equipped_slot) [
              | inl bare ↦
                  rw (found, place, at, bare, equip, find_item_by_ref)
                    (wear-IsValid p.inventory i s item e ok at held bare place)
              | inr (e', w) ↦
                  rw (found, place, at, w, equip, find_item_by_ref)
                    (unequipped-IsValid p.inventory i s at ok)
            ]
          ]
    ]
  where
    here : holds_ref item.address s ≡ true
    here = unfold holds_ref in rw held (ground arith)
