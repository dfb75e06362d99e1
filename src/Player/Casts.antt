-- ===== src/Player/Casts.antt =====
-- server/game/items/item_registry.cpp and server/game/inventory.cpp: the casts of what is worn, which
-- `get_equipped_weapon` and `calculate_defense` make with no check.
use mathlib.Core.Option.{some-injective}
use argentum_online_taller_g.Prelude.{
  ℕ, ◌≡◌, ◌≢◌, ap, ◌∙◌, refl, Bool, true, false, Option, none, some, Bytes, arith, inl, inr, All,
  All-find_first, Option-cases, find_first,
}
use argentum_online_taller_g.Prelude.Int.{ℤ}
use argentum_online_taller_g.Item.{
  Item, EquipmentSlot, weapon, armor, helmet, shield, ItemKind, plain_weapon, magic_weapon,
  defensive, consumable, get_slot, kind_slot,
}
use argentum_online_taller_g.Inventory.{Inventory, InventorySlot, equipped_in, get_equipped_item}
use argentum_online_taller_g.Inventory.Valid.{IsValid}
use argentum_online_taller_g.Registry.{
  Registry, ItemTemplate, read_slot, template_kind, get_template, create_item,
}
use argentum_online_taller_g.Player.Wearing.{get_equipped_item-get_slot}

-- The class that the code casts to: a `Weapon` in the weapon's place, and a `DefensiveItem` elsewhere.
abbrev pub is_weapon : ItemKind → Bool
is_weapon (plain_weapon _ _ _) = true
is_weapon (magic_weapon _ _) = true
is_weapon _ = false

abbrev pub is_defensive : ItemKind → Bool
is_defensive (defensive _ _ _) = true
is_defensive _ = false

abbrev pub is_castable : EquipmentSlot → ItemKind → Bool
is_castable weapon k = is_weapon k
is_castable _ k = is_defensive k

-- What the registry has made, at some address, from some name.
abbrev pub IsMade : Registry → Item → Type 0
IsMade r item = (address : ℕ) × (name : Bytes) × (create_item r address name ≡ some item)

-- Every item of the inventory was made by the registry.
abbrev pub HoldsMade : Registry → Inventory → Type 0
HoldsMade r inv = All (λ (s : InventorySlot). (it : Item) → s.item ≡ some it → IsMade r it) inv

-- The registry refuses a defensive item for the weapon's place.
template_kind-weapon : (t : ItemTemplate) (a b : ℤ) → template_kind t ≢ some (defensive a b weapon)
unfolding template_kind read_slot
template_kind-weapon t a b h = ground (arith, h)

elsewhere-is_defensive :
    (k : ItemKind) (e : EquipmentSlot) → kind_slot k ≡ some e → weapon ≢ e → is_defensive k ≡ true
unfolding kind_slot
elsewhere-is_defensive (plain_weapon a b r) e s ne = absurd (ne (some-injective weapon e s))
elsewhere-is_defensive (magic_weapon a b) e s ne = absurd (ne (some-injective weapon e s))
elsewhere-is_defensive (defensive a b f) e s ne = refl
elsewhere-is_defensive (consumable a b) e s ne = ground (arith, s)

made-castable :
    (t : ItemTemplate) (e : EquipmentSlot) (k : ItemKind)
    → template_kind t ≡ some k
    → kind_slot k ≡ some e
    → is_castable e k ≡ true
unfolding kind_slot
made-castable t weapon (plain_weapon a b r) h s = refl
made-castable t weapon (magic_weapon a b) h s = refl
made-castable t weapon (defensive a b f) h s =
    absurd (
      template_kind-weapon t a b (h ∙ ap (λ x. some (defensive a b x)) (some-injective f weapon s)))
made-castable t weapon (consumable a b) h s = ground (arith, s)
made-castable t armor k h s = elsewhere-is_defensive k armor s (λ e. ground (arith, e))
made-castable t helmet k h s = elsewhere-is_defensive k helmet s (λ e. ground (arith, e))
made-castable t shield k h s = elsewhere-is_defensive k shield s (λ e. ground (arith, e))

create_item-castable :
    (r : Registry) (item : Item) (e : EquipmentSlot)
    → IsMade r item
    → get_slot item ≡ some e
    → is_castable e item.kind ≡ true
unfolding create_item
create_item-castable r item e (address, name, made) s = elim (Option-cases (get_template r name)) [
  | inl n ↦
      absurd (let no : ◌≡◌ {A = Option Item} none (some item) = rw (n, create_item) at made in cc)
  | inr (t, f) ↦ elim (Option-cases (template_kind t)) [
    | inl n ↦
        absurd
          (let no : ◌≡◌ {A = Option Item} none (some item) = rw (f, n, create_item) at made in cc)
    | inr (k, g) ↦
        let it : Item = record { address = address; name = t.name; kind = k } in
        let same : it ≡ item = some-injective it item (rw (f, g, create_item) at made) in
        let kinds : k ≡ item.kind = ap (λ (x : Item). x.kind) same in
        rw (← kinds) (made-castable t e k g (rw (← kinds) at s))
  ]
]

-- In an inventory in order whose items the registry has made, what is worn as a weapon is a `Weapon`,
-- and what is worn as armour, helmet or shield is a `DefensiveItem`, so that the casts of
-- `get_equipped_weapon` and `calculate_defense` get what they assume.
pub get_equipped_item-castable :
    (r : Registry) (inv : Inventory) (e : EquipmentSlot) (item : Item)
    → IsValid inv
    → HoldsMade r inv
    → get_equipped_item inv e ≡ some item
    → is_castable e item.kind ≡ true
unfolding get_equipped_item
get_equipped_item-castable r inv e item ok made h =
    create_item-castable r item e held (get_equipped_item-get_slot inv e item ok h)
  where
    held : IsMade r item
    held = elim (Option-cases (find_first (equipped_in e) inv)) [
      | inl n ↦
          absurd
            (let no : ◌≡◌ {A = Option Item} none (some item) = rw (n, get_equipped_item) at h in cc)
      | inr (s, f) ↦
          All-find_first (λ (s : InventorySlot). (it : Item) → s.item ≡ some it → IsMade r it)
            (equipped_in e) inv s made f item (rw (f, get_equipped_item) at h)
    ]
