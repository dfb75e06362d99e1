-- ===== src/Item.antt =====
-- server/game/items: the items of the game. The class hierarchy is `ItemKind`; an item is one
-- object, and `address` is the address that the code compares pointers by.
use argentum_online_taller_g.Prelude.{ℕ, Bool, true, false, Option, none, some, Bytes}
use argentum_online_taller_g.Prelude.Int.{ℤ, pos, ltb_ℤ}

pub data EquipmentSlot : Type 0 where
  weapon armor helmet shield : EquipmentSlot

pub data ConsumableType : Type 0 where
  health mana : ConsumableType

pub record Spell : Type 0 where
  pub name : Bytes
  pub min_damage : ℤ
  pub max_damage : ℤ
  pub min_heal : ℤ
  pub max_heal : ℤ

pub data ItemKind : Type 0 where
  plain_weapon : (min_damage max_damage : ℤ) → (ranged : Bool) → ItemKind
  magic_weapon : Spell → (mana_cost : ℤ) → ItemKind
  defensive : (min_defense max_defense : ℤ) → EquipmentSlot → ItemKind
  consumable : ConsumableType → (restore : ℤ) → ItemKind

pub record Item : Type 0 where
  pub address : ℕ
  pub name : Bytes
  pub kind : ItemKind

-- `Item::get_slot` of each class.
unfoldable pub kind_slot : ItemKind → Option EquipmentSlot
kind_slot (plain_weapon _ _ _) = some weapon
kind_slot (magic_weapon _ _) = some weapon
kind_slot (defensive _ _ s) = some s
kind_slot (consumable _ _) = none

abbrev pub get_slot : Item → Option EquipmentSlot
get_slot item = kind_slot item.kind

-- `==` of two slots.
unfoldable pub slot_eq : EquipmentSlot → EquipmentSlot → Bool
slot_eq weapon weapon = true
slot_eq armor armor = true
slot_eq helmet helmet = true
slot_eq shield shield = true
slot_eq _ _ = false

unfoldable pub does_heal : Spell → Bool
does_heal s = ltb_ℤ (pos 0) s.max_heal

-- `Weapon::get_mana_cost` and its override.
unfoldable pub get_mana_cost : ItemKind → ℤ
get_mana_cost (magic_weapon _ cost) = cost
get_mana_cost _ = pos 0

unfoldable pub is_healing : ItemKind → Bool
unfolding does_heal
is_healing (magic_weapon s _) = does_heal s
is_healing _ = false

-- A magic weapon is built as a ranged one.
unfoldable pub is_ranged : ItemKind → Bool
is_ranged (plain_weapon _ _ ranged) = ranged
is_ranged (magic_weapon _ _) = true
is_ranged _ = false

unfoldable pub is_magic : ItemKind → Bool
is_magic (magic_weapon _ _) = true
is_magic _ = false
