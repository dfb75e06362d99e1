-- ===== src/Player/Equipment.antt =====
-- server/game/inventory.cpp: `equip` and `use_consumable`, which change the player too; and what a
-- player wields, of player.cpp.
use argentum_online_taller_g.Prelude.{
  ℕ, Bool, true, false, not, ◌&&◌, Option, none, some, if◌then◌else◌, get_elem?, set,
}
use argentum_online_taller_g.Prelude.Int.{ℤ, pos, ltb_ℤ}
use argentum_online_taller_g.Item.{
  Item, EquipmentSlot, weapon, ItemKind, consumable, ConsumableType, health, mana, get_slot,
  get_mana_cost, is_healing, is_ranged, is_magic,
}
use argentum_online_taller_g.Inventory.{
  Inventory, InventorySlot, equipped_in, holds_ref, find_item_by_ref, unequip_first, remove_item,
  get_equipped_item,
}
use argentum_online_taller_g.Player.Character.{Player, heal_player, restore_mana, consume_mana}

-- `ConsumableItem::use`.
unfoldable pub use_effect : ConsumableType → ℤ → Player → Player
unfolding heal_player restore_mana
use_effect health restore p = heal_player restore p
use_effect mana restore p = restore_mana restore p

-- The item's effect on the player, and one unit less of it.
unfoldable pub use_consumable : Item → Player → Player
use_consumable item p = elim item.kind [
  | consumable type restore ↦
      let q = use_effect type restore p in record q { inventory = (remove_item q.inventory item).1 }
  | _ ↦ p
]

-- The item in slot `index` is put on: what is worn in its place, by another slot, is taken off.
unfoldable pub wear : Inventory → ℕ → InventorySlot → Item → EquipmentSlot → Inventory
wear inv index s item e =
    let others : Inventory =
      elim (unequip_first (λ t. equipped_in e t && not (holds_ref item.address t)) inv) [
        | none ↦ inv
        | some inv' ↦ inv'
      ] in
    set others index (record s { equipped_slot = some e })

unfoldable pub equip : Item → Player → Bool × Player
unfolding wear use_consumable
equip item p = elim (find_item_by_ref p.inventory item) [
  | none ↦ (false, p)
  | some index ↦ elim (get_slot item) [
    | none ↦ (true, use_consumable item p)
    | some e ↦ elim (get_elem? p.inventory index) [
      | none ↦ (false, p)
      | some s ↦ elim s.equipped_slot [
        | some _ ↦ (
          true,
          record p { inventory = set p.inventory index (record s { equipped_slot = none }) },
        )
        | none ↦ (true, record p { inventory = wear p.inventory index s item e })
      ]
    ]
  ]
]

-- A slot's kind, read off what is worn as a weapon.
abbrev weapon_kind : Player → Option ItemKind
weapon_kind p = elim (get_equipped_item p.inventory weapon) [ none ↦ none | some it ↦ some it.kind ]

unfoldable pub is_healing_attack : Player → Bool
is_healing_attack p = elim (weapon_kind p) [ none ↦ false | some k ↦ is_healing k ]

unfoldable pub is_ranged_attack : Player → Bool
is_ranged_attack p = elim (weapon_kind p) [ none ↦ false | some k ↦ is_ranged k ]

unfoldable pub is_magic_attack : Player → Bool
is_magic_attack p = elim (weapon_kind p) [ none ↦ false | some k ↦ is_magic k ]

-- `false` is `AttackStatus::NO_MANA`.
unfoldable pub consume_attack_resources : Player → Bool × Player
consume_attack_resources p = elim (weapon_kind p) [
  | none ↦ (true, p)
  | some k ↦
      let cost = get_mana_cost k in
      if ltb_ℤ (pos 0) cost
      then if ltb_ℤ p.current_mana cost then (false, p) else (true, consume_mana cost p)
      else (true, p)
]
