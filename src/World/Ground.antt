-- ===== src/World/Ground.antt =====
-- server/world/world.cpp: what lies on the ground, and what players take, drop and put on.
use argentum_online_taller_g.Prelude.{
  ℕ, Bool, true, false, not, ◌||◌, Option, none, some, List, [], ◌∷◌, if◌then◌else◌, ltb, get_elem?,
}
use argentum_online_taller_g.Prelude.Int.{ℤ, pos, negsuc}
use argentum_online_taller_g.Config.{Position}
use argentum_online_taller_g.Item.{Item}
use argentum_online_taller_g.Inventory.{InventorySlot, can_add_item, add_item, pop_slot}
use argentum_online_taller_g.Player.Character.{Player}
use argentum_online_taller_g.Player.Experience.{Loot}
use argentum_online_taller_g.Player.Equipment.{equip}
use argentum_online_taller_g.Player.Purse.{add_gold}
use argentum_online_taller_g.World.Map.{WorldMap, is_valid_position, is_position_blocked}
use argentum_online_taller_g.World.Search.{find_closest_free_position}
use argentum_online_taller_g.World.State.{
  World, Game, GroundItem, Ground, ground_at, put_ground, erase_ground, alter_player, get_player,
}

unfoldable pub lies_nothing : Ground → Position → Bool
lies_nothing ground p = elim (ground_at p ground) [ none ↦ true | some _ ↦ false ]

-- Whoever stands there is no hindrance.
unfoldable pub find_closest_free_ground : WorldMap → Ground → Position → Option Position
unfolding lies_nothing
find_closest_free_ground m ground start = find_closest_free_position m (lies_nothing ground) start

abbrev pub gold_pile : ℕ → GroundItem
gold_pile gold = record { gold = gold; item = none; quantity = pos 0 }

abbrev pub of_slot : InventorySlot → GroundItem
of_slot s = record { gold = 0; item = s.item; quantity = pos s.quantity }

-- The loop over the items: where no free ground is left, the rest is lost.
unfoldable pub drop_slots : WorldMap → Position → List InventorySlot → Ground → Ground
drop_slots m center [] ground = ground
drop_slots m center (s ∷ slots) ground = elim (find_closest_free_ground m ground center) [
  | none ↦ ground
  | some p ↦ drop_slots m center slots (put_ground p (of_slot s) ground)
]

unfoldable pub drop_loot_on : WorldMap → Position → Loot → Ground → Ground
unfolding drop_slots
drop_loot_on m center loot ground =
    let with_gold : Ground =
      if ltb 0 loot.dropped_gold
      then elim (find_closest_free_ground m ground center) [
        | none ↦ ground
        | some p ↦ put_ground p (gold_pile loot.dropped_gold) ground
      ]
      else ground in
    drop_slots m center loot.dropped_items with_gold

unfoldable pub drop_loot_in_world : Position → Loot → World → World
unfolding drop_loot_on
drop_loot_in_world center loot w = record w {
  ground_items = drop_loot_on w.map center loot w.ground_items;
}

unfoldable pub add_ground_item : Position → GroundItem → World → World
unfolding lies_nothing
add_ground_item p g w =
    if not (is_valid_position w.map p)
    then w
    else if is_position_blocked w.map p || not (lies_nothing w.ground_items p)
    then elim (find_closest_free_ground w.map w.ground_items p) [
      | none ↦ w
      | some q ↦ record w { ground_items = put_ground q g w.ground_items }
    ]
    else record w { ground_items = put_ground p g w.ground_items }

-- A living player that stands on it. What lies there without gold is an item.
unfoldable pub take_from_ground : Game → ℕ → Player → GroundItem → World → Bool × World
take_from_ground game id p g w =
    if ltb 0 g.gold
    then (
      true,
      alter_player id (add_gold game.shop.env g.gold)
          (record w { ground_items = erase_ground p.position w.ground_items }),
    )
    else elim g.item [
      | none ↦ (false, w)
      | some item ↦ if not (can_add_item p.inventory item) then (false, w) else (
        true,
        alter_player id (λ q. record q { inventory = (add_item q.inventory g.item g.quantity).1 })
            (record w { ground_items = erase_ground p.position w.ground_items }),
      )
    ]

unfoldable pub pick_up_item : Game → ℕ → World → Bool × World
unfolding take_from_ground
pick_up_item game id w = elim (get_player id w) [
  | none ↦ (false, w)
  | some p ↦ if p.dead then (false, w) else elim (ground_at p.position w.ground_items) [
    | none ↦ (false, w)
    | some g ↦ take_from_ground game id p g w
  ]
]

-- The slot is emptied only where there is ground to drop on.
unfoldable pub drop_item : ℕ → ℤ → World → Bool × World
drop_item id index w = elim (get_player id w) [
  | none ↦ (false, w)
  | some p ↦
      if p.dead
      then (false, w)
      else elim (find_closest_free_ground w.map w.ground_items p.position) [
        | none ↦ (false, w)
        | some q ↦
            let slot = (pop_slot p.inventory index).0 in
            elim slot.item [
              | none ↦ (false, w)
              | some _ ↦ (
                true,
                alter_player id (λ r. record r { inventory = (pop_slot r.inventory index).1 })
                    (record w { ground_items = put_ground q (of_slot slot) w.ground_items }),
              )
            ]
      ]
]

-- The slot of an index, if it holds an item.
unfoldable pub item_at : Player → ℤ → Option Item
item_at p (negsuc _) = none
item_at p (pos i) = elim (get_elem? p.inventory i) [ none ↦ none | some s ↦ s.item ]

unfoldable pub equip_item : ℕ → ℤ → World → Bool × World
unfolding item_at
equip_item id index w = elim (get_player id w) [
  | none ↦ (false, w)
  | some p ↦ if p.dead then (false, w) else elim (item_at p index) [
    | none ↦ (false, w)
    | some item ↦ (true, alter_player id (λ q. (equip item q).1) w)
  ]
]
