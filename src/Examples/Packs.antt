-- ===== src/Examples/Packs.antt =====
-- An inventory with a sword and three potions.
use argentum_online_taller_g.Prelude.{
  ◌+◌, ◌<◌, ◌≡◌, ◌↔◌, refl, inl, inr, true, some, arith, if◌then◌else◌, bytes_eq, Bytes, count_if,
  find_index, find_first, ◌∷◌, [], ◌&&◌,
}
use argentum_online_taller_g.Prelude.Int.{pos, pos_part}
use argentum_online_taller_g.Text.{normalize_name}
use argentum_online_taller_g.Item.{Item, weapon, slot_eq, kind_slot}
use argentum_online_taller_g.Inventory.{
  Inventory, equipped_in, holds_item, holds_ref, add_item, remove_item_by_name, has_item_by_name,
  find_item_by_name, holds_normalized, get_equipped_item,
}
use argentum_online_taller_g.Inventory.Valid.{IsValid, IsNew, remove_item_by_name-IsValid}
use argentum_online_taller_g.Inventory.Adding.{add_item-IsValid}
use argentum_online_taller_g.Inventory.Stock.{stock, HasRoom, add_item-stock, add_item_iff}
use argentum_online_taller_g.Inventory.Removal.{remove_item_by_name-stock}
use argentum_online_taller_g.Player.Equipment.{equip}
use argentum_online_taller_g.Player.Wearing.{equip-IsValid}
use argentum_online_taller_g.Player.Casts.{is_castable, HoldsMade, get_equipped_item-castable}
use argentum_online_taller_g.Registry.{create_item, find_template, template_kind}
use argentum_online_taller_g.Examples.{
  pack, sword, spare_sword, sword_name, typed_sword, ana, sword_slot, potion_slot, goods,
  potion_name,
}

pub pack-IsValid : IsValid pack
unfolding count_if equipped_in holds_item holds_ref
pack-IsValid = record {
  slots = ((ground arith, inl refl), ((ground arith, inl refl), ((refl, refl), tt)));
  worn = λ e. ground arith;
  distinct = λ a. ground arith;
}

spare_sword-IsNew : IsNew spare_sword pack
unfolding count_if holds_ref
spare_sword-IsNew = refl

add_item-IsValid_example : IsValid (add_item pack (some spare_sword) (pos 1)).1
add_item-IsValid_example = add_item-IsValid pack spare_sword (pos 1) spare_sword-IsNew pack-IsValid

add_item-stock_example :
    let (done, after) = add_item pack (some spare_sword) (pos 1) in
    stock sword_name after
    ≡ stock sword_name pack
      + (if done && bytes_eq spare_sword.name sword_name then pos_part (pos 1) else 0)
add_item-stock_example = add_item-stock pack spare_sword (pos 1) sword_name

add_item_iff_example :
    ((add_item pack (some spare_sword) (pos 1)).0 ≡ true)
    ↔ ((0 < pos_part (pos 1)) × HasRoom pack spare_sword)
add_item_iff_example = add_item_iff pack spare_sword (pos 1)

pub has_sword : has_item_by_name pack typed_sword ≡ true
unfolding has_item_by_name find_item_by_name find_index holds_normalized normalize_name bytes_eq
has_sword = refl

remove_item_by_name-IsValid_example : IsValid (remove_item_by_name pack typed_sword).1
remove_item_by_name-IsValid_example = remove_item_by_name-IsValid pack typed_sword pack-IsValid

remove_item_by_name-stock_example :
    (item : Item) × (normalize_name item.name ≡ normalize_name typed_sword)
    × ((other : Bytes)
        → stock other (remove_item_by_name pack typed_sword).1
            + (if bytes_eq item.name other then 1 else 0)
          ≡ stock other pack)
remove_item_by_name-stock_example =
    remove_item_by_name-stock pack typed_sword pack-IsValid has_sword

equip-IsValid_example : IsValid (equip sword ana).1.inventory
equip-IsValid_example = equip-IsValid ana 0 sword_slot sword pack-IsValid refl refl

-- The sword in her hand.
abbrev worn_pack : Inventory
worn_pack = record sword_slot { equipped_slot = some weapon } ∷ potion_slot ∷ []

worn_pack-IsValid : IsValid worn_pack
unfolding count_if equipped_in holds_item holds_ref slot_eq kind_slot
worn_pack-IsValid = record {
  slots = ((ground arith, inr refl), ((ground arith, inl refl), tt));
  worn = λ e. ground arith;
  distinct = λ a. ground arith;
}

sword_worn : get_equipped_item worn_pack weapon ≡ some sword
unfolding get_equipped_item find_first equipped_in holds_item slot_eq
sword_worn = refl

worn_pack-HoldsMade : HoldsMade goods worn_pack
unfolding create_item normalize_name find_template bytes_eq template_kind
worn_pack-HoldsMade = (λ it e. (1, sword_name, e), (λ it e. (2, potion_name, e), tt))

get_equipped_item-castable_example : is_castable weapon sword.kind ≡ true
get_equipped_item-castable_example =
    get_equipped_item-castable goods worn_pack weapon sword worn_pack-IsValid worn_pack-HoldsMade
      sword_worn
