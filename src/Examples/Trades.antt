-- ===== src/Examples/Trades.antt =====
-- Requests to the characters of a city, by a player with 150 of gold at a shop that sells swords
-- for 100 and potions for 20.
use argentum_online_taller_g.Prelude.{
  ℕ, ◌+◌, ◌-◌, ◌<◌, ◌≤◌, ◌≡◌, refl, some, [], arith, if◌then◌else◌, Bytes, min, bytes_eq, count_if,
  find_index, lookup,
}
use argentum_online_taller_g.Prelude.Int.{pos}
use argentum_online_taller_g.Text.{normalize_name}
use argentum_online_taller_g.Item.{Item, kind_slot}
use argentum_online_taller_g.Inventory.{
  holds_ref, holds_name, holds_item, holds_normalized, is_full, can_add_item, find_item_by_type,
  find_item_by_name, has_item_by_name, remove_item_by_name, remove_item, find_item_by_ref,
  take_unit,
}
use argentum_online_taller_g.Inventory.Valid.{IsValid}
use argentum_online_taller_g.Inventory.Stock.{stock}
use argentum_online_taller_g.Player.Formulas.{
  calculate_max_gold, calculate_max_holdable_gold, int_to_u64,
}
use argentum_online_taller_g.Player.Purse.{remove_gold, space}
use argentum_online_taller_g.Registry.{
  exists, has_type, find_template, get_price, create_item, template_kind,
}
use argentum_online_taller_g.Bank.{get_gold_from_safe}
use argentum_online_taller_g.Bank
use argentum_online_taller_g.Npc.City.{
  InteractResult, success, insufficient_gold, interact, banker, withdraw_gold, banker_deposit_gold,
  banker_withdraw_gold, merchant_buy, merchant_sell, priest_buy, purchase, status_only,
}
use argentum_online_taller_g.Npc.Gold.{
  wealth, banker_deposit_gold-wealth, banker_withdraw_gold-loses,
}
use argentum_online_taller_g.Npc.Trade.{
  Bought, IsFresh, sell_price, merchant_buy-Bought, priest_buy-Bought, merchant_sell_lem,
}
use argentum_online_taller_g.Npc.Refusal.{Kept, Refuses, interact-Kept}
use argentum_online_taller_g.Examples.{ana, safes, shop, typed_sword, sword_name, potion_name}
use argentum_online_taller_g.Examples.Packs.{pack-IsValid}
use argentum_online_taller_g.Examples.Players.{ana-HoldsGold, ana_saved}

banker_deposit_gold-wealth_example :
    wealth
      (banker_deposit_gold (pos 40) ana safes).player
      (banker_deposit_gold (pos 40) ana safes).bank
    ≡ wealth ana safes
banker_deposit_gold-wealth_example =
    banker_deposit_gold-wealth (pos 40) ana safes (ground (arith, ana_saved))

little_space : space shop.env ana < 300
unfolding calculate_max_holdable_gold calculate_max_gold
little_space = ground arith

saved_enough : 300 ≤ get_gold_from_safe ana.id safes
saved_enough = ground (arith, ana_saved)

-- She can carry 50 more, withdraws 300 and is told that she has them.
banker_withdraw_gold-loses_example :
    let out = banker_withdraw_gold shop (pos 300) ana safes in
    (out.result
      ≡ some (record { status = success; item_name = []; gold_amount = 300; catalog = [] }))
    × (wealth out.player out.bank + (300 - space shop.env ana) ≡ wealth ana safes)
banker_withdraw_gold-loses_example =
    banker_withdraw_gold-loses shop 300 ana safes ana-HoldsGold refl little_space saved_enough

too_much : Refuses (interact shop banker (withdraw_gold (pos 900)) ana safes)
unfolding interact banker_withdraw_gold Bank.withdraw_gold lookup
too_much = (status_only insufficient_gold, refl, ground arith)

interact-Kept_example : Kept ana safes (interact shop banker (withdraw_gold (pos 900)) ana safes)
interact-Kept_example =
    interact-Kept shop banker (withdraw_gold (pos 900)) ana safes ana-HoldsGold too_much

shop-IsFresh : IsFresh shop ana
unfolding count_if holds_ref
shop-IsFresh item h = ground (arith, h)

abbrev answer : Bytes → ℕ → InteractResult
answer name gold = record { status = success; item_name = name; gold_amount = gold; catalog = [] }

sword_bought : (merchant_buy shop typed_sword ana safes).result ≡ some (answer sword_name 100)
unfolding merchant_buy purchase exists has_type find_template get_price create_item template_kind
    normalize_name bytes_eq remove_gold can_add_item is_full holds_item kind_slot
sword_bought = refl

merchant_buy-Bought_example :
    Bought shop typed_sword ana safes
      (answer sword_name 100)
      (merchant_buy shop typed_sword ana safes)
merchant_buy-Bought_example =
    merchant_buy-Bought shop typed_sword ana safes (answer sword_name 100) pack-IsValid shop-IsFresh
      sword_bought refl

potion_bought : (priest_buy shop potion_name ana safes).result ≡ some (answer potion_name 20)
unfolding priest_buy purchase exists has_type find_template get_price create_item template_kind
    normalize_name bytes_eq remove_gold can_add_item find_item_by_type find_index holds_name
    kind_slot
potion_bought = refl

priest_buy-Bought_example :
    Bought shop potion_name ana safes
      (answer potion_name 20)
      (priest_buy shop potion_name ana safes)
priest_buy-Bought_example =
    priest_buy-Bought shop potion_name ana safes (answer potion_name 20) pack-IsValid shop-IsFresh
      potion_bought refl

sword_sold : (merchant_sell shop typed_sword ana safes).result ≡ some (answer sword_name 50)
unfolding merchant_sell has_type find_template get_price normalize_name bytes_eq has_item_by_name
    find_item_by_name find_index holds_normalized remove_item_by_name remove_item find_item_by_ref
    holds_ref take_unit int_to_u64
sword_sold = refl

merchant_sell_lem_example :
    let out = merchant_sell shop typed_sword ana safes in
    (50 ≡ sell_price shop typed_sword)
    × (out.player.gold ≡ ana.gold + min (sell_price shop typed_sword) (space shop.env ana))
    × IsValid out.player.inventory
    × ((item : Item) × (normalize_name item.name ≡ normalize_name typed_sword)
        × ((other : Bytes)
            → stock other out.player.inventory + (if bytes_eq item.name other then 1 else 0)
              ≡ stock other ana.inventory))
merchant_sell_lem_example =
    merchant_sell_lem shop typed_sword ana safes (answer sword_name 50) pack-IsValid ana-HoldsGold
      sword_sold refl
