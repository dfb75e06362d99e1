-- ===== src/Npc/City.antt =====
-- city_npc.cpp, banker.cpp, merchant.cpp, priest.cpp: every request to a city's characters. A
-- request changes the player and the bank; an exception leaves them as they are at that point.
use argentum_online_taller_g.Prelude.{
  ℕ, ◌/◌, not, ◌&&◌, Option, none, some, List, [], ◌∷◌, ◌++◌, map, Bytes, if◌then◌else◌,
}
use argentum_online_taller_g.Prelude.Int.{ℤ, pos, pos_part, leb_ℤ, eq_ℤ}
use argentum_online_taller_g.Config.{Env}
use argentum_online_taller_g.Item.{Item}
use argentum_online_taller_g.Inventory.{
  has_item_by_name, remove_item_by_name, can_add_item, add_item,
}
use argentum_online_taller_g.Player.Character.{Player, heal_player, restore_mana, resurrect}
use argentum_online_taller_g.Player.Formulas.{int_to_u64}
use argentum_online_taller_g.Player.Purse.{add_gold, remove_gold}
use argentum_online_taller_g.Registry.{
  Registry, create_item, exists, is_potion, is_magic_weapon, get_price, get_display_name,
}
use argentum_online_taller_g.Bank
use argentum_online_taller_g.Bank.{Bank}

-- common/npc_interact_result.h.
pub data InteractStatus : Type 0 where
  success insufficient_gold inventory_full item_not_found not_allowed player_dead player_not_dead
        already_full invalid_amount out_of_range invalid_target :
      InteractStatus

pub record InteractResult : Type 0 where
  pub status : InteractStatus
  pub item_name : Bytes
  pub gold_amount : ℕ
  pub catalog : List Bytes

-- common/npc_interaction.h, with the arguments that each one uses.
pub data NpcInteraction : Type 0 where
  heal resurrection list : NpcInteraction
  buy sell deposit_item withdraw_item : Bytes → NpcInteraction
  deposit_gold withdraw_gold : ℤ → NpcInteraction

pub data CityNpc : Type 0 where
  priest merchant banker : CityNpc

-- `none` is an exception.
pub record Outcome : Type 0 where
  pub result : Option InteractResult
  pub player : Player
  pub bank : Bank

-- What a request is computed with: `address` is where a new item is made, and `to_string` is
-- `std::to_string`.
pub record Shop : Type 0 where
  pub env : Env
  pub registry : Registry
  pub address : ℕ
  pub to_string : ℕ → Bytes

abbrev pub status_only : InteractStatus → InteractResult
status_only s = record { status = s; item_name = []; gold_amount = 0; catalog = [] }

abbrev pub refuse : InteractStatus → Player → Bank → Outcome
refuse s p b = record { result = some (status_only s); player = p; bank = b }

abbrev pub done : Bytes → ℕ → Player → Bank → Outcome
done name gold p b = record {
  result = some (record { status = success; item_name = name; gold_amount = gold; catalog = [] });
  player = p;
  bank = b;
}

abbrev pub threw : Player → Bank → Outcome
threw p b = record { result = none; player = p; bank = b }

unfoldable pub banker_deposit_gold : ℤ → Player → Bank → Outcome
banker_deposit_gold amount p b =
    if p.dead
    then refuse player_dead p b
    else if leb_ℤ amount (pos 0)
    then refuse invalid_amount p b
    else let (paid, q) = remove_gold (pos_part amount) p in
      if paid
      then done [] (pos_part amount) q (Bank.deposit_gold p.id (pos_part amount) b).1
      else refuse insufficient_gold q b

-- The item leaves the inventory; a unit of a stack is made anew for the bank.
unfoldable pub banker_deposit_item : Shop → Bytes → Player → Bank → Outcome
banker_deposit_item shop name p b =
    if p.dead
    then refuse player_dead p b
    else if not (has_item_by_name p.inventory name)
    then refuse item_not_found p b
    else let (taken, left) = remove_item_by_name p.inventory name in
      let q = record p { inventory = left } in
      let made : Option Item = elim taken [
        | some item ↦ some item
        | none ↦ create_item shop.registry shop.address name
      ] in
      elim made [
        | none ↦ threw q b
        | some item ↦ done item.name 0 q (Bank.deposit_item p.id (some item) b).1
      ]

unfoldable pub banker_withdraw_gold : Shop → ℤ → Player → Bank → Outcome
banker_withdraw_gold shop amount p b =
    if p.dead
    then refuse player_dead p b
    else if leb_ℤ amount (pos 0)
    then refuse invalid_amount p b
    else let (paid, b') = Bank.withdraw_gold p.id (pos_part amount) b in
      if paid
      then done [] (pos_part amount) (add_gold shop.env (pos_part amount) p) b'
      else refuse insufficient_gold p b'

unfoldable pub banker_withdraw_item : Bytes → Player → Bank → Outcome
banker_withdraw_item name p b =
    if p.dead
    then refuse player_dead p b
    else let (taken, b') = Bank.withdraw_item p.id name b in
      elim taken [
        | none ↦ refuse item_not_found p b'
        | some item ↦
            if not (can_add_item p.inventory item)
            then refuse inventory_full p (Bank.deposit_item p.id (some item) b').1
            else done item.name 0
                (record p { inventory = (add_item p.inventory (some item) (pos 1)).1 }) b'
      ]

unfoldable pub banker_list : Player → Bank → Outcome
banker_list p b = if p.dead then refuse player_dead p b else record {
  result = some (record {
    status = success;
    item_name = [];
    gold_amount = Bank.get_gold_from_safe p.id b;
    catalog = Bank.list_items_from_safe p.id b;
  });
  player = p;
  bank = b;
}

-- The end of `Merchant::on_buy` and `Priest::on_buy`, which is the same in both.
unfoldable pub purchase : Shop → Bytes → Player → Bank → Outcome
purchase shop name p b =
    let price = get_price shop.registry name in
    let (paid, q) = remove_gold price p in
    if not paid
    then refuse insufficient_gold q b
    else elim (create_item shop.registry shop.address name) [
      | none ↦ threw q b
      | some item ↦
          if not (can_add_item q.inventory item)
          then refuse inventory_full (add_gold shop.env price q) b
          else done item.name price
              (record q { inventory = (add_item q.inventory (some item) (pos 1)).1 }) b
    ]

unfoldable pub merchant_buy : Shop → Bytes → Player → Bank → Outcome
merchant_buy shop name p b =
    if p.dead
    then refuse player_dead p b
    else if not (exists shop.registry name)
    then refuse item_not_found p b
    else if is_magic_weapon shop.registry name
    then refuse not_allowed p b
    else purchase shop name p b

unfoldable pub merchant_sell : Shop → Bytes → Player → Bank → Outcome
merchant_sell shop name p b =
    if is_magic_weapon shop.registry name
    then refuse not_allowed p b
    else if p.dead
    then refuse player_dead p b
    else if not (has_item_by_name p.inventory name)
    then refuse item_not_found p b
    else let (taken, left) = remove_item_by_name p.inventory name in
      let real_name : Bytes = elim taken [
        | some item ↦ item.name
        | none ↦ get_display_name shop.registry name
      ] in
      let price = get_price shop.registry name / int_to_u64 shop.env.npc_buy_item_factor in
      done real_name price (add_gold shop.env price (record p { inventory = left })) b

-- name + " - $" + price.
abbrev pub with_price : Shop → Bytes → Bytes
with_price shop name =
    name ++ b' ' ∷ b'-' ∷ b' ' ∷ b'$' ∷ shop.to_string (get_price shop.registry name)

abbrev listing : Shop → List Bytes → Player → Bank → Outcome
listing shop keys p b = record {
  result = some (record {
    status = success;
    item_name = [];
    gold_amount = 0;
    catalog = map (with_price shop) keys;
  });
  player = p;
  bank = b;
}

unfoldable pub merchant_list : Shop → Player → Bank → Outcome
merchant_list shop p b =
    if p.dead
    then refuse player_dead p b
    else listing shop (r.weapon_keys ++ (r.defensive_keys ++ r.potion_keys)) p b
  where
    open shop use {registry as r}

unfoldable pub priest_heal : Player → Bank → Outcome
priest_heal p b =
    if p.dead
    then refuse player_dead p b
    else if eq_ℤ p.current_hp p.max_hp && eq_ℤ p.current_mana p.max_mana
    then refuse already_full p b
    else done [] 0 (restore_mana p.max_mana (heal_player p.max_hp p)) b

unfoldable pub priest_resurrect : Player → Bank → Outcome
priest_resurrect p b = if not p.dead then refuse player_not_dead p b else done [] 0 (resurrect p) b

unfoldable pub priest_buy : Shop → Bytes → Player → Bank → Outcome
priest_buy shop name p b =
    if p.dead
    then refuse player_dead p b
    else if not (exists shop.registry name)
    then refuse item_not_found p b
    else if not (is_potion shop.registry name) && not (is_magic_weapon shop.registry name)
    then refuse not_allowed p b
    else purchase shop name p b

unfoldable pub priest_list : Shop → Player → Bank → Outcome
priest_list shop p b =
    if p.dead
    then refuse player_dead p b
    else listing shop (r.potion_keys ++ r.magic_weapon_keys) p b
  where
    open shop use {registry as r}

-- `CityNPC::interact`: each kind answers what it overrides and refuses the rest.
unfoldable pub interact : Shop → CityNpc → NpcInteraction → Player → Bank → Outcome
interact shop priest heal p b = priest_heal p b
interact shop priest resurrection p b = priest_resurrect p b
interact shop priest (buy name) p b = priest_buy shop name p b
interact shop priest list p b = priest_list shop p b
interact shop merchant (buy name) p b = merchant_buy shop name p b
interact shop merchant (sell name) p b = merchant_sell shop name p b
interact shop merchant list p b = merchant_list shop p b
interact shop banker (deposit_gold amount) p b = banker_deposit_gold amount p b
interact shop banker (deposit_item name) p b = banker_deposit_item shop name p b
interact shop banker (withdraw_gold amount) p b = banker_withdraw_gold shop amount p b
interact shop banker (withdraw_item name) p b = banker_withdraw_item name p b
interact shop banker list p b = banker_list p b
interact shop _ _ p b = refuse not_allowed p b
