-- ===== src/Examples.antt =====
-- The concrete game that the examples run on: whole numbers for the floating-point ones, a small
-- configuration, one player with a sword and three potions, its safe, and a shop.
mod Texts
mod Packs
mod Players
mod Trades
mod Clans
mod Worlds
mod Queues
mod Servers
mod Arenas
use argentum_online_taller_g.Prelude.{
  ℕ, ◌+◌, ◌-◌, ◌*◌, ◌^◌, Bool, true, false, Option, none, some, List, [], ◌∷◌, Bytes, ltb, leb,
}
use argentum_online_taller_g.Prelude.Int.{ℤ, pos, negsuc, pos_part}
use argentum_online_taller_g.Float.{Float, FloatOps, bits}
use argentum_online_taller_g.Config.{
  PlayerRace, human, PlayerClass, mage, Position, GameConfig, Env,
}
use argentum_online_taller_g.Item.{Item, plain_weapon, consumable, health}
use argentum_online_taller_g.Inventory.{Inventory, InventorySlot, empty_slot}
use argentum_online_taller_g.Player.Character.{Player, down}
use argentum_online_taller_g.Registry.{
  Registry, ItemTemplate, weapon_word, consumable_word, health_word,
}
use argentum_online_taller_g.Bank.{Bank}
use argentum_online_taller_g.Npc.City.{Shop}

abbrev raw : Float → ℕ
raw (bits n) = n

abbrev pub whole_numbers : FloatOps
whole_numbers = record {
  of_int = λ a. bits (pos_part a);
  of_u64 = bits;
  add = λ a b. bits (raw a + raw b);
  sub = λ a b. bits (raw a - raw b);
  mul = λ a b. bits (raw a * raw b);
  mul_double = λ a b. bits (raw a * raw b);
  pow = λ a b. bits (pos_part a ^ raw b);
  pow_float = λ a b. bits (raw a ^ pos_part b);
  sqrt = λ a. bits (pos_part a);
  lt = λ a b. ltb (raw a) (raw b);
  le = λ a b. leb (raw a) (raw b);
  to_int = λ a. pos (raw a);
  to_u64 = raw;
}

abbrev pub origin : Position
origin = record { x = pos 0; y = pos 0 }

-- At level n a player carries 200 * n of gold, of which 100 * n are safe, and rises at 1000 * n ^ 2.
abbrev pub small_config : GameConfig
small_config = record {
  race_hp_mult = λ _. bits 1;
  race_mana_mult = λ _. bits 1;
  race_recovery = λ _. bits 1;
  race_base_strength = λ _. pos 10;
  race_base_agility = λ _. pos 10;
  race_base_intelligence = λ _. pos 10;
  race_base_constitution = λ _. pos 10;
  class_bonus_strength = λ _. pos 1;
  class_bonus_agility = λ _. pos 1;
  class_bonus_intelligence = λ _. pos 1;
  class_bonus_constitution = λ _. pos 1;
  class_hp_mult = λ _. bits 1;
  class_mana_mult = λ _. bits 1;
  class_meditation = λ _. bits 1;
  max_inventory_items = pos 3;
  spawn_position = origin;
  resurrect_still_factor = bits 1;
  initial_player_level = pos 1;
  gold_max_safe_base = bits 100;
  gold_max_safe_exp = bits 1;
  gold_excess_factor = bits 1;
  npc_buy_item_factor = pos 2;
  level_limit_base = bits 1000;
  level_limit_exp = bits 2;
  kill_bonus_factor = bits 1;
  death_exp_loss_mult = bits 1;
  critical_chance = bits 0;
  critical_multiplier = pos 2;
  evasion_threshold = bits 0;
  newbie_max_level = pos 12;
  max_level_difference = pos 10;
  clan_max_members = pos 3;
  clan_min_level_to_found = pos 1;
  bonus_factor = bits 0;
  bonus_range = pos 5;
  npc_drop_nothing_prob = bits 1;
  npc_drop_gold_prob = bits 1;
  npc_drop_potion_prob = bits 1;
  npc_drop_item_prob = bits 1;
  npc_gold_drop_min_factor = bits 0;
  npc_gold_drop_max_factor = bits 2;
  npc_population_limit = pos 10;
  npc_spawn_time_seconds = pos 5;
  chase_cooldown = bits 1;
}

abbrev pub small_env : Env
small_env = record { config = small_config; ops = whole_numbers }

abbrev pub sword_name : Bytes
sword_name = b'E' ∷ b's' ∷ b'p' ∷ b'a' ∷ b'd' ∷ b'a' ∷ []

-- "espada", which a player may type.
abbrev pub typed_sword : Bytes
typed_sword = b'e' ∷ b's' ∷ b'p' ∷ b'a' ∷ b'd' ∷ b'a' ∷ []

abbrev pub potion_name : Bytes
potion_name = b'P' ∷ b'o' ∷ b'c' ∷ b'i' ∷ 0xC3 ∷ 0xB3 ∷ b'n' ∷ []

abbrev pub sword : Item
sword = record { address = 1; name = sword_name; kind = plain_weapon (pos 1) (pos 3) false }

abbrev pub potion : Item
potion = record { address = 2; name = potion_name; kind = consumable health (pos 10) }

-- Another sword, which nobody carries.
abbrev pub spare_sword : Item
spare_sword = record { address = 3; name = sword_name; kind = plain_weapon (pos 1) (pos 3) false }

abbrev pub sword_slot : InventorySlot
sword_slot = record { item = some sword; quantity = 1; equipped_slot = none }

abbrev pub potion_slot : InventorySlot
potion_slot = record { item = some potion; quantity = 3; equipped_slot = none }

abbrev pub pack : Inventory
pack = sword_slot ∷ potion_slot ∷ empty_slot ∷ []

abbrev pub ana : Player
ana = record {
  character = record {
    id = 7;
    level = pos 1;
    current_hp = pos 8;
    max_hp = pos 11;
    position = origin;
    dead = false;
    direction = down;
    moving = false;
  };
  name = b'a' ∷ b'n' ∷ b'a' ∷ [];
  race = human;
  klass = mage;
  gold = 150;
  experience = 500;
  current_mana = pos 2;
  max_mana = pos 11;
  strength = pos 11;
  agility = pos 11;
  intelligence = pos 11;
  constitution = pos 11;
  clan_id = 0;
  meditating = false;
  partial_hp_regen = bits 0;
  partial_mana_regen = bits 0;
  inventory = pack;
}

-- Her safe holds 500 of gold and a sword.
abbrev pub safes : Bank
safes = (7, record { items = spare_sword ∷ []; gold = 500 }) ∷ []

abbrev sword_template : ItemTemplate
sword_template = record {
  name = sword_name;
  type = weapon_word;
  min_damage = pos 1;
  max_damage = pos 3;
  ranged = false;
  min_defense = pos 0;
  max_defense = pos 0;
  slot = [];
  consumable_type = [];
  restore = pos 0;
  spell_name = [];
  min_heal = pos 0;
  max_heal = pos 0;
  mana_cost = pos 0;
  price = 100;
}

abbrev pub potion_template : ItemTemplate
potion_template = record sword_template {
  name = potion_name;
  type = consumable_word;
  consumable_type = health_word;
  restore = pos 10;
  price = 20;
}

abbrev pub goods : Registry
goods = record {
  templates =
      (typed_sword, sword_template)
      ∷ (b'p' ∷ b'o' ∷ b'c' ∷ b'i' ∷ b'o' ∷ b'n' ∷ [], potion_template)
      ∷ [];
  potion_keys = potion_name ∷ [];
  magic_weapon_keys = [];
  weapon_keys = sword_name ∷ [];
  defensive_keys = [];
  other_keys = [];
}

abbrev pub shop : Shop
shop = record { env = small_env; registry = goods; address = 9; to_string = λ n. (b'0' + n) ∷ [] }
