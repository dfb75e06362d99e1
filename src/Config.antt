-- ===== src/Config.antt =====
-- server/game/game_config.h: the settings, as they stand once the loader has filled them in. Every
-- race and every class has its entries then, so the tables are functions.
use argentum_online_taller_g.Prelude.Int.{ℤ}
use argentum_online_taller_g.Float.{Float, FloatOps}

-- server/game/player_race.h and player_class.h.
pub data PlayerRace : Type 0 where
  human elf dwarf gnome : PlayerRace

pub data PlayerClass : Type 0 where
  mage cleric paladin warrior : PlayerClass

-- common/position.h.
pub record Position : Type 0 where
  pub x : ℤ
  pub y : ℤ

pub record GameConfig : Type 0 where
  pub race_hp_mult : PlayerRace → Float
  pub race_mana_mult : PlayerRace → Float
  pub race_recovery : PlayerRace → Float
  pub race_base_strength : PlayerRace → ℤ
  pub race_base_agility : PlayerRace → ℤ
  pub race_base_intelligence : PlayerRace → ℤ
  pub race_base_constitution : PlayerRace → ℤ
  pub class_bonus_strength : PlayerClass → ℤ
  pub class_bonus_agility : PlayerClass → ℤ
  pub class_bonus_intelligence : PlayerClass → ℤ
  pub class_bonus_constitution : PlayerClass → ℤ
  pub class_hp_mult : PlayerClass → Float
  pub class_mana_mult : PlayerClass → Float
  pub class_meditation : PlayerClass → Float
  pub max_inventory_items : ℤ
  pub spawn_position : Position
  pub resurrect_still_factor : Float
  pub initial_player_level : ℤ
  pub gold_max_safe_base : Float
  pub gold_max_safe_exp : Float
  pub gold_excess_factor : Float
  pub npc_buy_item_factor : ℤ
  pub level_limit_base : Float
  pub level_limit_exp : Float
  pub kill_bonus_factor : Float
  pub death_exp_loss_mult : Float
  pub critical_chance : Float
  pub critical_multiplier : ℤ
  pub evasion_threshold : Float
  pub newbie_max_level : ℤ
  pub max_level_difference : ℤ
  pub clan_max_members : ℤ
  pub clan_min_level_to_found : ℤ
  pub bonus_factor : Float
  pub bonus_range : ℤ
  pub npc_drop_nothing_prob : Float
  pub npc_drop_gold_prob : Float
  pub npc_drop_potion_prob : Float
  pub npc_drop_item_prob : Float
  pub npc_gold_drop_min_factor : Float
  pub npc_gold_drop_max_factor : Float
  pub npc_population_limit : ℤ
  pub npc_spawn_time_seconds : ℤ
  pub chase_cooldown : Float

-- What the game's formulas are computed with.
pub record Env : Type 0 where
  pub config : GameConfig
  pub open config use *
  pub ops : FloatOps
