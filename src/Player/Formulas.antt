-- ===== src/Player/Formulas.antt =====
-- server/game/game_formulas.cpp: the formulas of a player's own numbers.
use argentum_online_taller_g.Prelude.{ℕ, ◌-◌, ◌^◌, false, not, ltb, if◌then◌else◌, Bytes}
use argentum_online_taller_g.Prelude.Int.{ℤ, pos, negsuc, ◌+ℤ◌, leb_ℤ}
use argentum_online_taller_g.Config.{Env, GameConfig, Position, PlayerRace, PlayerClass}
use argentum_online_taller_g.Inventory.{new_inventory}
use argentum_online_taller_g.Player.Character.{
  Player, can_cast_magic, new_character, set_initial_stats,
}

abbrev pub u64_mod : ℕ
u64_mod = 2 ^ 64

-- An `int` as a `uint64_t`.
unfoldable pub int_to_u64 : ℤ → ℕ
int_to_u64 (pos n) = n
int_to_u64 (negsuc n) = u64_mod - n - 1

-- VidaMax = Constitución * FClaseVida * FRazaVida * Nivel.
unfoldable pub calculate_max_hp : Env → Player → ℤ
calculate_max_hp env p = to_int (
    mul (mul (mul (of_int p.constitution) (env.class_hp_mult p.klass)) (env.race_hp_mult p.race))
      (of_int p.level))
  where
    open env.ops use {to_int, mul, of_int}

unfoldable pub calculate_max_mana : Env → Player → ℤ
calculate_max_mana env p =
    if not (can_cast_magic p)
    then pos 0
    else to_int (
        mul
          (mul (mul (of_int p.intelligence) (env.class_mana_mult p.klass))
            (env.race_mana_mult p.race))
          (of_int p.level))
  where
    open env.ops use {to_int, mul, of_int}

-- OroMax = 100 * Nivel^1.1.
unfoldable pub calculate_max_gold : Env → ℤ → ℤ
calculate_max_gold env level =
    to_int (mul_double env.gold_max_safe_base (pow level env.gold_max_safe_exp))
  where
    open env.ops use {to_int, mul_double, pow}

unfoldable pub calculate_max_holdable_gold : Env → ℤ → ℕ
calculate_max_holdable_gold env level =
    to_u64
      (mul (of_int (calculate_max_gold env level)) (add (of_int (pos 1)) env.gold_excess_factor))
  where
    open env.ops use {to_u64, mul, of_int, add}

-- Limite = 1000 * Nivel^1.8.
unfoldable pub calculate_level_up_limit : Env → ℤ → ℕ
calculate_level_up_limit env level =
    to_u64 (mul_double env.level_limit_base (pow level env.level_limit_exp))
  where
    open env.ops use {to_u64, mul_double, pow}

pub record BaseStats : Type 0 where
  pub strength : ℤ
  pub agility : ℤ
  pub intelligence : ℤ
  pub constitution : ℤ

unfoldable pub calculate_base_stats : GameConfig → PlayerRace → PlayerClass → BaseStats
calculate_base_stats config race klass = record {
  strength = config.race_base_strength race +ℤ config.class_bonus_strength klass;
  agility = config.race_base_agility race +ℤ config.class_bonus_agility klass;
  intelligence = config.race_base_intelligence race +ℤ config.class_bonus_intelligence klass;
  constitution = config.race_base_constitution race +ℤ config.class_bonus_constitution klass;
}

-- `Player::Player`; 0.0f is the integer 0 as a float.
unfoldable pub new_player :
    Env
    → ℕ
    → Bytes
    → PlayerRace
    → PlayerClass
    → (level max_hp max_mana : ℤ) → BaseStats
    → Position
    → Player
unfolding new_character
new_player env id name race klass level max_hp max_mana stats position = record {
  character = new_character id level max_hp position;
  name = name;
  race = race;
  klass = klass;
  gold = 0;
  experience = 0;
  current_mana = max_mana;
  max_mana = max_mana;
  strength = stats.strength;
  agility = stats.agility;
  intelligence = stats.intelligence;
  constitution = stats.constitution;
  clan_id = 0;
  meditating = false;
  partial_hp_regen = env.ops.of_int (pos 0);
  partial_mana_regen = env.ops.of_int (pos 0);
  inventory = new_inventory env.config;
}

-- A new player has at least one hit point.
unfoldable pub create_initial_player :
    Env → ℕ → Bytes → PlayerRace → PlayerClass → Position → Player
create_initial_player env id name race klass position =
    let stats = calculate_base_stats env.config race klass in
    let p =
      new_player env id name race klass env.initial_player_level (pos 0) (pos 0) stats position in
    let max_hp = calculate_max_hp env p in
    set_initial_stats (if leb_ℤ max_hp (pos 0) then pos 1 else max_hp) (calculate_max_mana env p) p

-- The gold above the safe amount, which falls to the ground.
unfoldable pub calculate_player_dropped_gold : Env → Player → ℕ
unfolding int_to_u64
calculate_player_dropped_gold env p =
    let max_safe_gold = int_to_u64 (calculate_max_gold env p.level) in
    if ltb max_safe_gold p.gold then p.gold - max_safe_gold else 0

unfoldable pub calculate_player_dropped_experience : Env → Player → ℕ
calculate_player_dropped_experience env p =
    env.ops.to_u64 (env.ops.mul (env.ops.of_u64 p.experience) env.death_exp_loss_mult)
