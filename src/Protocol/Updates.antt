-- ===== src/Protocol/Updates.antt =====
-- common/updates/*.h and common/attack_result.h: what the server tells its clients. An enum that is
-- sent by `static_cast<uint8_t>` and read back by a cast with no check is its underlying number.
use argentum_online_taller_g.Prelude.{ℕ, Bool, List, Bytes}
use argentum_online_taller_g.Prelude.Int.{ℤ}
use argentum_online_taller_g.Config.{Position}
use argentum_online_taller_g.World.Clans.{ClanMemberInfo}

pub record MatchInfo : Type 0 where
  pub id : ℕ
  pub name : Bytes
  pub current_players : ℕ
  pub max_players : ℕ

pub record MapCellData : Type 0 where
  pub terrain_type : ℕ
  pub blocking : Bool

pub record InventorySlotData : Type 0 where
  pub item_name : Bytes
  pub quantity : ℕ
  pub is_equipped : Bool

pub record AttackResult : Type 0 where
  pub attacker_id : ℕ
  pub target_id : ℕ
  pub damage : ℤ
  pub evaded : Bool
  pub target_died : Bool
  pub is_critical : Bool
  pub is_healing : Bool
  pub heal_amount : ℤ
  pub status : ℕ
  pub type : ℕ
  pub weapon_or_spell_name : Bytes
  pub target_clan_id : ℕ

pub record PlayerSnapshot : Type 0 where
  pub player_id : ℕ
  pub nick : Bytes
  pub race : ℕ
  pub klass : ℕ
  pub x : ℤ
  pub y : ℤ
  pub hp : ℤ
  pub max_hp : ℤ
  pub mp : ℤ
  pub max_mp : ℤ
  pub xp : ℕ
  pub gold : ℕ
  pub level : ℕ
  pub is_ghost : Bool
  pub is_meditating : Bool
  pub clan_id : ℕ
  pub equipment : List Bytes
  pub direction : ℕ
  pub is_moving : Bool

pub record GroundItemSnapshot : Type 0 where
  pub x : ℤ
  pub y : ℤ
  pub is_gold : Bool
  pub quantity : ℕ
  pub name : Bytes

pub record NpcSnapshot : Type 0 where
  pub npc_id : ℕ
  pub name : Bytes
  pub x : ℤ
  pub y : ℤ
  pub hp : ℤ
  pub max_hp : ℤ
  pub is_hostile : Bool
  pub npc_type : ℕ
  pub direction : ℕ
  pub is_moving : Bool

-- The classes that extend `GameUpdate`, each with the arguments of its constructor in their order;
-- `UpdateType::STATS` has no class. The results that `npc_interact` and `clan_result` hold stand
-- with their fields.
pub data GameUpdate : Type 0 where
  login_ok : (player_id : ℕ) → GameUpdate
  match_list : (matches : List MatchInfo) → GameUpdate
  match_created : (match_id : ℕ) → GameUpdate
  match_joined :
      (match_id your_player_id : ℕ) (was_restored : Bool) (restored_race restored_klass : ℕ)
      → GameUpdate
  player_joined : (player_id : ℕ) (nick : Bytes) (race klass : ℕ) (pos : Position) → GameUpdate
  player_left : (player_id : ℕ) (nick : Bytes) (clan_id : ℕ) → GameUpdate
  player_spawned : (player_id : ℕ) (nick : Bytes) (race klass : ℕ) (pos : Position) → GameUpdate
  world_map : (width height : ℕ) (cells : List MapCellData) → GameUpdate
  error : (player_id code : ℕ) (detail : Bytes) → GameUpdate
  snapshot :
      (tick : ℕ) (players : List PlayerSnapshot) (npcs : List NpcSnapshot)
      (ground_items : List GroundItemSnapshot)
      → GameUpdate
  moved : (player_id : ℕ) (pos : Position) → GameUpdate
  death : (dead_id killer_id : ℕ) → GameUpdate
  attacked : (result : AttackResult) (target_player_id : ℕ) → GameUpdate
  revive : (player_id status : ℕ) → GameUpdate
  meditate : (player_id status : ℕ) → GameUpdate
  inventory : (player_id : ℕ) (items : List InventorySlotData) (gold : ℕ) → GameUpdate
  clan_result :
      (target_player_id action status : ℕ) (result_clan_name actor_nick : Bytes)
      (other_player_id : ℕ) (result_other_nick : Bytes) (clan_name other_nick : Bytes)
      → GameUpdate
  clan_review :
      (target_player_id : ℕ) (clan_name : Bytes) (members pending : List ClanMemberInfo)
      → GameUpdate
  catalog : (player_id : ℕ) (catalog : List Bytes) (gold_in_bank : ℕ) (vault : Bool) → GameUpdate
  npc_interact :
      (player_id type status : ℕ) (item_name : Bytes) (gold_amount : ℕ) (catalog : List Bytes)
      → GameUpdate
  chat_msg :
      (sender_id : ℕ) (sender_nick text : Bytes) (recipient_id : ℕ) (is_private : Bool) → GameUpdate
  system_msg : (player_id : ℕ) (message : Bytes) → GameUpdate

-- `get_target_player_id`: 0 is everybody.
unfoldable pub get_target_player_id : GameUpdate → ℕ
get_target_player_id (attacked r target) = target
get_target_player_id (revive pid status) = pid
get_target_player_id (meditate pid status) = pid
get_target_player_id (inventory pid items gold) = pid
get_target_player_id (clan_result target a s cn an oid on n o) = target
get_target_player_id (clan_review target n ms ps) = target
get_target_player_id (catalog pid c g v) = pid
get_target_player_id (npc_interact pid t s i g c) = pid
get_target_player_id (chat_msg sid sn t recipient p) = recipient
get_target_player_id (system_msg pid m) = pid
get_target_player_id (error pid c d) = pid
get_target_player_id _ = 0
