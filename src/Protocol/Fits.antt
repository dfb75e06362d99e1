-- ===== src/Protocol/Fits.antt =====
-- common/updates/*.h: the values that the integer types of the fields can hold, and texts and vectors
-- whose length fits the number that is sent for it.
use argentum_online_taller_g.Prelude.{◌*◌, ◌≡◌, length, All}
use argentum_online_taller_g.Config.{Position}
use argentum_online_taller_g.World.Clans.{ClanMemberInfo}
use argentum_online_taller_g.Protocol.Reads.{IsU8, IsU16, IsU32, IsU64, IsI32, IsText}
use argentum_online_taller_g.Protocol.Updates.{
  MatchInfo, MapCellData, InventorySlotData, AttackResult, PlayerSnapshot, NpcSnapshot,
  GroundItemSnapshot, GameUpdate, login_ok, match_list, match_created, match_joined, player_joined,
  player_left, player_spawned, world_map, error, snapshot, moved, death, attacked, revive, meditate,
  inventory, clan_result, clan_review, catalog, npc_interact, chat_msg, system_msg,
}

pub record IsPosition (pos : Position) : Type 0 where
  pub x : IsI32 pos.x
  pub y : IsI32 pos.y

pub record IsMatchInfo (m : MatchInfo) : Type 0 where
  pub id : IsU32 m.id
  pub name : IsText m.name
  pub current_players : IsU8 m.current_players
  pub max_players : IsU8 m.max_players

unfoldable pub IsCell : MapCellData → Type 0
IsCell c = IsU8 c.terrain_type

pub record IsSlot (s : InventorySlotData) : Type 0 where
  pub item_name : IsText s.item_name
  pub quantity : IsU32 s.quantity

pub record IsAttack (r : AttackResult) : Type 0 where
  pub attacker_id : IsU32 r.attacker_id
  pub target_id : IsU32 r.target_id
  pub damage : IsI32 r.damage
  pub heal_amount : IsI32 r.heal_amount
  pub status : IsU8 r.status
  pub type : IsU8 r.type
  pub weapon_or_spell_name : IsText r.weapon_or_spell_name
  pub target_clan_id : IsU32 r.target_clan_id

pub record IsPlayer (p : PlayerSnapshot) : Type 0 where
  pub player_id : IsU32 p.player_id
  pub nick : IsText p.nick
  pub race : IsU8 p.race
  pub klass : IsU8 p.klass
  pub x : IsI32 p.x
  pub y : IsI32 p.y
  pub hp : IsI32 p.hp
  pub max_hp : IsI32 p.max_hp
  pub mp : IsI32 p.mp
  pub max_mp : IsI32 p.max_mp
  pub xp : IsU64 p.xp
  pub gold : IsU64 p.gold
  pub level : IsU16 p.level
  pub clan_id : IsU32 p.clan_id
  pub equipment_size : IsU8 (length p.equipment)
  pub equipment : All IsText p.equipment
  pub direction : IsU8 p.direction

pub record IsNpc (n : NpcSnapshot) : Type 0 where
  pub npc_id : IsU32 n.npc_id
  pub name : IsText n.name
  pub x : IsI32 n.x
  pub y : IsI32 n.y
  pub hp : IsI32 n.hp
  pub max_hp : IsI32 n.max_hp
  pub npc_type : IsU32 n.npc_type
  pub direction : IsU8 n.direction

pub record IsGroundItem (gi : GroundItemSnapshot) : Type 0 where
  pub x : IsI32 gi.x
  pub y : IsI32 gi.y
  pub quantity : IsU64 gi.quantity
  pub name : IsText gi.name

pub record IsMember (m : ClanMemberInfo) : Type 0 where
  pub player_id : IsU32 m.player_id
  pub nick : IsText m.nick

-- What `send_update` puts of the update fits its place in the message.
unfoldable pub Fits : GameUpdate → Type 0
Fits (login_ok pid) = IsU32 pid
Fits (match_list matches) = IsU16 (length matches) × All IsMatchInfo matches
Fits (match_created match_id) = IsU32 match_id
Fits (match_joined match_id pid restored race klass) =
    IsU32 match_id × IsU32 pid × IsU8 race × IsU8 klass
Fits (player_joined pid nick race klass pos) =
    IsU32 pid × IsText nick × IsU8 race × IsU8 klass × IsPosition pos
Fits (player_left pid nick clan_id) = IsU32 pid × IsText nick × IsU32 clan_id
Fits (player_spawned pid nick race klass pos) =
    IsU32 pid × IsText nick × IsU8 race × IsU8 klass × IsPosition pos
Fits (world_map width height cells) =
    IsU16 width × IsU16 height × (width * height ≡ length cells) × All IsCell cells
Fits (error pid code detail) = IsU8 code × IsText detail
Fits (snapshot tick players npcs ground_items) =
    IsU32 tick
    × (IsU16 (length players) × All IsPlayer players)
    × (IsU16 (length npcs) × All IsNpc npcs)
    × (IsU16 (length ground_items) × All IsGroundItem ground_items)
Fits (moved pid pos) = IsU32 pid × IsPosition pos
Fits (death dead_id killer_id) = IsU32 dead_id × IsU32 killer_id
Fits (attacked r target) = IsAttack r
Fits (revive pid status) = IsU8 status
Fits (meditate pid status) = IsU8 status
Fits (inventory pid items gold) = IsU32 pid × IsU16 (length items) × All IsSlot items × IsU64 gold
Fits (clan_result target action status clan_name actor_nick other_id other_nick n o) =
    IsU8 action
    × IsU8 status
    × IsText clan_name
    × IsText actor_nick
    × IsU32 other_id
    × IsText other_nick
Fits (clan_review target clan_name members pending) =
    IsText clan_name
    × (IsU16 (length members) × All IsMember members)
    × (IsU16 (length pending) × All IsMember pending)
Fits (catalog pid names gold vault) = IsU16 (length names) × All IsText names × IsU64 gold
Fits (npc_interact pid type status item_name gold_amount names) =
    IsU8 type × IsU8 status × IsText item_name × IsU64 gold_amount
Fits (chat_msg sender_id sender_nick text recipient_id is_private) =
    IsU32 sender_id × IsText sender_nick × IsText text
Fits (system_msg pid message) = IsU32 pid × IsText message
