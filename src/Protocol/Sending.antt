-- ===== src/Protocol/Sending.antt =====
-- server/server_protocol.cpp: `send_update`. What is put in the buffer of a message; `none` is the
-- `std::length_error` that is thrown before anything is sent.
use argentum_online_taller_g.Prelude.{
  ℕ, ◌*◌, Bool, not, none, List, Bytes, length, ltb, ◌==◌, if◌then◌else◌,
}
use argentum_online_taller_g.Config.{Position}
use argentum_online_taller_g.World.Clans.{ClanMemberInfo}
use argentum_online_taller_g.Protocol.Wire.{
  Write, ◌⊕◌, put_u8, put_bool, put_u16, put_u32, put_i32, put_u64, put_string, put_each,
}
use argentum_online_taller_g.Protocol.Updates.{
  MatchInfo, MapCellData, InventorySlotData, AttackResult, PlayerSnapshot, NpcSnapshot,
  GroundItemSnapshot, GameUpdate, login_ok, match_list, match_created, match_joined, player_joined,
  player_left, player_spawned, world_map, error, snapshot, moved, death, attacked, revive, meditate,
  inventory, clan_result, clan_review, catalog, npc_interact, chat_msg, system_msg,
}
use argentum_online_taller_g.Protocol.ServerOpcode

unfoldable pub send_login_ok : ℕ → Write
send_login_ok pid = put_u8 ServerOpcode.login_ok ⊕ put_u32 pid

unfoldable pub put_match_info : MatchInfo → Write
put_match_info m =
    put_u32 m.id ⊕ put_string m.name ⊕ put_u8 m.current_players ⊕ put_u8 m.max_players

unfoldable pub send_match_list : List MatchInfo → Write
send_match_list matches =
    if ltb 65535 (length matches)
    then none
    else put_u8 ServerOpcode.match_list ⊕ put_u16 (length matches) ⊕ put_each put_match_info matches

unfoldable pub send_match_created : ℕ → Write
send_match_created match_id = put_u8 ServerOpcode.match_created ⊕ put_u32 match_id

unfoldable pub send_match_joined : ℕ → ℕ → Bool → ℕ → ℕ → Write
send_match_joined match_id your_player_id was_restored restored_race restored_klass =
    put_u8 ServerOpcode.match_joined
    ⊕ put_u32 match_id
    ⊕ put_u32 your_player_id
    ⊕ put_bool was_restored
    ⊕ put_u8 restored_race
    ⊕ put_u8 restored_klass

unfoldable pub send_player_joined : ℕ → Bytes → ℕ → ℕ → Position → Write
send_player_joined pid nick race klass pos =
    put_u8 ServerOpcode.player_joined
    ⊕ put_u32 pid
    ⊕ put_string nick
    ⊕ put_u8 race
    ⊕ put_u8 klass
    ⊕ put_i32 pos.x
    ⊕ put_i32 pos.y

unfoldable pub send_player_left : ℕ → Bytes → ℕ → Write
send_player_left pid nick clan_id =
    put_u8 ServerOpcode.player_left ⊕ put_u32 pid ⊕ put_string nick ⊕ put_u32 clan_id

unfoldable pub send_player_spawned : ℕ → Bytes → ℕ → ℕ → Position → Write
send_player_spawned pid nick race klass pos =
    put_u8 ServerOpcode.player_spawned
    ⊕ put_u32 pid
    ⊕ put_string nick
    ⊕ put_u8 race
    ⊕ put_u8 klass
    ⊕ put_i32 pos.x
    ⊕ put_i32 pos.y

unfoldable pub put_cell : MapCellData → Write
put_cell c = put_u8 c.terrain_type ⊕ put_bool c.blocking

unfoldable pub send_world_map : ℕ → ℕ → List MapCellData → Write
send_world_map width height cells =
    if not (width * height == length cells)
    then none
    else put_u8 ServerOpcode.world_map ⊕ put_u16 width ⊕ put_u16 height ⊕ put_each put_cell cells

unfoldable pub send_attacked : AttackResult → Write
send_attacked r =
    put_u8 ServerOpcode.attacked
    ⊕ put_u32 r.attacker_id
    ⊕ put_u32 r.target_id
    ⊕ put_i32 r.damage
    ⊕ put_bool r.evaded
    ⊕ put_bool r.target_died
    ⊕ put_bool r.is_critical
    ⊕ put_bool r.is_healing
    ⊕ put_i32 r.heal_amount
    ⊕ put_u8 r.type
    ⊕ put_string r.weapon_or_spell_name
    ⊕ put_u8 r.status
    ⊕ put_u32 r.target_clan_id

unfoldable pub send_death : ℕ → ℕ → Write
send_death dead_id killer_id = put_u8 ServerOpcode.death ⊕ put_u32 dead_id ⊕ put_u32 killer_id

unfoldable pub send_meditate : ℕ → Write
send_meditate status = put_u8 ServerOpcode.meditate ⊕ put_u8 status

unfoldable pub send_revive : ℕ → Write
send_revive status = put_u8 ServerOpcode.revive ⊕ put_u8 status

unfoldable pub put_slot : InventorySlotData → Write
put_slot slot = put_string slot.item_name ⊕ put_u32 slot.quantity ⊕ put_bool slot.is_equipped

unfoldable pub send_inventory : ℕ → List InventorySlotData → ℕ → Write
send_inventory pid items gold =
    if ltb 65535 (length items)
    then none
    else put_u8 ServerOpcode.inventory
      ⊕ put_u32 pid
      ⊕ put_u16 (length items)
      ⊕ put_each put_slot items
      ⊕ put_u64 gold

unfoldable pub send_catalog : List Bytes → ℕ → Bool → Write
send_catalog names gold_in_bank vault =
    if ltb 65535 (length names)
    then none
    else put_u8 ServerOpcode.catalog
      ⊕ put_u16 (length names)
      ⊕ put_each put_string names
      ⊕ put_u64 gold_in_bank
      ⊕ put_bool vault

unfoldable pub put_player : PlayerSnapshot → Write
put_player p =
    put_u32 p.player_id
    ⊕ put_string p.nick
    ⊕ put_u8 p.race
    ⊕ put_u8 p.klass
    ⊕ put_i32 p.x
    ⊕ put_i32 p.y
    ⊕ put_i32 p.hp
    ⊕ put_i32 p.max_hp
    ⊕ put_i32 p.mp
    ⊕ put_i32 p.max_mp
    ⊕ put_u64 p.xp
    ⊕ put_u64 p.gold
    ⊕ put_u16 p.level
    ⊕ put_bool p.is_ghost
    ⊕ put_bool p.is_meditating
    ⊕ put_u32 p.clan_id
    ⊕ put_u8 (length p.equipment)
    ⊕ put_each put_string p.equipment
    ⊕ put_u8 p.direction
    ⊕ put_bool p.is_moving

unfoldable pub put_npc : NpcSnapshot → Write
put_npc n =
    put_u32 n.npc_id
    ⊕ put_string n.name
    ⊕ put_i32 n.x
    ⊕ put_i32 n.y
    ⊕ put_i32 n.hp
    ⊕ put_i32 n.max_hp
    ⊕ put_bool n.is_hostile
    ⊕ put_u32 n.npc_type
    ⊕ put_u8 n.direction
    ⊕ put_bool n.is_moving

unfoldable pub put_ground_item : GroundItemSnapshot → Write
put_ground_item gi =
    put_i32 gi.x ⊕ put_i32 gi.y ⊕ put_bool gi.is_gold ⊕ put_u64 gi.quantity ⊕ put_string gi.name

unfoldable pub send_snapshot :
    ℕ → List PlayerSnapshot → List NpcSnapshot → List GroundItemSnapshot → Write
send_snapshot tick players npcs ground_items =
    if ltb 65535 (length players)
    then none
    else put_u8 ServerOpcode.snapshot
      ⊕ put_u32 tick
      ⊕ put_u16 (length players)
      ⊕ put_each put_player players
      ⊕ (if ltb 65535 (length npcs)
          then none
          else put_u16 (length npcs)
            ⊕ put_each put_npc npcs
            ⊕ (if ltb 65535 (length ground_items)
                then none
                else put_u16 (length ground_items) ⊕ put_each put_ground_item ground_items))

unfoldable pub send_moved : ℕ → Position → Write
send_moved pid pos = put_u8 ServerOpcode.moved ⊕ put_u32 pid ⊕ put_i32 pos.x ⊕ put_i32 pos.y

unfoldable pub send_chat_msg : ℕ → Bytes → Bytes → Bool → Write
send_chat_msg sender_id sender_nick text is_private =
    put_u8 ServerOpcode.chat_msg
    ⊕ put_u32 sender_id
    ⊕ put_string sender_nick
    ⊕ put_string text
    ⊕ put_bool is_private

unfoldable pub send_system_msg : ℕ → Bytes → Write
send_system_msg pid message = put_u8 ServerOpcode.system_msg ⊕ put_u32 pid ⊕ put_string message

unfoldable pub send_npc_interact : ℕ → ℕ → Bytes → ℕ → Write
send_npc_interact type status item_name gold_amount =
    put_u8 ServerOpcode.npc_interact
    ⊕ put_u8 type
    ⊕ put_u8 status
    ⊕ put_string item_name
    ⊕ put_u64 gold_amount

unfoldable pub send_clan_result : ℕ → ℕ → Bytes → Bytes → ℕ → Bytes → Write
send_clan_result action status clan_name actor_nick other_player_id other_nick =
    put_u8 ServerOpcode.clan_result
    ⊕ put_u8 action
    ⊕ put_u8 status
    ⊕ put_string clan_name
    ⊕ put_string actor_nick
    ⊕ put_u32 other_player_id
    ⊕ put_string other_nick

unfoldable pub put_member : ClanMemberInfo → Write
put_member m =
    put_u32 m.player_id ⊕ put_string m.nick ⊕ put_bool m.is_founder ⊕ put_bool m.is_online

unfoldable pub put_pending : ClanMemberInfo → Write
put_pending p = put_u32 p.player_id ⊕ put_string p.nick ⊕ put_u8 0 ⊕ put_bool p.is_online

unfoldable pub send_clan_review : Bytes → List ClanMemberInfo → List ClanMemberInfo → Write
send_clan_review clan_name members pending =
    put_u8 ServerOpcode.clan_review
    ⊕ put_string clan_name
    ⊕ put_u16 (length members)
    ⊕ put_each put_member members
    ⊕ put_u16 (length pending)
    ⊕ put_each put_pending pending

unfoldable pub send_error : ℕ → Bytes → Write
send_error code detail = put_u8 ServerOpcode.error ⊕ put_u8 code ⊕ put_string detail

unfoldable pub send_update : GameUpdate → Write
send_update (login_ok pid) = send_login_ok pid
send_update (match_list matches) = send_match_list matches
send_update (match_created match_id) = send_match_created match_id
send_update (match_joined match_id pid restored race klass) =
    send_match_joined match_id pid restored race klass
send_update (player_joined pid nick race klass pos) = send_player_joined pid nick race klass pos
send_update (player_left pid nick clan_id) = send_player_left pid nick clan_id
send_update (player_spawned pid nick race klass pos) = send_player_spawned pid nick race klass pos
send_update (world_map width height cells) = send_world_map width height cells
send_update (snapshot tick players npcs ground_items) = send_snapshot tick players npcs ground_items
send_update (moved pid pos) = send_moved pid pos
send_update (attacked r target) = send_attacked r
send_update (death dead_id killer_id) = send_death dead_id killer_id
send_update (revive pid status) = send_revive status
send_update (meditate pid status) = send_meditate status
send_update (inventory pid items gold) = send_inventory pid items gold
send_update (catalog pid names gold vault) = send_catalog names gold vault
send_update (npc_interact pid type status item_name gold_amount names) =
    send_npc_interact type status item_name gold_amount
send_update (chat_msg sender_id sender_nick text recipient_id is_private) =
    send_chat_msg sender_id sender_nick text is_private
send_update (system_msg pid message) = send_system_msg pid message
send_update (clan_result target action status clan_name actor_nick other_id other_nick n o) =
    send_clan_result action status clan_name actor_nick other_id other_nick
send_update (clan_review target clan_name members pending) =
    send_clan_review clan_name members pending
send_update (error pid code detail) = send_error code detail
