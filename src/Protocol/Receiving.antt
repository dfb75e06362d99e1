-- ===== src/Protocol/Receiving.antt =====
-- client/client_protocol.cpp: `receive_update`.
use argentum_online_taller_g.Prelude.{ℕ, ◌*◌, Bool, false, List, [], Bytes, ◌==◌, if◌then◌else◌}
use argentum_online_taller_g.Config.{Position}
use argentum_online_taller_g.World.Clans.{ClanMemberInfo}
use argentum_online_taller_g.Protocol.Wire.{
  Recv, ◌>>=◌, give, throw_error, recv_u8, recv_bool, recv_u16, recv_u32, recv_i32, recv_u64,
  recv_string, recv_each,
}
use argentum_online_taller_g.Protocol.Updates.{
  MatchInfo, MapCellData, InventorySlotData, AttackResult, PlayerSnapshot, NpcSnapshot,
  GroundItemSnapshot, GameUpdate, login_ok, match_list, match_created, match_joined, player_joined,
  player_left, world_map, error, snapshot, moved, death, attacked, revive, meditate, inventory,
  clan_result, clan_review, catalog, npc_interact, chat_msg, system_msg,
}
use argentum_online_taller_g.Protocol.ServerOpcode
use argentum_online_taller_g.Protocol.Receiving.Elements.{
  recv_match_info, recv_slot, recv_cell, recv_player, recv_npc, recv_ground_item, recv_member,
}
pub mod Elements

unfoldable pub recv_login_ok : Recv GameUpdate
recv_login_ok = do player_id ← recv_u32; give (login_ok player_id)

unfoldable pub recv_match_list : Recv GameUpdate
recv_match_list = do n ← recv_u16; matches ← recv_each n recv_match_info; give (match_list matches)

unfoldable pub recv_match_created : Recv GameUpdate
recv_match_created = do match_id ← recv_u32; give (match_created match_id)

unfoldable pub recv_match_joined : Recv GameUpdate
recv_match_joined = do
  match_id ← recv_u32
  your_pid ← recv_u32
  was_restored ← recv_bool
  restored_race ← recv_u8
  restored_klass ← recv_u8
  give (match_joined match_id your_pid was_restored restored_race restored_klass)

unfoldable pub recv_player_joined : Recv GameUpdate
recv_player_joined = do
  pid ← recv_u32
  nick ← recv_string
  race ← recv_u8
  klass ← recv_u8
  x ← recv_i32
  y ← recv_i32
  give (player_joined pid nick race klass (record { x = x; y = y }))

unfoldable pub recv_player_left : Recv GameUpdate
recv_player_left = do
  pid ← recv_u32
  nick ← recv_string
  clan_id ← recv_u32
  give (player_left pid nick clan_id)

unfoldable pub recv_attacked : Recv GameUpdate
recv_attacked = do
  attacker_id ← recv_u32
  target_id ← recv_u32
  damage ← recv_i32
  evaded ← recv_bool
  target_died ← recv_bool
  is_critical ← recv_bool
  is_healing ← recv_bool
  heal_amount ← recv_i32
  type ← recv_u8
  weapon_or_spell_name ← recv_string
  status ← recv_u8
  target_clan_id ← recv_u32
  give (
      attacked
        (record {
          attacker_id = attacker_id;
          target_id = target_id;
          damage = damage;
          evaded = evaded;
          target_died = target_died;
          is_critical = is_critical;
          is_healing = is_healing;
          heal_amount = heal_amount;
          status = status;
          type = type;
          weapon_or_spell_name = weapon_or_spell_name;
          target_clan_id = target_clan_id;
        })
        0)

unfoldable pub recv_death : Recv GameUpdate
recv_death = do dead_id ← recv_u32; killer_id ← recv_u32; give (death dead_id killer_id)

unfoldable pub recv_revive : Recv GameUpdate
recv_revive = do status ← recv_u8; give (revive 0 status)

unfoldable pub recv_meditate : Recv GameUpdate
recv_meditate = do status ← recv_u8; give (meditate 0 status)

unfoldable pub recv_inventory : Recv GameUpdate
recv_inventory = do
  player_id ← recv_u32
  n ← recv_u16
  items ← recv_each n recv_slot
  gold ← recv_u64
  give (inventory player_id items gold)

unfoldable pub recv_player_spawned : Recv GameUpdate
recv_player_spawned = do
  pid ← recv_u32
  nick ← recv_string
  race ← recv_u8
  klass ← recv_u8
  x ← recv_i32
  y ← recv_i32
  give (player_joined pid nick race klass (record { x = x; y = y }))

unfoldable pub recv_world_map : Recv GameUpdate
recv_world_map = do
  width ← recv_u16
  height ← recv_u16
  cells ← recv_each (width * height) recv_cell
  give (world_map width height cells)

unfoldable pub recv_snapshot : Recv GameUpdate
recv_snapshot = do
  tick ← recv_u32
  n ← recv_u16
  players ← recv_each n recv_player
  npcs_count ← recv_u16
  npcs ← recv_each npcs_count recv_npc
  items_count ← recv_u16
  ground_items ← recv_each items_count recv_ground_item
  give (snapshot tick players npcs ground_items)

unfoldable pub recv_moved : Recv GameUpdate
recv_moved = do
  pid ← recv_u32
  x ← recv_i32
  y ← recv_i32
  give (moved pid (record { x = x; y = y }))

unfoldable pub recv_chat_msg : Recv GameUpdate
recv_chat_msg = do
  sender_id ← recv_u32
  sender_nick ← recv_string
  text ← recv_string
  is_private ← recv_bool
  give (chat_msg sender_id sender_nick text 0 is_private)

unfoldable pub recv_system_msg : Recv GameUpdate
recv_system_msg = do
  target_player_id ← recv_u32
  text ← recv_string
  give (system_msg target_player_id text)

unfoldable pub recv_npc_interact : Recv GameUpdate
recv_npc_interact = do
  type ← recv_u8
  status ← recv_u8
  item_name ← recv_string
  gold_amount ← recv_u64
  give (npc_interact 0 type status item_name gold_amount [])

unfoldable pub recv_clan_result : Recv GameUpdate
recv_clan_result = do
  action_val ← recv_u8
  status_val ← recv_u8
  clan_name ← recv_string
  actor_nick ← recv_string
  other_player_id ← recv_u32
  other_nick ← recv_string
  give (clan_result 0 action_val status_val clan_name actor_nick other_player_id other_nick [] [])

unfoldable pub recv_clan_review : Recv GameUpdate
recv_clan_review = do
  clan_name ← recv_string
  member_count ← recv_u16
  members ← recv_each member_count recv_member
  pending_count ← recv_u16
  pending ← recv_each pending_count recv_member
  give (clan_review 0 clan_name members pending)

unfoldable pub recv_error : Recv GameUpdate
recv_error = do code ← recv_u8; detail ← recv_string; give (error 0 code detail)

unfoldable pub recv_catalog : Recv GameUpdate
recv_catalog = do
  n ← recv_u16
  names ← recv_each n recv_string
  gold ← recv_u64
  vault ← recv_bool
  give (catalog 0 names gold vault)

unfoldable pub recv_payload : ℕ → Recv GameUpdate
recv_payload op =
    if op == ServerOpcode.login_ok
    then recv_login_ok
    else if op == ServerOpcode.match_list
    then recv_match_list
    else if op == ServerOpcode.match_created
    then recv_match_created
    else if op == ServerOpcode.match_joined
    then recv_match_joined
    else if op == ServerOpcode.player_joined
    then recv_player_joined
    else if op == ServerOpcode.player_left
    then recv_player_left
    else if op == ServerOpcode.player_spawned
    then recv_player_spawned
    else if op == ServerOpcode.world_map
    then recv_world_map
    else if op == ServerOpcode.attacked
    then recv_attacked
    else if op == ServerOpcode.death
    then recv_death
    else if op == ServerOpcode.revive
    then recv_revive
    else if op == ServerOpcode.meditate
    then recv_meditate
    else if op == ServerOpcode.inventory
    then recv_inventory
    else if op == ServerOpcode.snapshot
    then recv_snapshot
    else if op == ServerOpcode.moved
    then recv_moved
    else if op == ServerOpcode.chat_msg
    then recv_chat_msg
    else if op == ServerOpcode.system_msg
    then recv_system_msg
    else if op == ServerOpcode.npc_interact
    then recv_npc_interact
    else if op == ServerOpcode.clan_result
    then recv_clan_result
    else if op == ServerOpcode.clan_review
    then recv_clan_review
    else if op == ServerOpcode.error
    then recv_error
    else if op == ServerOpcode.catalog
    then recv_catalog
    else throw_error

unfoldable pub receive_update : Recv GameUpdate
receive_update = do op ← recv_u8; recv_payload op
