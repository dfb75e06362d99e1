-- ===== src/Protocol/Receiving/Elements.antt =====
-- client/client_protocol.cpp: the bodies of the loops of `recv_*`.
use argentum_online_taller_g.World.Clans.{ClanMemberInfo}
use argentum_online_taller_g.Protocol.Wire.{
  Recv, ◌>>=◌, give, recv_u8, recv_bool, recv_u16, recv_u32, recv_i32, recv_u64, recv_string,
  recv_each,
}
use argentum_online_taller_g.Protocol.Updates.{
  MatchInfo, MapCellData, InventorySlotData, PlayerSnapshot, NpcSnapshot, GroundItemSnapshot,
}

unfoldable pub recv_match_info : Recv MatchInfo
recv_match_info = do
  id ← recv_u32
  name ← recv_string
  cur ← recv_u8
  mx ← recv_u8
  give (record { id = id; name = name; current_players = cur; max_players = mx })

unfoldable pub recv_slot : Recv InventorySlotData
recv_slot = do
  item_name ← recv_string
  quantity ← recv_u32
  is_equipped ← recv_bool
  give (record { item_name = item_name; quantity = quantity; is_equipped = is_equipped })

unfoldable pub recv_cell : Recv MapCellData
recv_cell = do
  terrain_type ← recv_u8
  blocking ← recv_bool
  give (record { terrain_type = terrain_type; blocking = blocking })

unfoldable pub recv_player : Recv PlayerSnapshot
recv_player = do
  player_id ← recv_u32
  nick ← recv_string
  race ← recv_u8
  klass ← recv_u8
  x ← recv_i32
  y ← recv_i32
  hp ← recv_i32
  max_hp ← recv_i32
  mp ← recv_i32
  max_mp ← recv_i32
  xp ← recv_u64
  gold ← recv_u64
  level ← recv_u16
  is_ghost ← recv_bool
  is_meditating ← recv_bool
  clan_id ← recv_u32
  eq_count ← recv_u8
  equipment ← recv_each eq_count recv_string
  direction ← recv_u8
  is_moving ← recv_bool
  give (record {
    player_id = player_id;
    nick = nick;
    race = race;
    klass = klass;
    x = x;
    y = y;
    hp = hp;
    max_hp = max_hp;
    mp = mp;
    max_mp = max_mp;
    xp = xp;
    gold = gold;
    level = level;
    is_ghost = is_ghost;
    is_meditating = is_meditating;
    clan_id = clan_id;
    equipment = equipment;
    direction = direction;
    is_moving = is_moving;
  })

unfoldable pub recv_npc : Recv NpcSnapshot
recv_npc = do
  npc_id ← recv_u32
  name ← recv_string
  x ← recv_i32
  y ← recv_i32
  hp ← recv_i32
  max_hp ← recv_i32
  is_hostile ← recv_bool
  npc_type ← recv_u32
  direction ← recv_u8
  is_moving ← recv_bool
  give (record {
    npc_id = npc_id;
    name = name;
    x = x;
    y = y;
    hp = hp;
    max_hp = max_hp;
    is_hostile = is_hostile;
    npc_type = npc_type;
    direction = direction;
    is_moving = is_moving;
  })

unfoldable pub recv_ground_item : Recv GroundItemSnapshot
recv_ground_item = do
  x ← recv_i32
  y ← recv_i32
  is_gold ← recv_bool
  quantity ← recv_u64
  name ← recv_string
  give (record { x = x; y = y; is_gold = is_gold; quantity = quantity; name = name })

unfoldable pub recv_member : Recv ClanMemberInfo
recv_member = do
  pid ← recv_u32
  nick ← recv_string
  is_founder ← recv_bool
  is_online ← recv_bool
  give (record { player_id = pid; nick = nick; is_founder = is_founder; is_online = is_online })
