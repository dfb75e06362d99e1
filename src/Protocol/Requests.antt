-- ===== src/Protocol/Requests.antt =====
-- client/client_protocol.cpp: what a client asks of the server, `send_*`. The enums of the clans, the
-- cheats and the city characters are their underlying numbers.
use argentum_online_taller_g.Prelude.{ℕ, Bytes}
use argentum_online_taller_g.Prelude.Int.{ℤ}
use argentum_online_taller_g.Player.Character.{Direction, up, down, left, right}
use argentum_online_taller_g.Protocol.Wire.{Write, ◌⊕◌, put_u8, put_u32, put_i32, put_string}
use argentum_online_taller_g.Protocol.ClientOpcode

-- The calls of the `ClientProtocol`, with their arguments.
pub data Request : Type 0 where
  login : (nick : Bytes) → Request
  list_matches leave_match meditate resurrect pick_up disconnect : Request
  create_match : (match_name : Bytes) (max_players : ℕ) → Request
  join_match : (match_id : ℕ) → Request
  select_race_class : (race klass : ℕ) → Request
  move : (dir : Direction) → Request
  attack : (target_id : ℕ) → Request
  drop_item equip_item : (slot_index : ℕ) → Request
  chat : (text : Bytes) → Request
  private_chat : (target_nick text : Bytes) → Request
  interact : (npc_id type : ℕ) (arg : Bytes) (amount : ℤ) → Request
  clan_action : (action : ℕ) (arg : Bytes) → Request
  cheat : (cheat_type : ℕ) → Request

unfoldable pub direction_code : Direction → ℕ
direction_code up = 0
direction_code down = 1
direction_code left = 2
direction_code right = 3

unfoldable pub send_request : Request → Write
send_request (login nick) = put_u8 ClientOpcode.login ⊕ put_string nick
send_request list_matches = put_u8 ClientOpcode.list_matches
send_request (create_match match_name max_players) =
    put_u8 ClientOpcode.create_match ⊕ put_string match_name ⊕ put_u8 max_players
send_request (join_match match_id) = put_u8 ClientOpcode.join_match ⊕ put_u32 match_id
send_request (select_race_class race klass) =
    put_u8 ClientOpcode.select_race_class ⊕ put_u8 race ⊕ put_u8 klass
send_request (move dir) = put_u8 ClientOpcode.move ⊕ put_u8 (direction_code dir)
send_request (attack target_id) = put_u8 ClientOpcode.attack ⊕ put_u32 target_id
send_request meditate = put_u8 ClientOpcode.meditate
send_request resurrect = put_u8 ClientOpcode.resurrect
send_request pick_up = put_u8 ClientOpcode.pick_up
send_request (drop_item slot_index) = put_u8 ClientOpcode.drop_item ⊕ put_u8 slot_index
send_request (equip_item slot_index) = put_u8 ClientOpcode.equip_item ⊕ put_u8 slot_index
send_request (chat text) = put_u8 ClientOpcode.chat ⊕ put_string text
send_request (private_chat target_nick text) =
    put_u8 ClientOpcode.private_chat ⊕ put_string target_nick ⊕ put_string text
send_request (interact npc_id type arg amount) =
    put_u8 ClientOpcode.interact ⊕ put_u32 npc_id ⊕ put_u8 type ⊕ put_string arg ⊕ put_i32 amount
send_request (clan_action action arg) = put_u8 ClientOpcode.clan ⊕ put_u8 action ⊕ put_string arg
send_request (cheat cheat_type) = put_u8 ClientOpcode.cheat ⊕ put_u8 cheat_type
send_request disconnect = put_u8 ClientOpcode.disconnect
send_request leave_match = put_u8 ClientOpcode.leave_match
