-- ===== src/Protocol/Commands.antt =====
-- common/commands/*.h and server/server_protocol.cpp: the commands of a player to a match, and
-- `recv_*_payload`, which read what stands after an opcode.
use argentum_online_taller_g.Prelude.{ℕ, [], Bytes, ◌==◌, if◌then◌else◌}
use argentum_online_taller_g.Prelude.Int.{ℤ}
use argentum_online_taller_g.Config.{
  PlayerRace, human, elf, dwarf, gnome, PlayerClass, mage, cleric, paladin, warrior,
}
use argentum_online_taller_g.Player.Character.{Direction, up, down, left, right}
use argentum_online_taller_g.Protocol.Wire.{
  Recv, ◌>>=◌, give, throw_error, recv_u8, recv_u32, recv_i32, recv_string,
}

-- The classes that extend `ClientCommand`, but for `RestorePlayerCommand`.
pub data Command : Type 0 where
  move_command : (player_id : ℕ) (dir : Direction) → Command
  attack_command : (player_id target_id : ℕ) → Command
  meditate_command resurrect_command pick_up_item_command : (player_id : ℕ) → Command
  drop_item_command equip_item_command : (player_id slot : ℕ) → Command
  interact_npc_command : (player_id npc_id type : ℕ) (arg : Bytes) (amount : ℤ) → Command
  clan_command : (player_id action : ℕ) (arg : Bytes) → Command
  chat_command : (player_id : ℕ) (nick text target_nick : Bytes) → Command
  cheat_command : (player_id cheat_type : ℕ) → Command
  select_race_class_command :
      (player_id : ℕ) (nick : Bytes) (race : PlayerRace) (klass : PlayerClass) → Command

unfoldable pub to_race : ℕ → Recv PlayerRace
to_race v =
    if v == 0
    then give human
    else if v == 1
    then give elf
    else if v == 2
    then give dwarf
    else if v == 3
    then give gnome
    else throw_error

unfoldable pub to_class : ℕ → Recv PlayerClass
to_class v =
    if v == 0
    then give mage
    else if v == 1
    then give cleric
    else if v == 2
    then give paladin
    else if v == 3
    then give warrior
    else throw_error

unfoldable pub to_direction : ℕ → Recv Direction
to_direction v =
    if v == 0
    then give up
    else if v == 1
    then give down
    else if v == 2
    then give left
    else if v == 3
    then give right
    else throw_error

unfoldable pub recv_create_match_payload : Recv (Bytes × ℕ)
recv_create_match_payload = do name ← recv_string; max_players ← recv_u8; give (name, max_players)

unfoldable pub recv_select_race_class_payload : Recv (PlayerRace × PlayerClass)
recv_select_race_class_payload = do
  race ← recv_u8
  klass ← recv_u8
  r ← to_race race
  k ← to_class klass
  give (r, k)

unfoldable pub recv_move_payload : ℕ → Recv Command
recv_move_payload player_id = do
  dir_byte ← recv_u8
  dir ← to_direction dir_byte
  give (move_command player_id dir)

unfoldable pub recv_attack_payload : ℕ → Recv Command
recv_attack_payload player_id = do target_id ← recv_u32; give (attack_command player_id target_id)

unfoldable pub recv_drop_item_payload : ℕ → Recv Command
recv_drop_item_payload player_id = do slot ← recv_u8; give (drop_item_command player_id slot)

unfoldable pub recv_equip_item_payload : ℕ → Recv Command
recv_equip_item_payload player_id = do slot ← recv_u8; give (equip_item_command player_id slot)

unfoldable pub recv_interact_payload : ℕ → Recv Command
recv_interact_payload player_id = do
  npc_id ← recv_u32
  type_val ← recv_u8
  arg ← recv_string
  amount ← recv_i32
  give (interact_npc_command player_id npc_id type_val arg amount)

unfoldable pub recv_clan_payload : ℕ → Recv Command
recv_clan_payload player_id = do
  action_val ← recv_u8
  arg ← recv_string
  give (clan_command player_id action_val arg)

unfoldable pub recv_chat_payload : ℕ → Bytes → Recv Command
recv_chat_payload player_id nick = do text ← recv_string; give (chat_command player_id nick text [])

unfoldable pub recv_private_chat_payload : ℕ → Bytes → Recv Command
recv_private_chat_payload player_id nick = do
  target_nick ← recv_string
  text ← recv_string
  give (chat_command player_id nick text target_nick)

unfoldable pub recv_cheat_payload : ℕ → Recv Command
recv_cheat_payload player_id = do type_raw ← recv_u8; give (cheat_command player_id type_raw)
