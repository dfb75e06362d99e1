-- ===== src/Server/Payloads.antt =====
-- client/client_protocol.cpp and server/server_protocol.cpp: the payload of a command is read as it was
-- sent.
use argentum_online_taller_g.Prelude.{
  ℕ, zero, suc, ◌<◌, List, ◌∷◌, get_elem?, ◌≡◌, ap, some, [], Bytes, arith,
}
use mathlib.Core.Option.{some-injective}
use argentum_online_taller_g.Prelude.Int.{ℤ}
use argentum_online_taller_g.Player.Character.{Direction, up, down, left, right}
use argentum_online_taller_g.Config.{
  PlayerRace, human, elf, dwarf, gnome, PlayerClass, mage, cleric, paladin, warrior,
}
use argentum_online_taller_g.Protocol.Wire.{◌⊕◌, give, put_u8, put_u32, put_i32, put_string}
use argentum_online_taller_g.Protocol.Reads.{
  Reads, Reads-then, Reads-give, Reads-last, wire_rules, u8-Reads, IsU8, IsU32, IsI32, IsText,
}
use argentum_online_taller_g.Protocol.Requests.{direction_code}
use argentum_online_taller_g.Protocol.Commands.{
  move_command, attack_command, drop_item_command, equip_item_command, interact_npc_command,
  clan_command, chat_command, cheat_command, to_race, to_class, recv_select_race_class_payload,
  to_direction, recv_move_payload, recv_attack_payload, recv_drop_item_payload,
  recv_equip_item_payload, recv_interact_payload, recv_clan_payload, recv_chat_payload,
  recv_private_chat_payload, recv_cheat_payload,
}

-- The races and the classes by the numbers that the client sends, the order of the enums.
abbrev pub races : List PlayerRace
races = human ∷ elf ∷ dwarf ∷ gnome ∷ []

abbrev pub classes : List PlayerClass
classes = mage ∷ cleric ∷ paladin ∷ warrior ∷ []

pub move-Reads :
    (dir : Direction) (pid : ℕ)
    → Reads (put_u8 (direction_code dir)) (recv_move_payload pid) (move_command pid dir)
unfolding recv_move_payload to_direction direction_code
move-Reads up pid =
    Reads-last _ (u8-Reads 0 (omega arith)) (Reads-last _ (Reads-give up) (Reads-give _))
move-Reads down pid =
    Reads-last _ (u8-Reads 1 (omega arith)) (Reads-last _ (Reads-give down) (Reads-give _))
move-Reads left pid =
    Reads-last _ (u8-Reads 2 (omega arith)) (Reads-last _ (Reads-give left) (Reads-give _))
move-Reads right pid =
    Reads-last _ (u8-Reads 3 (omega arith)) (Reads-last _ (Reads-give right) (Reads-give _))

pub attack-Reads :
    (target pid : ℕ)
    → IsU32 target
    → Reads (put_u32 target) (recv_attack_payload pid) (attack_command pid target)
unfolding recv_attack_payload
attack-Reads target pid h = search wire_rules depth 20

pub drop_item-Reads :
    (i pid : ℕ) → IsU8 i → Reads (put_u8 i) (recv_drop_item_payload pid) (drop_item_command pid i)
unfolding recv_drop_item_payload
drop_item-Reads i pid h = search wire_rules depth 20

pub equip_item-Reads :
    (i pid : ℕ) → IsU8 i → Reads (put_u8 i) (recv_equip_item_payload pid) (equip_item_command pid i)
unfolding recv_equip_item_payload
equip_item-Reads i pid h = search wire_rules depth 20

pub chat-Reads :
    (t : Bytes) (pid : ℕ) (nick : Bytes)
    → IsText t
    → Reads (put_string t) (recv_chat_payload pid nick) (chat_command pid nick t [])
unfolding recv_chat_payload
chat-Reads t pid nick h = search wire_rules depth 20

pub private_chat-Reads :
    (n t : Bytes) (pid : ℕ) (nick : Bytes)
    → IsText n × IsText t
    → Reads
        (put_string n ⊕ put_string t)
        (recv_private_chat_payload pid nick)
        (chat_command pid nick t n)
unfolding recv_private_chat_payload
private_chat-Reads n t pid nick h = search wire_rules depth 20

pub interact-Reads :
    (npc type : ℕ) (arg : Bytes) (amount : ℤ) (pid : ℕ)
    → IsU32 npc × IsU8 type × IsText arg × IsI32 amount
    → Reads
        (put_u32 npc ⊕ put_u8 type ⊕ put_string arg ⊕ put_i32 amount)
        (recv_interact_payload pid)
        (interact_npc_command pid npc type arg amount)
unfolding recv_interact_payload
interact-Reads npc type arg amount pid h = search wire_rules depth 20

pub clan-Reads :
    (action : ℕ) (arg : Bytes) (pid : ℕ)
    → IsU8 action × IsText arg
    → Reads (put_u8 action ⊕ put_string arg) (recv_clan_payload pid) (clan_command pid action arg)
unfolding recv_clan_payload
clan-Reads action arg pid h = search wire_rules depth 20

pub cheat-Reads :
    (type pid : ℕ)
    → IsU8 type
    → Reads (put_u8 type) (recv_cheat_payload pid) (cheat_command pid type)
unfolding recv_cheat_payload
cheat-Reads type pid h = search wire_rules depth 20

race_lem :
    (race : ℕ) (r : PlayerRace)
    → get_elem? races race ≡ some r
    → (race < 256) × (to_race race ≡ give r)
unfolding to_race
race_lem zero r e = (omega arith, ap give (some-injective _ _ e))
race_lem (suc zero) r e = (omega arith, ap give (some-injective _ _ e))
race_lem (suc (suc zero)) r e = (omega arith, ap give (some-injective _ _ e))
race_lem (suc (suc (suc zero))) r e = (omega arith, ap give (some-injective _ _ e))
race_lem (suc (suc (suc (suc n)))) r e = (ground (arith, e), ground (arith, e))

class_lem :
    (klass : ℕ) (q : PlayerClass)
    → get_elem? classes klass ≡ some q
    → (klass < 256) × (to_class klass ≡ give q)
unfolding to_class
class_lem zero q e = (omega arith, ap give (some-injective _ _ e))
class_lem (suc zero) q e = (omega arith, ap give (some-injective _ _ e))
class_lem (suc (suc zero)) q e = (omega arith, ap give (some-injective _ _ e))
class_lem (suc (suc (suc zero))) q e = (omega arith, ap give (some-injective _ _ e))
class_lem (suc (suc (suc (suc n)))) q e = (ground (arith, e), ground (arith, e))

pub select-Reads :
    (race klass : ℕ) (r : PlayerRace) (q : PlayerClass)
    → get_elem? races race ≡ some r
    → get_elem? classes klass ≡ some q
    → Reads (put_u8 race ⊕ put_u8 klass) recv_select_race_class_payload (r, q)
unfolding recv_select_race_class_payload
select-Reads race klass r q e f =
    let here : Reads (some []) (to_race race) r = rw (race_lem race r e).1 (Reads-give r) in
    let there : Reads (some []) (to_class klass) q = rw (class_lem klass q f).1 (Reads-give q) in
    Reads-then _ (u8-Reads race (race_lem race r e).0) (
      Reads-last _ (u8-Reads klass (class_lem klass q f).0)
        (Reads-last _ here (Reads-last _ there (Reads-give _))))
