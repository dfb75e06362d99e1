-- ===== src/Protocol/Arrival/Elements.antt =====
-- server/server_protocol.cpp and client/client_protocol.cpp: the elements of the vectors of an update.
use argentum_online_taller_g.Prelude.{Bool, false, List, map, Bytes, length, All}
use argentum_online_taller_g.World.Clans.{ClanMemberInfo}
use argentum_online_taller_g.Protocol.Wire.{
  Write, Recv, put_u8, put_bool, put_string, put_each, ◌⊕◌, ◌>>=◌, recv_bool, recv_string,
  recv_each,
}
use argentum_online_taller_g.Protocol.Reads.{
  Reads, Reads-then, u8-Reads, u32-Reads, i32-Reads, wire_rules, each-Reads, each_as-Reads,
  bool_then, string-Reads, IsText,
}
use argentum_online_taller_g.Protocol.Updates.{
  MatchInfo, MapCellData, InventorySlotData, PlayerSnapshot, NpcSnapshot, GroundItemSnapshot,
}
use argentum_online_taller_g.Protocol.Fits.{
  IsMatchInfo, IsCell, IsSlot, IsPlayer, IsNpc, IsGroundItem, IsMember,
}
use argentum_online_taller_g.Protocol.Sending.{
  put_match_info, put_cell, put_slot, put_player, put_npc, put_ground_item, put_member, put_pending,
}
use argentum_online_taller_g.Protocol.Receiving.Elements.{
  recv_match_info, recv_slot, recv_cell, recv_player, recv_npc, recv_ground_item, recv_member,
}
use argentum_online_taller_g.Protocol.Arrival.{as_pending}

match_info-Reads : (m : MatchInfo) → IsMatchInfo m → Reads (put_match_info m) recv_match_info m
unfolding put_match_info recv_match_info
match_info-Reads m h = search wire_rules depth 30

cell-Reads : (c : MapCellData) → IsCell c → Reads (put_cell c) recv_cell c
unfolding put_cell recv_cell IsCell
cell-Reads c h = search wire_rules depth 30

slot-Reads : (s : InventorySlotData) → IsSlot s → Reads (put_slot s) recv_slot s
unfolding put_slot recv_slot
slot-Reads s h = search wire_rules depth 30

pub names-Reads :
    (names : List Bytes)
    → All IsText names
    → Reads (put_each put_string names) (recv_each (length names) recv_string) names
names-Reads = each-Reads put_string recv_string string-Reads

player-Reads : (p : PlayerSnapshot) → IsPlayer p → Reads (put_player p) recv_player p
unfolding put_player recv_player
player-Reads p h = Reads-then _ (u32-Reads p.player_id h.player_id) (
    Reads-then _ (string-Reads p.nick h.nick) (
      Reads-then _ (u8-Reads p.race h.race) (
        Reads-then _ (u8-Reads p.klass h.klass) (
          Reads-then _ (i32-Reads p.x h.x) (
            Reads-then _ (i32-Reads p.y h.y) (
              Reads-then _ (i32-Reads p.hp h.hp) (
                Reads-then _ (i32-Reads p.max_hp h.max_hp) (
                  Reads-then _ (i32-Reads p.mp h.mp) (
                    Reads-then _ (i32-Reads p.max_mp h.max_mp)
                      (search (wire_rules, names-Reads) depth 40))))))))))

npc-Reads : (n : NpcSnapshot) → IsNpc n → Reads (put_npc n) recv_npc n
unfolding put_npc recv_npc
npc-Reads n h = search wire_rules depth 40

ground_item-Reads :
    (gi : GroundItemSnapshot) → IsGroundItem gi → Reads (put_ground_item gi) recv_ground_item gi
unfolding put_ground_item recv_ground_item
ground_item-Reads gi h = search wire_rules depth 30

member-Reads : (m : ClanMemberInfo) → IsMember m → Reads (put_member m) recv_member m
unfolding put_member recv_member
member-Reads m h = search wire_rules depth 30

nothing_then {ℓ} :
    {B : Type ℓ} {w : Write} {c : B} (k : Bool → Recv B)
    → Reads w (k false) c
    → Reads (put_u8 0 ⊕ w) (recv_bool >>= k) c
unfolding put_bool
nothing_then k = bool_then false k

pending-Reads : (m : ClanMemberInfo) → IsMember m → Reads (put_pending m) recv_member (as_pending m)
unfolding put_pending recv_member as_pending
pending-Reads m h = search (wire_rules, nothing_then) depth 30

pub matches-Reads :
    (ms : List MatchInfo)
    → All IsMatchInfo ms
    → Reads (put_each put_match_info ms) (recv_each (length ms) recv_match_info) ms
matches-Reads = each-Reads put_match_info recv_match_info match_info-Reads

pub cells-Reads :
    (cs : List MapCellData)
    → All IsCell cs
    → Reads (put_each put_cell cs) (recv_each (length cs) recv_cell) cs
cells-Reads = each-Reads put_cell recv_cell cell-Reads

pub slots-Reads :
    (ss : List InventorySlotData)
    → All IsSlot ss
    → Reads (put_each put_slot ss) (recv_each (length ss) recv_slot) ss
slots-Reads = each-Reads put_slot recv_slot slot-Reads

pub players-Reads :
    (ps : List PlayerSnapshot)
    → All IsPlayer ps
    → Reads (put_each put_player ps) (recv_each (length ps) recv_player) ps
players-Reads = each-Reads put_player recv_player player-Reads

pub npcs-Reads :
    (ns : List NpcSnapshot)
    → All IsNpc ns
    → Reads (put_each put_npc ns) (recv_each (length ns) recv_npc) ns
npcs-Reads = each-Reads put_npc recv_npc npc-Reads

pub ground_items-Reads :
    (gs : List GroundItemSnapshot)
    → All IsGroundItem gs
    → Reads (put_each put_ground_item gs) (recv_each (length gs) recv_ground_item) gs
ground_items-Reads = each-Reads put_ground_item recv_ground_item ground_item-Reads

pub members-Reads :
    (ms : List ClanMemberInfo)
    → All IsMember ms
    → Reads (put_each put_member ms) (recv_each (length ms) recv_member) ms
members-Reads = each-Reads put_member recv_member member-Reads

pub pendings-Reads :
    (ms : List ClanMemberInfo)
    → All IsMember ms
    → Reads (put_each put_pending ms) (recv_each (length ms) recv_member) (map as_pending ms)
pendings-Reads = each_as-Reads put_pending recv_member as_pending pending-Reads

pub ruleset elements_rules = (
  wire_rules, names-Reads, matches-Reads, cells-Reads, slots-Reads, players-Reads, npcs-Reads,
  ground_items-Reads, members-Reads, pendings-Reads,
)
