-- ===== src/Protocol/Arrival/Messages.antt =====
-- server/server_protocol.cpp and client/client_protocol.cpp: each message of the server.
use argentum_online_taller_g.Prelude.{
  ℕ, ◌*◌, ◌≡◌, refl, sym, subst, Bool, false, not, none, List, [], map, Bytes, length, ltb, ◌==◌,
  if◌then◌else◌, All, arith,
}
use argentum_online_taller_g.Config.{Position}
use argentum_online_taller_g.World.Clans.{ClanMemberInfo}
use argentum_online_taller_g.Protocol.Wire.{Write, ◌⊕◌, Recv, put_u8, put_each, recv_each}
use argentum_online_taller_g.Protocol.Reads.{
  Reads, Reads-then, Reads-last, Reads-give, u8-Reads, u16-Reads, IsU8, IsU16,
}
use argentum_online_taller_g.Protocol.Updates.{
  MatchInfo, MapCellData, InventorySlotData, AttackResult, PlayerSnapshot, NpcSnapshot,
  GroundItemSnapshot, GameUpdate, login_ok, match_list, match_created, match_joined, player_joined,
  player_left, player_spawned, world_map, error, snapshot, moved, death, attacked, revive, meditate,
  inventory, clan_result, clan_review, catalog, npc_interact, chat_msg, system_msg,
}
use argentum_online_taller_g.Protocol.Fits.{IsCell, Fits}
use argentum_online_taller_g.Protocol.Sending.{
  send_update, send_login_ok, send_match_list, send_match_created, send_match_joined,
  send_player_joined, send_player_left, send_player_spawned, send_world_map, send_attacked,
  send_death, send_meditate, send_revive, send_inventory, send_catalog, send_snapshot, send_moved,
  send_chat_msg, send_system_msg, send_npc_interact, send_clan_result, send_clan_review, send_error,
  put_cell,
}
use argentum_online_taller_g.Protocol.Receiving.{
  receive_update, recv_payload, recv_login_ok, recv_match_list, recv_match_created,
  recv_match_joined, recv_player_joined, recv_player_left, recv_attacked, recv_death, recv_revive,
  recv_meditate, recv_inventory, recv_player_spawned, recv_world_map, recv_snapshot, recv_moved,
  recv_chat_msg, recv_system_msg, recv_npc_interact, recv_clan_result, recv_clan_review, recv_error,
  recv_catalog,
}
use argentum_online_taller_g.Protocol.Receiving.Elements.{recv_cell}
use argentum_online_taller_g.Protocol.Arrival.{received, as_pending}
use argentum_online_taller_g.Protocol.Arrival.Elements.{elements_rules, cells-Reads}

-- The opcode chooses what is received after it.
opcode-Reads :
    (op : ℕ) {r : Recv GameUpdate} {w : Write} {u : GameUpdate}
    → IsU8 op
    → recv_payload op ≡ r
    → Reads w r u
    → Reads (put_u8 op ⊕ w) receive_update u
unfolding receive_update
opcode-Reads op {w} {u} h e x = Reads-then _ (u8-Reads op h) (subst (λ r. Reads w r u) (sym e) x)

-- A vector that is short enough is not refused.
guard-Reads {ℓ} :
    {A : Type ℓ} {w : Write} {r : Recv A} {a : A} (n : ℕ)
    → IsU16 n
    → Reads w r a
    → Reads (if ltb 65535 n then none else w) r a
guard-Reads n h x = let e : ltb 65535 n ≡ false = ground (arith, h) in rw e x

login_ok-Reads :
    (pid : ℕ) → Fits (login_ok pid) → Reads (send_login_ok pid) receive_update (login_ok pid)
unfolding send_login_ok recv_login_ok Fits recv_payload
login_ok-Reads pid h = opcode-Reads _ (omega arith) refl (search elements_rules depth 40)

match_created-Reads :
    (match_id : ℕ)
    → Fits (match_created match_id)
    → Reads (send_match_created match_id) receive_update (match_created match_id)
unfolding send_match_created recv_match_created Fits recv_payload
match_created-Reads match_id h = opcode-Reads _ (omega arith) refl (search elements_rules depth 40)

match_joined-Reads :
    (match_id pid : ℕ) (restored : Bool) (race klass : ℕ)
    → Fits (match_joined match_id pid restored race klass)
    → Reads
        (send_match_joined match_id pid restored race klass)
        receive_update
        (match_joined match_id pid restored race klass)
unfolding send_match_joined recv_match_joined Fits recv_payload
match_joined-Reads match_id pid restored race klass h =
    opcode-Reads _ (omega arith) refl (search elements_rules depth 40)

player_joined-Reads :
    (pid : ℕ) (nick : Bytes) (race klass : ℕ) (pos : Position)
    → Fits (player_joined pid nick race klass pos)
    → Reads
        (send_player_joined pid nick race klass pos)
        receive_update
        (player_joined pid nick race klass pos)
unfolding send_player_joined recv_player_joined Fits recv_payload
player_joined-Reads pid nick race klass pos h =
    opcode-Reads _ (omega arith) refl (search elements_rules depth 40)

player_left-Reads :
    (pid : ℕ) (nick : Bytes) (clan_id : ℕ)
    → Fits (player_left pid nick clan_id)
    → Reads (send_player_left pid nick clan_id) receive_update (player_left pid nick clan_id)
unfolding send_player_left recv_player_left Fits recv_payload
player_left-Reads pid nick clan_id h =
    opcode-Reads _ (omega arith) refl (search elements_rules depth 40)

player_spawned-Reads :
    (pid : ℕ) (nick : Bytes) (race klass : ℕ) (pos : Position)
    → Fits (player_spawned pid nick race klass pos)
    → Reads
        (send_player_spawned pid nick race klass pos)
        receive_update
        (player_joined pid nick race klass pos)
unfolding send_player_spawned recv_player_spawned Fits recv_payload
player_spawned-Reads pid nick race klass pos h =
    opcode-Reads _ (omega arith) refl (search elements_rules depth 40)

attacked-Reads :
    (r : AttackResult) (target : ℕ)
    → Fits (attacked r target)
    → Reads (send_attacked r) receive_update (attacked r 0)
unfolding send_attacked recv_attacked Fits recv_payload
attacked-Reads r target h = opcode-Reads _ (omega arith) refl (search elements_rules depth 40)

death-Reads :
    (dead_id killer_id : ℕ)
    → Fits (death dead_id killer_id)
    → Reads (send_death dead_id killer_id) receive_update (death dead_id killer_id)
unfolding send_death recv_death Fits recv_payload
death-Reads dead_id killer_id h = opcode-Reads _ (omega arith) refl (search elements_rules depth 40)

revive-Reads :
    (pid status : ℕ)
    → Fits (revive pid status)
    → Reads (send_revive status) receive_update (revive 0 status)
unfolding send_revive recv_revive Fits recv_payload
revive-Reads pid status h = opcode-Reads _ (omega arith) refl (search elements_rules depth 40)

meditate-Reads :
    (pid status : ℕ)
    → Fits (meditate pid status)
    → Reads (send_meditate status) receive_update (meditate 0 status)
unfolding send_meditate recv_meditate Fits recv_payload
meditate-Reads pid status h = opcode-Reads _ (omega arith) refl (search elements_rules depth 40)

match_list-Reads :
    (ms : List MatchInfo)
    → Fits (match_list ms)
    → Reads (send_match_list ms) receive_update (match_list ms)
unfolding send_match_list recv_match_list Fits recv_payload
match_list-Reads ms h =
    guard-Reads _ h.0 (opcode-Reads _ (omega arith) refl (search elements_rules depth 40))

inventory-Reads :
    (pid : ℕ) (items : List InventorySlotData) (gold : ℕ)
    → Fits (inventory pid items gold)
    → Reads (send_inventory pid items gold) receive_update (inventory pid items gold)
unfolding send_inventory recv_inventory Fits recv_payload
inventory-Reads pid items gold h =
    guard-Reads _ h.1 (opcode-Reads _ (omega arith) refl (search elements_rules depth 40))

catalog-Reads :
    (pid : ℕ) (names : List Bytes) (gold : ℕ) (vault : Bool)
    → Fits (catalog pid names gold vault)
    → Reads (send_catalog names gold vault) receive_update (catalog 0 names gold vault)
unfolding send_catalog recv_catalog Fits recv_payload
catalog-Reads pid names gold vault h =
    guard-Reads _ h.0 (opcode-Reads _ (omega arith) refl (search elements_rules depth 40))

moved-Reads :
    (pid : ℕ) (pos : Position)
    → Fits (moved pid pos)
    → Reads (send_moved pid pos) receive_update (moved pid pos)
unfolding send_moved recv_moved Fits recv_payload
moved-Reads pid pos h = opcode-Reads _ (omega arith) refl (search elements_rules depth 40)

chat_msg-Reads :
    (sender_id : ℕ) (nick text : Bytes) (recipient_id : ℕ) (is_private : Bool)
    → Fits (chat_msg sender_id nick text recipient_id is_private)
    → Reads
        (send_chat_msg sender_id nick text is_private)
        receive_update
        (chat_msg sender_id nick text 0 is_private)
unfolding send_chat_msg recv_chat_msg Fits recv_payload
chat_msg-Reads sender_id nick text recipient_id is_private h =
    opcode-Reads _ (omega arith) refl (search elements_rules depth 40)

system_msg-Reads :
    (pid : ℕ) (text : Bytes)
    → Fits (system_msg pid text)
    → Reads (send_system_msg pid text) receive_update (system_msg pid text)
unfolding send_system_msg recv_system_msg Fits recv_payload
system_msg-Reads pid text h = opcode-Reads _ (omega arith) refl (search elements_rules depth 40)

npc_interact-Reads :
    (pid type status : ℕ) (item_name : Bytes) (gold : ℕ) (names : List Bytes)
    → Fits (npc_interact pid type status item_name gold names)
    → Reads
        (send_npc_interact type status item_name gold)
        receive_update
        (npc_interact 0 type status item_name gold [])
unfolding send_npc_interact recv_npc_interact Fits recv_payload
npc_interact-Reads pid type status item_name gold names h =
    opcode-Reads _ (omega arith) refl (search elements_rules depth 40)

clan_result-Reads :
    (target action status : ℕ) (clan_name actor_nick : Bytes) (other_id : ℕ)
    (other_nick n o : Bytes)
    → Fits (clan_result target action status clan_name actor_nick other_id other_nick n o)
    → Reads
        (send_clan_result action status clan_name actor_nick other_id other_nick)
        receive_update
        (clan_result 0 action status clan_name actor_nick other_id other_nick [] [])
unfolding send_clan_result recv_clan_result Fits recv_payload
clan_result-Reads target action status clan_name actor_nick other_id other_nick n o h =
    opcode-Reads _ (omega arith) refl (search elements_rules depth 40)

clan_review-Reads :
    (target : ℕ) (clan_name : Bytes) (ms ps : List ClanMemberInfo)
    → Fits (clan_review target clan_name ms ps)
    → Reads
        (send_clan_review clan_name ms ps)
        receive_update
        (clan_review 0 clan_name ms (map as_pending ps))
unfolding send_clan_review recv_clan_review Fits recv_payload
clan_review-Reads target clan_name ms ps h =
    opcode-Reads _ (omega arith) refl (search elements_rules depth 40)

error-Reads :
    (pid code : ℕ) (detail : Bytes)
    → Fits (error pid code detail)
    → Reads (send_error code detail) receive_update (error 0 code detail)
unfolding send_error recv_error Fits recv_payload
error-Reads pid code detail h = opcode-Reads _ (omega arith) refl (search elements_rules depth 40)

snapshot-Reads :
    (tick : ℕ) (ps : List PlayerSnapshot) (ns : List NpcSnapshot) (gs : List GroundItemSnapshot)
    → Fits (snapshot tick ps ns gs)
    → Reads (send_snapshot tick ps ns gs) receive_update (snapshot tick ps ns gs)
unfolding send_snapshot recv_snapshot Fits recv_payload
snapshot-Reads tick ps ns gs h =
    guard-Reads _ h.1.0
      (opcode-Reads _ (omega arith) refl (search (elements_rules, guard-Reads) depth 40))

-- As many cells as the receiver counts.
counted_cells-Reads :
    (cs : List MapCellData) (n : ℕ)
    → n ≡ length cs
    → All IsCell cs
    → Reads (put_each put_cell cs) (recv_each n recv_cell) cs
counted_cells-Reads cs n e h =
    subst (λ m. Reads (put_each put_cell cs) (recv_each m recv_cell) cs) (sym e) (cells-Reads cs h)

world_map-Reads :
    (width height : ℕ) (cs : List MapCellData)
    → Fits (world_map width height cs)
    → Reads (send_world_map width height cs) receive_update (world_map width height cs)
unfolding send_world_map recv_world_map Fits recv_payload
world_map-Reads width height cs h =
    let e : not (width * height == length cs) ≡ false = ground (arith, h.2) in
    rw e (
      opcode-Reads _ (omega arith) refl (
        Reads-then _ (u16-Reads width h.0) (
          Reads-then _ (u16-Reads height h.1)
            (Reads-last _ (counted_cells-Reads cs (width * height) h.2 h.3) (Reads-give _)))))

pub receive_update-send_update :
    (u : GameUpdate) → Fits u → Reads (send_update u) receive_update (received u)
unfolding send_update received
receive_update-send_update (login_ok pid) h = login_ok-Reads pid h
receive_update-send_update (match_list ms) h = match_list-Reads ms h
receive_update-send_update (match_created match_id) h = match_created-Reads match_id h
receive_update-send_update (match_joined match_id pid restored race klass) h =
    match_joined-Reads match_id pid restored race klass h
receive_update-send_update (player_joined pid nick race klass pos) h =
    player_joined-Reads pid nick race klass pos h
receive_update-send_update (player_left pid nick clan_id) h = player_left-Reads pid nick clan_id h
receive_update-send_update (player_spawned pid nick race klass pos) h =
    player_spawned-Reads pid nick race klass pos h
receive_update-send_update (world_map width height cs) h = world_map-Reads width height cs h
receive_update-send_update (error pid code detail) h = error-Reads pid code detail h
receive_update-send_update (snapshot tick ps ns gs) h = snapshot-Reads tick ps ns gs h
receive_update-send_update (moved pid pos) h = moved-Reads pid pos h
receive_update-send_update (death dead_id killer_id) h = death-Reads dead_id killer_id h
receive_update-send_update (attacked r target) h = attacked-Reads r target h
receive_update-send_update (revive pid status) h = revive-Reads pid status h
receive_update-send_update (meditate pid status) h = meditate-Reads pid status h
receive_update-send_update (inventory pid items gold) h = inventory-Reads pid items gold h
receive_update-send_update (clan_result target a s cn an oid on n o) h =
    clan_result-Reads target a s cn an oid on n o h
receive_update-send_update (clan_review target n ms ps) h = clan_review-Reads target n ms ps h
receive_update-send_update (catalog pid names gold vault) h = catalog-Reads pid names gold vault h
receive_update-send_update (npc_interact pid type status i gold names) h =
    npc_interact-Reads pid type status i gold names h
receive_update-send_update (chat_msg sid nick text rid private) h =
    chat_msg-Reads sid nick text rid private h
receive_update-send_update (system_msg pid text) h = system_msg-Reads pid text h
