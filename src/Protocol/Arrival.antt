-- ===== src/Protocol/Arrival.antt =====
-- server/server_protocol.cpp and client/client_protocol.cpp: an update from the one end to the other.
use argentum_online_taller_g.Prelude.{ℕ, Bool, false, List, [], ◌∷◌, ◌++◌, map, Bytes, ◌≡◌, refl}
use argentum_online_taller_g.World.Clans.{ClanMemberInfo}
use argentum_online_taller_g.Protocol.Updates.{
  GameUpdate, player_joined, player_spawned, error, attacked, revive, meditate, clan_result,
  clan_review, catalog, npc_interact, chat_msg,
}
mod Elements
mod Messages
pub mod Streams

unfoldable pub as_pending : ClanMemberInfo → ClanMemberInfo
as_pending m = record m { is_founder = false }

-- The update that the client sees: the fields that no message carries are the defaults, and a
-- player that has spawned is one that has joined.
unfoldable pub received : GameUpdate → GameUpdate
received (player_spawned pid nick race klass pos) = player_joined pid nick race klass pos
received (error pid code detail) = error 0 code detail
received (attacked r target) = attacked r 0
received (revive pid status) = revive 0 status
received (meditate pid status) = meditate 0 status
received (clan_result target action status clan_name actor_nick other_id other_nick n o) =
    clan_result 0 action status clan_name actor_nick other_id other_nick [] []
received (clan_review target clan_name members pending) =
    clan_review 0 clan_name members (map as_pending pending)
received (catalog pid names gold vault) = catalog 0 names gold vault
received (npc_interact pid type status item_name gold_amount names) =
    npc_interact 0 type status item_name gold_amount []
received (chat_msg sender_id sender_nick text recipient_id is_private) =
    chat_msg sender_id sender_nick text 0 is_private
received u = u
