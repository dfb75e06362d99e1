-- ===== src/World/Execute.antt =====
-- server/commands/clan_command.cpp: the execution of a clan command, with the updates that it
-- sends, and World::review_clan.
use argentum_online_taller_g.Prelude.{
  ℕ, Bool, true, false, not, ◌&&◌, none, some, List, [], ◌∷◌, Bytes, ◌==◌, if◌then◌else◌, Dict,
  lookup, map,
}
use argentum_online_taller_g.Config.{Env}
use argentum_online_taller_g.Player.Character.{Player}
use argentum_online_taller_g.World.Clans.{
  ClanActionStatus, success, not_in_clan, not_founder, ClanMemberInfo, ClanResult, ClanReviewResult,
  ClanWorld, clan_of, answer, found_clan, request_join_clan, accept_clan_member, reject_clan_member,
  ban_clan_member, kick_clan_member, leave_clan,
}

-- A member or an applicant; one that is offline has no name.
unfoldable pub member_info : Dict Player → (ℕ → Bool) → ℕ → ClanMemberInfo
member_info players leads id = elim (lookup id players) [
  | none ↦ record { player_id = id; nick = []; is_founder = leads id; is_online = false }
  | some p ↦ record { player_id = id; nick = p.name; is_founder = leads id; is_online = true }
]

unfoldable pub review_clan : ℕ → ClanWorld → ClanReviewResult
unfolding member_info
review_clan founder_id w = elim (clan_of founder_id w) [
  | none ↦ record { status = not_in_clan; clan_name = []; members = []; pending = [] }
  | some (founder, c) ↦
      if not (c.founder_id == founder_id)
      then record { status = not_founder; clan_name = c.name; members = []; pending = [] }
      else record {
        status = success;
        clan_name = c.name;
        members = map (member_info w.players (λ id. id == c.founder_id)) c.members;
        pending = map (member_info w.players (λ id. false)) c.pending;
      }
]

-- common/clan/clan_action.h.
pub data ClanAction : Type 0 where
  found join_request review accept reject ban kick leave : ClanAction

-- `ClanResultUpdate` and `ClanReviewUpdate`, with the player that they go to.
pub data ClanUpdate : Type 0 where
  result_update : ℕ → ClanAction → ClanResult → ClanUpdate
  review_update :
      ℕ
      → (clan_name : Bytes) (members : List ClanMemberInfo) (pending : List ClanMemberInfo)
      → ClanUpdate

unfoldable pub is_success : ClanActionStatus → Bool
is_success success = true
is_success _ = false

-- The caller hears the result, and so does the other player of a success, if there is one.
unfoldable pub notify : ℕ → ClanAction → ClanResult → List ClanUpdate
unfolding is_success
notify player_id action r =
    result_update player_id action r
    ∷ (if is_success r.status && not (r.other_player_id == 0)
        then result_update r.other_player_id action r ∷ []
        else [])

unfoldable pub review_updates : ℕ → ClanReviewResult → List ClanUpdate
unfolding is_success
review_updates player_id rr =
    if is_success rr.status
    then review_update player_id rr.clan_name rr.members rr.pending ∷ []
    else result_update player_id review (answer rr.status [] []) ∷ []

abbrev with_notice : ℕ → ClanAction → (ClanResult × ClanWorld) → List ClanUpdate × ClanWorld
with_notice player_id action out = (notify player_id action out.0, out.1)

-- Only the caller hears of these.
abbrev with_result : ℕ → ClanAction → (ClanResult × ClanWorld) → List ClanUpdate × ClanWorld
with_result player_id action out = (result_update player_id action out.0 ∷ [], out.1)

-- `ClanCommand::execute`.
unfoldable pub execute : Env → ℕ → ClanAction → Bytes → ClanWorld → List ClanUpdate × ClanWorld
unfolding notify review_updates
execute env player_id found arg w = with_result player_id found (found_clan env player_id arg w)
execute env player_id join_request arg w =
    with_notice player_id join_request (request_join_clan env player_id arg w)
execute env player_id review arg w = (review_updates player_id (review_clan player_id w), w)
execute env player_id accept arg w =
    with_notice player_id accept (accept_clan_member env player_id arg w)
execute env player_id reject arg w =
    with_notice player_id reject (reject_clan_member player_id arg w)
execute env player_id ban arg w = with_notice player_id ban (ban_clan_member player_id arg w)
execute env player_id kick arg w = with_notice player_id kick (kick_clan_member player_id arg w)
execute env player_id leave arg w = with_result player_id leave (leave_clan player_id w)
