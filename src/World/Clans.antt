-- ===== src/World/Clans.antt =====
-- server/world/world.cpp: the handlers of the clan commands, on the players that are online and
-- the clans. A handler takes the world and returns its answer and the new world.
use argentum_online_taller_g.Prelude.{
  ℕ, ◌+◌, ◌%◌, ◌^◌, Bool, true, false, not, Option, none, some, List, [], ◌∷◌, Bytes, bytes_eq,
  ◌==◌, if◌then◌else◌, Dict, lookup, insert,
}
use argentum_online_taller_g.Prelude.Int.{ltb_ℤ}
use argentum_online_taller_g.Config.{Env}
use argentum_online_taller_g.Player.Character.{Player}
use argentum_online_taller_g.Clan.{Clan, new_clan, is_banned, is_member, is_full}
use argentum_online_taller_g.Clan

-- common/clan/clan_action_status.h.
pub data ClanActionStatus : Type 0 where
  success level_too_low already_in_clan name_taken name_empty clan_not_found not_founder not_in_clan
        not_pending clan_full target_offline target_is_self founder_cannot_leave player_banned
        internal_error :
      ClanActionStatus

-- common/clan/clan_result.h.
pub record ClanResult : Type 0 where
  pub status : ClanActionStatus
  pub clan_name : Bytes
  pub actor_nick : Bytes
  pub other_player_id : ℕ
  pub other_nick : Bytes

-- common/clan/clan_review_result.h.
pub record ClanMemberInfo : Type 0 where
  pub player_id : ℕ
  pub nick : Bytes
  pub is_founder : Bool
  pub is_online : Bool

pub record ClanReviewResult : Type 0 where
  pub status : ClanActionStatus
  pub clan_name : Bytes
  pub members : List ClanMemberInfo
  pub pending : List ClanMemberInfo

-- The fields of the world that the clan commands use.
pub record ClanWorld : Type 0 where
  pub players : Dict Player
  pub clans_by_id : Dict Clan
  pub next_clan_id : ℕ

abbrev pub answer : ClanActionStatus → Bytes → Bytes → ClanResult
answer s clan_name actor = record {
  status = s;
  clan_name = clan_name;
  actor_nick = actor;
  other_player_id = 0;
  other_nick = [];
}

abbrev answer_with : ClanActionStatus → Bytes → Bytes → ℕ → Bytes → ClanResult
answer_with s clan_name actor other nick = record {
  status = s;
  clan_name = clan_name;
  actor_nick = actor;
  other_player_id = other;
  other_nick = nick;
}

-- The first player of that name in the order of the ids, with the id that it stands under.
unfoldable pub get_player_by_name : Bytes → Dict Player → Option (ℕ × Player)
get_player_by_name name [] = none
get_player_by_name name ((id, p) ∷ players) =
    if bytes_eq p.name name then some (id, p) else get_player_by_name name players

unfoldable pub get_clan_by_name : Bytes → Dict Clan → Option (ℕ × Clan)
get_clan_by_name name [] = none
get_clan_by_name name ((id, c) ∷ clans) =
    if bytes_eq c.name name then some (id, c) else get_clan_by_name name clans

-- `get_clan(player->get_clan_id())` of a player that is online.
unfoldable pub clan_of : ℕ → ClanWorld → Option (Player × Clan)
clan_of player_id w = elim (lookup player_id w.players) [
  | none ↦ none
  | some p ↦ elim (lookup p.clan_id w.clans_by_id) [ none ↦ none | some c ↦ some (p, c) ]
]

-- `player->set_clan_id` and what an operation leaves of a clan.
abbrev pub set_clan_id : ℕ → Player → ℕ → ClanWorld → ClanWorld
set_clan_id player_id p clan_id w = record w {
  players = insert player_id (record p { clan_id = clan_id }) w.players;
}

abbrev pub set_clan : ℕ → Clan → ClanWorld → ClanWorld
set_clan clan_id c w = record w { clans_by_id = insert clan_id c w.clans_by_id }

-- `none` where the name is taken; otherwise the id of the new clan.
unfoldable pub create_clan : Bytes → ℕ → ClanWorld → Option (ℕ × ClanWorld)
create_clan name founder_id w = elim (get_clan_by_name name w.clans_by_id) [
  | some _ ↦ none
  | none ↦
      let new_id = w.next_clan_id in
      some (
        new_id,
        record w {
          clans_by_id = insert new_id (new_clan new_id name founder_id) w.clans_by_id;
          next_clan_id = (new_id + 1) % 2 ^ 32;
        },
      )
]

unfoldable pub is_empty : Bytes → Bool
is_empty [] = true
is_empty (b ∷ bs) = false

unfoldable pub found_clan : Env → ℕ → Bytes → ClanWorld → ClanResult × ClanWorld
found_clan env founder_id clan_name w = elim (lookup founder_id w.players) [
  | none ↦ (answer internal_error clan_name [], w)
  | some founder ↦
      if is_empty clan_name
      then (answer name_empty clan_name [], w)
      else if ltb_ℤ founder.level env.clan_min_level_to_found
      then (answer level_too_low clan_name [], w)
      else if not (founder.clan_id == 0)
      then (answer already_in_clan clan_name [], w)
      else elim (create_clan clan_name founder_id w) [
        | none ↦ (answer name_taken clan_name [], w)
        | some (new_id, w') ↦
            (answer success clan_name founder.name, set_clan_id founder_id founder new_id w')
      ]
]

-- The answer to a request that was accepted names the founder, if it is online.
unfoldable pub requested : Clan → Player → Dict Player → ClanResult
requested c p players = elim (lookup c.founder_id players) [
  | none ↦ answer success c.name p.name
  | some founder ↦ answer_with success c.name p.name founder.id founder.name
]

unfoldable pub request_join_clan : Env → ℕ → Bytes → ClanWorld → ClanResult × ClanWorld
unfolding requested
request_join_clan env player_id clan_name w = elim (lookup player_id w.players) [
  | none ↦ (answer internal_error clan_name [], w)
  | some p ↦
      if not (p.clan_id == 0)
      then (answer already_in_clan clan_name [], w)
      else elim (get_clan_by_name clan_name w.clans_by_id) [
        | none ↦ (answer clan_not_found clan_name [], w)
        | some (k, c) ↦
            if is_banned c player_id
            then (answer player_banned c.name p.name, w)
            else let (asked, c') = Clan.request_join env.clan_max_members player_id c in
              if asked then (requested c p w.players, set_clan k c' w) else (
                answer (if is_full env.clan_max_members c then clan_full else internal_error) c.name
                    p.name,
                w,
              )
      ]
]

-- `resolve_founder_and_target`: who calls, its clan and the target with its id.
pub data Resolved : Type 0 where
  failed : ClanActionStatus → Resolved
  resolved : (founder : Player) (clan : Clan) (target_id : ℕ) (target : Player) → Resolved

unfoldable pub resolve_founder_and_target : ℕ → Bytes → ClanWorld → Resolved
unfolding clan_of
resolve_founder_and_target founder_id target_nick w = elim (clan_of founder_id w) [
  | none ↦ failed not_in_clan
  | some (founder, c) ↦ elim (get_player_by_name target_nick w.players) [
    | none ↦ failed target_offline
    | some (target_id, target) ↦ resolved founder c target_id target
  ]
]

-- The status of a refusal: `otherwise` is for a founder.
unfoldable pub refusal : ℕ → Clan → ClanActionStatus → ClanActionStatus
refusal founder_id c otherwise = if c.founder_id == founder_id then otherwise else not_founder

unfoldable pub accept_clan_member : Env → ℕ → Bytes → ClanWorld → ClanResult × ClanWorld
accept_clan_member env founder_id target_nick w =
    elim (resolve_founder_and_target founder_id target_nick w) [
      | failed s ↦ (answer_with s [] [] 0 target_nick, w)
      | resolved founder c t target ↦
          let (done, c') = Clan.accept env.clan_max_members founder_id target.id c in
          if done
          then (
            answer_with success c.name founder.name target.id target_nick,
            set_clan_id t target c.clan_id (set_clan founder.clan_id c' w),
          )
          else (answer_with (refusal founder_id c not_pending) c.name founder.name 0 target_nick, w)
    ]

unfoldable pub reject_clan_member : ℕ → Bytes → ClanWorld → ClanResult × ClanWorld
reject_clan_member founder_id target_nick w =
    elim (resolve_founder_and_target founder_id target_nick w) [
      | failed s ↦ (answer_with s [] [] 0 target_nick, w)
      | resolved founder c t target ↦
          let (done, c') = Clan.reject founder_id target.id c in
          if done
          then (
            answer_with success c.name founder.name target.id target_nick,
            set_clan founder.clan_id c' w,
          )
          else (answer_with (refusal founder_id c not_pending) c.name founder.name 0 target_nick, w)
    ]

unfoldable pub ban_clan_member : ℕ → Bytes → ClanWorld → ClanResult × ClanWorld
ban_clan_member founder_id target_nick w =
    elim (resolve_founder_and_target founder_id target_nick w) [
      | failed s ↦ (answer_with s [] [] 0 target_nick, w)
      | resolved founder c t target ↦
          let was_member = is_member c target.id in
          let (done, c') = Clan.ban founder_id target.id c in
          let after = set_clan founder.clan_id c' w in
          if done
          then (
            answer_with success c.name founder.name target.id target_nick,
            if was_member then set_clan_id t target 0 after else after,
          )
          else (
            answer_with (refusal founder_id c target_is_self) c.name founder.name 0 target_nick,
            w,
          )
    ]

unfoldable pub kick_clan_member : ℕ → Bytes → ClanWorld → ClanResult × ClanWorld
kick_clan_member founder_id target_nick w =
    elim (resolve_founder_and_target founder_id target_nick w) [
      | failed s ↦ (answer_with s [] [] 0 target_nick, w)
      | resolved founder c t target ↦
          let (done, c') = Clan.kick founder_id target.id c in
          if done
          then (
            answer_with success c.name founder.name target.id target_nick,
            set_clan_id t target 0 (set_clan founder.clan_id c' w),
          )
          else (answer_with (refusal founder_id c not_pending) c.name founder.name 0 target_nick, w)
    ]

unfoldable pub leave_clan : ℕ → ClanWorld → ClanResult × ClanWorld
leave_clan player_id w = elim (clan_of player_id w) [
  | none ↦ (answer not_in_clan [] [], w)
  | some (p, c) ↦
      let (done, c') = Clan.leave player_id c in
      if done
      then (answer success c.name p.name, set_clan_id player_id p 0 (set_clan p.clan_id c' w))
      else (answer founder_cannot_leave c.name p.name, w)
]
