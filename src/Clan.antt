-- ===== src/Clan.antt =====
-- server/game/clan.cpp: who is in a clan, who asks to be and who may not be.
pub mod Standing
pub mod Valid
use argentum_online_taller_g.Prelude.{
  ℕ, Bool, true, false, not, ◌||◌, List, [], ◌∷◌, Bytes, length, ◌==◌, if◌then◌else◌, member,
  add_member, remove_member,
}
use argentum_online_taller_g.Prelude.Int.{ℤ, pos, leb_ℤ}

pub record Clan : Type 0 where
  pub clan_id : ℕ
  pub name : Bytes
  pub founder_id : ℕ
  pub members : List ℕ
  pub pending : List ℕ
  pub banned : List ℕ

unfoldable pub new_clan : ℕ → Bytes → ℕ → Clan
new_clan clan_id name founder_id = record {
  clan_id = clan_id;
  name = name;
  founder_id = founder_id;
  members = add_member founder_id [];
  pending = [];
  banned = [];
}

abbrev pub is_founder : Clan → ℕ → Bool
is_founder c caller_id = caller_id == c.founder_id

abbrev pub is_member : Clan → ℕ → Bool
is_member c player_id = member player_id c.members

abbrev pub is_pending : Clan → ℕ → Bool
is_pending c player_id = member player_id c.pending

abbrev pub is_banned : Clan → ℕ → Bool
is_banned c player_id = member player_id c.banned

-- `max` is `GameConfig::get_clan_max_members`.
unfoldable pub is_full : ℤ → Clan → Bool
is_full max c = leb_ℤ max (pos (length c.members))

unfoldable pub request_join : ℤ → ℕ → Clan → Bool × Clan
request_join max player_id c =
    if is_member c player_id || (is_pending c player_id || (is_banned c player_id || is_full max c))
    then (false, c)
    else (true, record c { pending = add_member player_id c.pending })

unfoldable pub accept : ℤ → ℕ → ℕ → Clan → Bool × Clan
accept max caller_id target_id c =
    if not (is_founder c caller_id)
    then (false, c)
    else if not (is_pending c target_id)
    then (false, c)
    else if is_full max c
    then (false, c)
    else (
      true,
      record c {
        pending = remove_member target_id c.pending;
        members = add_member target_id c.members;
      },
    )

unfoldable pub reject : ℕ → ℕ → Clan → Bool × Clan
reject caller_id target_id c =
    if not (is_founder c caller_id)
    then (false, c)
    else if not (is_pending c target_id)
    then (false, c)
    else (true, record c { pending = remove_member target_id c.pending })

unfoldable pub ban : ℕ → ℕ → Clan → Bool × Clan
ban caller_id target_id c =
    if not (is_founder c caller_id)
    then (false, c)
    else if target_id == c.founder_id
    then (false, c)
    else (
      true,
      record c {
        pending = remove_member target_id c.pending;
        members = remove_member target_id c.members;
        banned = add_member target_id c.banned;
      },
    )

unfoldable pub kick : ℕ → ℕ → Clan → Bool × Clan
kick caller_id target_id c =
    if not (is_founder c caller_id)
    then (false, c)
    else if target_id == c.founder_id
    then (false, c)
    else if not (is_member c target_id)
    then (false, c)
    else (true, record c { members = remove_member target_id c.members })

unfoldable pub leave : ℕ → Clan → Bool × Clan
leave player_id c =
    if player_id == c.founder_id
    then (false, c)
    else if not (is_member c player_id)
    then (false, c)
    else (true, record c { members = remove_member player_id c.members })

-- The operations that change a clan.
pub data ClanStep : Type 0 where
  request_join_step leave_step : ℕ → ClanStep
  accept_step reject_step ban_step kick_step : ℕ → ℕ → ClanStep

unfoldable pub apply : ℤ → ClanStep → Clan → Bool × Clan
apply max (request_join_step player_id) c = request_join max player_id c
apply max (leave_step player_id) c = leave player_id c
apply max (accept_step caller_id target_id) c = accept max caller_id target_id c
apply max (reject_step caller_id target_id) c = reject caller_id target_id c
apply max (ban_step caller_id target_id) c = ban caller_id target_id c
apply max (kick_step caller_id target_id) c = kick caller_id target_id c

unfoldable pub apply_all : ℤ → List ClanStep → Clan → Clan
apply_all max [] c = c
apply_all max (s ∷ steps) c = apply_all max steps (apply max s c).1
