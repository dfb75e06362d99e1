-- ===== src/Examples/Worlds.antt =====
-- Two clans: player 1 leads the one with id 5, players 2 and 3 are in the one with id 6, and 3 has
-- asked to join the first as well. Two cities, of which the second is closer to the origin.
use argentum_online_taller_g.Prelude.{
  List, ℕ, ◌≡◌, refl, true, false, some, [], ◌∷◌, Bytes, arith, member, lookup, Each, Each-lookup,
  bytes_eq, ◌≢◌,
}
use argentum_online_taller_g.Prelude.Int.{pos}
use argentum_online_taller_g.Player.Character.{Player}
use argentum_online_taller_g.Clan.{Clan, is_full}
use argentum_online_taller_g.Clan.Valid
use argentum_online_taller_g.World.Clans.{
  ClanWorld, accept_clan_member, resolved, resolve_founder_and_target, clan_of, get_player_by_name,
}
use argentum_online_taller_g.World.Execute.{accept, execute}
use argentum_online_taller_g.World.Membership.{IsConsistent, IsSettled, belongs}
use argentum_online_taller_g.World.Commands.{execute-IsConsistent}
use argentum_online_taller_g.World.Overlap.{accept_clan_member-overlap}
use argentum_online_taller_g.World.Cities.{
  City, get_closest_city, IsListed, IsClosest, get_closest_city-IsClosest,
}
use argentum_online_taller_g.Examples.{origin, ana, small_env}

abbrev someone : ℕ → Bytes → ℕ → Player
someone id name clan_id = record ana {
  character = record (ana.character) { id = id };
  name = name;
  clan_id = clan_id;
}

abbrev lead : Player
lead = someone 1 (b'l' ∷ []) 5

abbrev rival : Player
rival = someone 2 (b'r' ∷ []) 6

abbrev eva : Player
eva = someone 3 (b'e' ∷ []) 6

abbrev first : Clan
first = record {
  clan_id = 5;
  name = b'f' ∷ [];
  founder_id = 1;
  members = 1 ∷ [];
  pending = 3 ∷ [];
  banned = [];
}

abbrev second : Clan
second = record {
  clan_id = 6;
  name = b's' ∷ [];
  founder_id = 2;
  members = 2 ∷ 3 ∷ [];
  pending = [];
  banned = [];
}

abbrev town : ClanWorld
town = record {
  players = (1, lead) ∷ (2, rival) ∷ (3, eva) ∷ [];
  clans_by_id = (5, first) ∷ (6, second) ∷ [];
  next_clan_id = 7;
}

first-IsValid : Valid.IsValid (pos 3) first
unfolding member
first-IsValid = (refl, λ id h. ground (arith, h), λ id h. refl, λ id h. refl, ground arith)

second-IsValid : Valid.IsValid (pos 3) second
unfolding member
second-IsValid = (refl, λ id h. refl, λ id h. refl, λ id h. refl, ground arith)

abbrev IsMember : ℕ → Player → Type 0
IsMember id p = (p.id ≡ id) × (belongs id p.clan_id town.clans_by_id ≡ true)

town-members : Each IsMember town.players
unfolding belongs lookup member
town-members = ((refl, refl), ((refl, refl), ((refl, refl), tt)))

town-IsConsistent : IsConsistent (pos 3) town
town-IsConsistent = record {
  players_ordered = ((ground arith, (ground arith, tt)), ((ground arith, tt), (tt, tt)));
  clans_ordered = ((ground arith, tt), (tt, tt));
  named = λ id p h. (Each-lookup IsMember town.players id p town-members h).0;
  settled = λ k c h.
      Each-lookup (IsSettled (pos 3) town) town.clans_by_id k c
        ((refl, ground arith, first-IsValid), ((refl, ground arith, second-IsValid), tt)) h;
  joined = λ id p h n. (Each-lookup IsMember town.players id p town-members h).1;
}

execute-IsConsistent_example : IsConsistent (pos 3) (execute small_env 1 accept (b'e' ∷ []) town).1
execute-IsConsistent_example =
    execute-IsConsistent small_env 1 accept (b'e' ∷ []) town (ground arith) (ground arith)
      town-IsConsistent

eva_found : resolve_founder_and_target 1 (b'e' ∷ []) town ≡ resolved lead first 3 eva
unfolding resolve_founder_and_target clan_of lookup get_player_by_name bytes_eq
eva_found = refl

eva_asks : member 3 first.pending ≡ true
unfolding member
eva_asks = refl

first_has_room : is_full (pos 3) first ≡ false
unfolding is_full
first_has_room = refl

eva_in_second : belongs 3 6 town.clans_by_id ≡ true
unfolding belongs lookup member
eva_in_second = refl

accept_clan_member-overlap_example :
    let after = (accept_clan_member small_env 1 (b'e' ∷ []) town).1 in
    (belongs 3 6 after.clans_by_id ≡ true)
    × (belongs 3 5 after.clans_by_id ≡ true)
    × (lookup 3 after.players ≡ some (record eva { clan_id = 5 }))
accept_clan_member-overlap_example =
    accept_clan_member-overlap small_env 1 3 6 (b'e' ∷ []) town lead eva first eva_found refl refl
      eva_asks first_has_room (ground arith) eva_in_second

abbrev near_city : City
near_city = record {
  name = b'n' ∷ [];
  priest_position = record { x = pos 1; y = pos 0 };
  merchant_position = origin;
  banker_position = origin;
}

abbrev far_city : City
far_city = record near_city { priest_position = record { x = pos 5; y = pos 5 } }

abbrev two_cities : List City
two_cities = far_city ∷ near_city ∷ []

two_cities-not_empty : two_cities ≢ []
two_cities-not_empty = ground arith

get_closest_city-IsClosest_example :
    (c : City) × (get_closest_city two_cities origin ≡ some c)
    × IsListed c two_cities
    × IsClosest origin c two_cities
get_closest_city-IsClosest_example =
    get_closest_city-IsClosest two_cities origin two_cities-not_empty
