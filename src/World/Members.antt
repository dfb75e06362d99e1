-- ===== src/World/Members.antt =====
-- server/game/clan.cpp: the members of a clan after each operation.
use argentum_online_taller_g.Prelude.{
  ℕ, ◌≡◌, ◌≢◌, true, arith, member, member-add_member, member-remove_member,
}
use argentum_online_taller_g.Prelude.Int.{ℤ}
use argentum_online_taller_g.Clan.{Clan, new_clan, is_member, is_banned}
use argentum_online_taller_g.Clan

-- What each operation leaves of the members.
pub accept_members :
    (max : ℤ) (j k : ℕ) (c : Clan)
    → (Clan.accept max j k c).0 ≡ true
    → ((Clan.accept max j k c).1.clan_id ≡ c.clan_id)
      × (member k (Clan.accept max j k c).1.members ≡ true)
      × ((id : ℕ) → member id c.members ≡ true → member id (Clan.accept max j k c).1.members ≡ true)
unfolding Clan.accept
accept_members max j k c h = (
  ground (arith, h),
  ground (arith, h, member-add_member k k c.members),
  λ id m. ground (arith, h, m, member-add_member id k c.members),
)

pub ban_members :
    (j k : ℕ) (c : Clan)
    → ((Clan.ban j k c).1.clan_id ≡ c.clan_id)
      × ((id : ℕ)
          → id ≢ k
          → member id c.members ≡ true
          → member id (Clan.ban j k c).1.members ≡ true)
unfolding Clan.ban
ban_members j k c =
    (ground arith, λ id n m. ground (arith, n, m, member-remove_member id k c.members))

pub kick_members :
    (j k : ℕ) (c : Clan)
    → ((Clan.kick j k c).1.clan_id ≡ c.clan_id)
      × ((id : ℕ)
          → id ≢ k
          → member id c.members ≡ true
          → member id (Clan.kick j k c).1.members ≡ true)
unfolding Clan.kick
kick_members j k c =
    (ground arith, λ id n m. ground (arith, n, m, member-remove_member id k c.members))

pub leave_members :
    (k : ℕ) (c : Clan)
    → ((Clan.leave k c).1.clan_id ≡ c.clan_id)
      × ((id : ℕ)
          → id ≢ k
          → member id c.members ≡ true
          → member id (Clan.leave k c).1.members ≡ true)
unfolding Clan.leave
leave_members k c =
    (ground arith, λ id n m. ground (arith, n, m, member-remove_member id k c.members))

pub reject_members :
    (j k : ℕ) (c : Clan)
    → ((Clan.reject j k c).1.clan_id ≡ c.clan_id) × ((Clan.reject j k c).1.members ≡ c.members)
unfolding Clan.reject
reject_members j k c = ground arith

pub request_join_members :
    (max : ℤ) (k : ℕ) (c : Clan)
    → ((Clan.request_join max k c).1.clan_id ≡ c.clan_id)
      × ((Clan.request_join max k c).1.members ≡ c.members)
unfolding Clan.request_join
request_join_members max k c = ground arith
