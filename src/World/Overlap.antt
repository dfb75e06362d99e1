-- ===== src/World/Overlap.antt =====
-- server/world/world.cpp: `accept_clan_member` on a target that is in another clan.
use argentum_online_taller_g.Prelude.{
  ℕ, ◌≡◌, ◌≢◌, refl, ◌∙◌, true, false, some, Bytes, ◌==◌, arith, lookup, lookup-insert,
}
use argentum_online_taller_g.Config.{Env}
use argentum_online_taller_g.Player.Character.{Player}
use argentum_online_taller_g.Clan.{Clan, is_pending, is_full}
use argentum_online_taller_g.Clan
use argentum_online_taller_g.World.Clans.{
  ClanWorld, resolved, resolve_founder_and_target, accept_clan_member,
}
use argentum_online_taller_g.World.Membership.{belongs, belongs-insert}
use argentum_online_taller_g.World.Members.{accept_members}

accept-pending :
    (env : Env) (j k : ℕ) (c : Clan)
    → c.founder_id ≡ j
    → is_pending c k ≡ true
    → is_full env.clan_max_members c ≡ false
    → (Clan.accept env.clan_max_members j k c).0 ≡ true
unfolding Clan.accept
accept-pending env j k c lead asks room = ground (arith, lead, asks, room)

differ : (k d : ℕ) → k ≢ d → (k == d) ≡ false
differ k d n = ground (arith, n)

eq_self : (k : ℕ) → (k == k) ≡ true
eq_self k = ground arith

-- A founder accepts a player that asked to join, into a clan with room. Whatever other clan the
-- player has become a member of since it asked, it stays a member there, becomes one here, and
-- names this clan as its own.
pub accept_clan_member-overlap :
    (env : Env) (j t d : ℕ) (nick : Bytes) (w : ClanWorld) (founder target : Player) (c : Clan)
    → resolve_founder_and_target j nick w ≡ resolved founder c t target
    → target.id ≡ t
    → c.founder_id ≡ j
    → is_pending c target.id ≡ true
    → is_full env.clan_max_members c ≡ false
    → founder.clan_id ≢ d
    → belongs t d w.clans_by_id ≡ true
    → let after = (accept_clan_member env j nick w).1 in
      (belongs t d after.clans_by_id ≡ true)
      × (belongs t founder.clan_id after.clans_by_id ≡ true)
      × (lookup t after.players ≡ some (record target { clan_id = c.clan_id }))
unfolding accept_clan_member
accept_clan_member-overlap env j t d nick w founder target c found own lead asks room other
      member_there =
    let done = accept-pending env j target.id c lead asks room in
    let (same, joined, keeps) = accept_members env.clan_max_members j target.id c done in
    let k = founder.clan_id in
    let c' = (Clan.accept env.clan_max_members j target.id c).1 in
    rw (found, done, accept_clan_member)
      (
        belongs-insert t k d c' w.clans_by_id ∙ rw (differ k d other) member_there,
        belongs-insert t k k c' w.clans_by_id ∙ rw (eq_self k, ← own) joined,
        lookup-insert t t (record target { clan_id = c.clan_id }) w.players ∙ rw (eq_self t) refl,
      )
