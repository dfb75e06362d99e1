-- ===== src/World/Handlers.antt =====
-- server/world/world.cpp: the handlers of the clan commands on consistent worlds.
use mathlib.Core.Option.{some-injective}
use argentum_online_taller_g.Prelude.{
  ℕ, ◌≡◌, ◌≢◌, refl, ◌∙◌, ap, subst, inl, inr, Option, none, some, Bytes, ◌⊎◌, ◌==◌, lookup, member,
  IsOrdered, Bool-cases, Option-cases,
}
use argentum_online_taller_g.Prelude.Int.{ℤ}
use argentum_online_taller_g.Config.{Env}
use argentum_online_taller_g.Player.Character.{Player}
use argentum_online_taller_g.Clan.{Clan, new_clan, is_member, is_banned}
use argentum_online_taller_g.Clan
use argentum_online_taller_g.Clan.Valid
use argentum_online_taller_g.World.Clans.{
  ClanWorld, ClanActionStatus, not_in_clan, target_offline, get_player_by_name, get_clan_by_name,
  clan_of, failed, resolved, resolve_founder_and_target, request_join_clan, accept_clan_member,
  reject_clan_member, ban_clan_member, kick_clan_member, leave_clan,
}
use argentum_online_taller_g.World.Members.{
  accept_members, ban_members, kick_members, leave_members, reject_members, request_join_members,
}
use argentum_online_taller_g.World.Membership.{
  IsConsistent, find_player, find_clan, set_clan-IsConsistent, set_clan_id-IsConsistent,
}

-- A player that is online, the clan that it names.
clan_of_lem :
    (id : ℕ) (w : ClanWorld) (p : Player) (c : Clan)
    → clan_of id w ≡ some (p, c)
    → (lookup id w.players ≡ some p) × (lookup p.clan_id w.clans_by_id ≡ some c)
unfolding clan_of
clan_of_lem id w p c h = elim (Option-cases (lookup id w.players)) [
  | inl n ↦ absurd (
      let none_found : ◌≡◌ {A = Option (Player × Clan)} none (some (p, c)) = rw (n, clan_of) at h in
      cc)
  | inr (q, e) ↦ elim (Option-cases (lookup q.clan_id w.clans_by_id)) [
    | inl n ↦ absurd (
        let none_found : ◌≡◌ {A = Option (Player × Clan)} none (some (p, c)) =
          rw (e, n, clan_of) at h in
        cc)
    | inr (d, f) ↦
        let same : ◌≡◌ {A = Option (Player × Clan)} (some (q, d)) (some (p, c)) =
          rw (e, f, clan_of) at h in
        subst
          (λ (x : Player × Clan).
            (lookup id w.players ≡ some x.0) × (lookup x.0.clan_id w.clans_by_id ≡ some x.1))
          (some-injective _ _ same) (e, f)
  ]
]

-- What `resolve_founder_and_target` found, where it did not fail.
record Found (j : ℕ) (nick : Bytes) (w : ClanWorld) : Type 0 where
  founder : Player
  clan : Clan
  t : ℕ
  target : Player
  eq : resolve_founder_and_target j nick w ≡ resolved founder clan t target
  clan_at : lookup founder.clan_id w.clans_by_id ≡ some clan
  target_at : lookup t w.players ≡ some target

resolve-cases :
    (j : ℕ) (nick : Bytes) (w : ClanWorld)
    → IsOrdered w.players
    → ((s : ClanActionStatus) × (resolve_founder_and_target j nick w ≡ failed s)) ⊎ Found j nick w
unfolding resolve_founder_and_target
resolve-cases j nick w o = elim (Option-cases (clan_of j w)) [
  | inl n ↦ inl (not_in_clan, rw (n, resolve_founder_and_target) refl)
  | inr (fc, e) ↦ elim (Option-cases (get_player_by_name nick w.players)) [
    | inl n ↦ inl (target_offline, rw (e, n, resolve_founder_and_target) refl)
    | inr (tp, f) ↦ inr (record {
      founder = fc.0;
      clan = fc.1;
      t = tp.0;
      target = tp.1;
      eq = rw (e, f, resolve_founder_and_target) refl;
      clan_at = (clan_of_lem j w fc.0 fc.1 e).1;
      target_at = find_player nick w.players tp.0 tp.1 o f;
    })
  ]
]

module _ (env : Env) (w : ClanWorld) (ok : IsConsistent env.clan_max_members w) where
  abbrev max : ℤ
  max = env.clan_max_members

  pub accept_clan_member-IsConsistent :
      (j : ℕ) (nick : Bytes) → IsConsistent max (accept_clan_member env j nick w).1
  unfolding accept_clan_member
  accept_clan_member-IsConsistent j nick = elim (resolve-cases j nick w ok.players_ordered) [
    | inl (s, e) ↦ rw (e, accept_clan_member) ok
    | inr r ↦ elim (Bool-cases (Clan.accept max j r.target.id r.clan).0) [
      | inr refused ↦ rw (r.eq, refused, accept_clan_member) ok
      | inl done ↦
          let before = ok.settled r.founder.clan_id r.clan r.clan_at in
          let (same, joined, keeps) = accept_members max j r.target.id r.clan done in
          rw (r.eq, done, accept_clan_member)
            (set_clan_id-IsConsistent max w ok r.founder.clan_id r.clan _ r.clan_at same
              (Valid.accept-IsValid max j r.target.id r.clan before.2) r.t r.clan.clan_id r.target
              r.target_at (λ id n. keeps id)
              (λ n. (before.0, rw (← ok.named r.t r.target r.target_at) joined)))
    ]
  ]

  pub reject_clan_member-IsConsistent :
      (j : ℕ) (nick : Bytes) → IsConsistent max (reject_clan_member j nick w).1
  unfolding reject_clan_member
  reject_clan_member-IsConsistent j nick = elim (resolve-cases j nick w ok.players_ordered) [
    | inl (s, e) ↦ rw (e, reject_clan_member) ok
    | inr r ↦ elim (Bool-cases (Clan.reject j r.target.id r.clan).0) [
      | inr refused ↦ rw (r.eq, refused, reject_clan_member) ok
      | inl done ↦
          let before = ok.settled r.founder.clan_id r.clan r.clan_at in
          let (same, kept) = reject_members j r.target.id r.clan in
          rw (r.eq, done, reject_clan_member)
            (set_clan-IsConsistent max w ok r.founder.clan_id r.clan _ r.clan_at same
              (Valid.reject-IsValid max j r.target.id r.clan before.2)
              (λ id m. ap (member id) kept ∙ m))
    ]
  ]

  -- Who is not the target under its own id is not the target under the id that it stands under.
  apart : (t : ℕ) (p : Player) (id : ℕ) → lookup t w.players ≡ some p → id ≢ t → id ≢ p.id
  apart t p id here n e = n (e ∙ ok.named t p here)

  pub ban_clan_member-IsConsistent :
      (j : ℕ) (nick : Bytes) → IsConsistent max (ban_clan_member j nick w).1
  unfolding ban_clan_member
  ban_clan_member-IsConsistent j nick = elim (resolve-cases j nick w ok.players_ordered) [
    | inl (s, e) ↦ rw (e, ban_clan_member) ok
    | inr r ↦
        let before = ok.settled r.founder.clan_id r.clan r.clan_at in
        let (same, keeps) = ban_members j r.target.id r.clan in
        let valid = Valid.ban-IsValid max j r.target.id r.clan before.2 in
        elim (Bool-cases (Clan.ban j r.target.id r.clan).0) [
          | inr refused ↦ rw (r.eq, refused, ban_clan_member) ok
          | inl done ↦ elim (Bool-cases (is_member r.clan r.target.id)) [
            | inl was ↦
                rw (r.eq, done, was, ban_clan_member)
                  (set_clan_id-IsConsistent max w ok r.founder.clan_id r.clan _ r.clan_at same valid
                    r.t 0 r.target r.target_at
                    (λ id n. keeps id (apart r.t r.target id r.target_at n)) (λ n. absurd (n refl)))
            | inr was ↦
                rw (r.eq, done, was, ban_clan_member)
                  (set_clan-IsConsistent max w ok r.founder.clan_id r.clan _ r.clan_at same valid
                    (λ id m. keeps id (λ e. cc (ap (λ i. member i r.clan.members) e, was, m)) m))
          ]
        ]
  ]

  pub kick_clan_member-IsConsistent :
      (j : ℕ) (nick : Bytes) → IsConsistent max (kick_clan_member j nick w).1
  unfolding kick_clan_member
  kick_clan_member-IsConsistent j nick = elim (resolve-cases j nick w ok.players_ordered) [
    | inl (s, e) ↦ rw (e, kick_clan_member) ok
    | inr r ↦ elim (Bool-cases (Clan.kick j r.target.id r.clan).0) [
      | inr refused ↦ rw (r.eq, refused, kick_clan_member) ok
      | inl done ↦
          let before = ok.settled r.founder.clan_id r.clan r.clan_at in
          let (same, keeps) = kick_members j r.target.id r.clan in
          rw (r.eq, done, kick_clan_member)
            (set_clan_id-IsConsistent max w ok r.founder.clan_id r.clan _ r.clan_at same
              (Valid.kick-IsValid max j r.target.id r.clan before.2) r.t 0 r.target r.target_at
              (λ id n. keeps id (apart r.t r.target id r.target_at n)) (λ n. absurd (n refl)))
    ]
  ]

  pub leave_clan-IsConsistent : (k : ℕ) → IsConsistent max (leave_clan k w).1
  unfolding leave_clan
  leave_clan-IsConsistent k = elim (Option-cases (clan_of k w)) [
    | inl n ↦ rw (n, leave_clan) ok
    | inr (pc, e) ↦ elim (Bool-cases (Clan.leave k pc.1).0) [
      | inr refused ↦ rw (e, refused, leave_clan) ok
      | inl done ↦
          let (here, at) = clan_of_lem k w pc.0 pc.1 e in
          let before = ok.settled pc.0.clan_id pc.1 at in
          let (same, keeps) = leave_members k pc.1 in
          rw (e, done, leave_clan)
            (set_clan_id-IsConsistent max w ok pc.0.clan_id pc.1 _ at same
              (Valid.leave-IsValid max k pc.1 before.2) k 0 pc.0 here keeps (λ n. absurd (n refl)))
    ]
  ]

  pub request_join_clan-IsConsistent :
      (k : ℕ) (name : Bytes) → IsConsistent max (request_join_clan env k name w).1
  unfolding request_join_clan
  request_join_clan-IsConsistent k name = elim (Option-cases (lookup k w.players)) [
    | inl n ↦ rw (n, request_join_clan) ok
    | inr (p, e) ↦ elim (Bool-cases (p.clan_id == 0)) [
      | inr in_clan ↦ rw (e, in_clan, request_join_clan) ok
      | inl free ↦ elim (Option-cases (get_clan_by_name name w.clans_by_id)) [
        | inl n ↦ rw (e, free, n, request_join_clan) ok
        | inr (kc, f) ↦ elim (Bool-cases (is_banned kc.1 k)) [
          | inl barred ↦ rw (e, free, f, barred, request_join_clan) ok
          | inr fine ↦ elim (Bool-cases (Clan.request_join max k kc.1).0) [
            | inr refused ↦ rw (e, free, f, fine, refused, request_join_clan) ok
            | inl done ↦
                let at = find_clan name w.clans_by_id kc.0 kc.1 ok.clans_ordered f in
                let (same, kept) = request_join_members max k kc.1 in
                rw (e, free, f, fine, done, request_join_clan)
                  (set_clan-IsConsistent max w ok kc.0 kc.1 _ at same
                    (Valid.request_join-IsValid max k kc.1 (ok.settled kc.0 kc.1 at).2)
                    (λ id m. ap (member id) kept ∙ m))
          ]
        ]
      ]
    ]
  ]
