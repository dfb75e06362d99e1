-- ===== src/World/Commands.antt =====
-- server/commands/clan_command.cpp: founding a clan, and the clan commands as a whole.
use argentum_online_taller_g.Prelude.{
  ℕ, ◌+◌, ◌%◌, ◌^◌, ◌<◌, ◌≡◌, ◌≢◌, refl, ◌∙◌, inl, inr, true, false, some, Bytes, ◌==◌, arith,
  lookup, insert, lookup_inserted, member, add_member, insert-IsOrdered, Bool-cases, Option-cases,
}
use argentum_online_taller_g.Prelude.Int.{ℤ, pos, ◌≤ℤ◌, ltb_ℤ}
use argentum_online_taller_g.Config.{Env}
use argentum_online_taller_g.Player.Character.{Player}
use argentum_online_taller_g.Clan.{Clan, new_clan}
use argentum_online_taller_g.Clan.Valid
use argentum_online_taller_g.World.Clans.{
  ClanWorld, get_clan_by_name, is_empty, create_clan, found_clan,
}
use argentum_online_taller_g.World.Execute.{
  found, join_request, review, accept, reject, ban, kick, leave, ClanAction, execute,
}
use argentum_online_taller_g.World.Membership.{IsConsistent, belongs, belongs-insert}
use argentum_online_taller_g.World.Handlers.{
  accept_clan_member-IsConsistent, reject_clan_member-IsConsistent, ban_clan_member-IsConsistent,
  kick_clan_member-IsConsistent, leave_clan-IsConsistent, request_join_clan-IsConsistent,
}

new_clan_lem :
    (k : ℕ) (name : Bytes) (founder : ℕ)
    → ((new_clan k name founder).clan_id ≡ k)
      × (member founder (new_clan k name founder).members ≡ true)
unfolding new_clan add_member member
new_clan_lem k name founder = ground arith

-- The world after a clan was founded.
abbrev with_new_clan : ℕ → Bytes → Player → ClanWorld → ClanWorld
with_new_clan j name p w =
    let new_id = w.next_clan_id in
    record {
      players = insert j (record p { clan_id = new_id }) w.players;
      clans_by_id = insert new_id (new_clan new_id name j) w.clans_by_id;
      next_clan_id = (new_id + 1) % 2 ^ 32;
    }

module _ (env : Env) (w : ClanWorld) (ok : IsConsistent env.clan_max_members w)
    (least : pos 1 ≤ℤ env.clan_max_members) (ids_left : w.next_clan_id + 1 < 2 ^ 32) where
  abbrev max : ℤ
  max = env.clan_max_members

  next : (w.next_clan_id + 1) % 2 ^ 32 ≡ w.next_clan_id + 1
  next = omega (arith, ids_left)

  fresh : (k : ℕ) (c : Clan) → lookup k w.clans_by_id ≡ some c → w.next_clan_id ≢ k
  fresh k c h e = let below = (ok.settled k c h).1 in absurd (omega (arith, e, below))

  belongs_before :
      (id j k : ℕ) (c' : Clan)
      → ((c : Clan) → lookup k w.clans_by_id ≡ some c → w.next_clan_id ≢ k)
      → belongs id k w.clans_by_id ≡ true
      → belongs id k (insert w.next_clan_id c' w.clans_by_id) ≡ true
  unfolding belongs
  belongs_before id j k c' new h = elim (Option-cases (lookup k w.clans_by_id)) [
    | inl n ↦ absurd (ground (arith, n))
    | inr (c, e) ↦ belongs-insert id w.next_clan_id k c' w.clans_by_id ∙ rw (differ (new c e)) h
  ]
    where
      differ : w.next_clan_id ≢ k → (w.next_clan_id == k) ≡ false
      differ n = ground (arith, n)

  with_new_clan-IsConsistent :
      (j : ℕ) (name : Bytes) (p : Player)
      → lookup j w.players ≡ some p
      → IsConsistent max (with_new_clan j name p w)
  with_new_clan-IsConsistent j name p here =
      let new_id = w.next_clan_id in
      let (own, joined) = new_clan_lem new_id name j in
      record {
        players_ordered =
            insert-IsOrdered j (record p { clan_id = new_id }) w.players ok.players_ordered;
        clans_ordered =
            insert-IsOrdered new_id (new_clan new_id name j) w.clans_by_id ok.clans_ordered;
        named = λ id q h.
            elim (lookup_inserted id j (record p { clan_id = new_id }) q w.players h) [
              | inl (e, f) ↦ rw (← f) (ok.named j p here ∙ e)
              | inr (m, g) ↦ ok.named id q g
            ];
        settled = λ k d h.
            elim (lookup_inserted k new_id (new_clan new_id name j) d w.clans_by_id h) [
              | inl (e, f) ↦
                  rw (← f, ← e)
                    (own, omega (arith, next), Valid.new_clan-IsValid max new_id name j least)
              | inr (m, g) ↦
                  let (named, below, valid) = ok.settled k d g in
                  (named, omega (arith, below, next), valid)
            ];
        joined = λ id q h m.
            elim (lookup_inserted id j (record p { clan_id = new_id }) q w.players h) [
              | inl (e, f) ↦
                  let changed : q.clan_id ≡ new_id = rw (← f) refl in
                  rw (changed, ← e)
                    (belongs-insert j new_id new_id (new_clan new_id name j) w.clans_by_id
                      ∙ rw (eq_self new_id) joined)
              | inr (apart, g) ↦
                  belongs_before id j q.clan_id (new_clan new_id name j)
                    (λ c e. fresh q.clan_id c e) (ok.joined id q g m)
            ];
      }
    where
      eq_self : (k : ℕ) → (k == k) ≡ true
      eq_self k = ground arith

  found_clan-IsConsistent : (j : ℕ) (name : Bytes) → IsConsistent max (found_clan env j name w).1
  unfolding found_clan create_clan
  found_clan-IsConsistent j name = elim (Option-cases (lookup j w.players)) [
    | inl n ↦ rw (n, found_clan) ok
    | inr (p, e) ↦ elim (Bool-cases (is_empty name)) [
      | inl empty ↦ rw (e, empty, found_clan) ok
      | inr named ↦ elim (Bool-cases (ltb_ℤ p.level env.clan_min_level_to_found)) [
        | inl low ↦ rw (e, named, low, found_clan) ok
        | inr high ↦ elim (Bool-cases (p.clan_id == 0)) [
          | inr in_clan ↦ rw (e, named, high, in_clan, found_clan) ok
          | inl free ↦ elim (Option-cases (get_clan_by_name name w.clans_by_id)) [
            | inr (c, taken) ↦ rw (e, named, high, free, taken, found_clan, create_clan) ok
            | inl unused ↦
                rw (e, named, high, free, unused, found_clan, create_clan)
                  (with_new_clan-IsConsistent j name p e)
          ]
        ]
      ]
    ]
  ]

-- Whatever clan command any player executes, clans and online players stay consistent: every clan
-- is valid and stands under its own id, and the clan that an online player names exists and has
-- the player as a member. The maximum of members is at least 1, and the ids of clans are not used
-- up.
pub execute-IsConsistent :
    (env : Env) (player_id : ℕ) (action : ClanAction) (arg : Bytes) (w : ClanWorld)
    → pos 1 ≤ℤ env.clan_max_members
    → w.next_clan_id + 1 < 2 ^ 32
    → IsConsistent env.clan_max_members w
    → IsConsistent env.clan_max_members (execute env player_id action arg w).1
unfolding execute
execute-IsConsistent env k found arg w least ids_left ok =
    found_clan-IsConsistent env w ok least ids_left k arg
execute-IsConsistent env k join_request arg w least ids_left ok =
    request_join_clan-IsConsistent env w ok k arg
execute-IsConsistent env k review arg w least ids_left ok = ok
execute-IsConsistent env k accept arg w least ids_left ok =
    accept_clan_member-IsConsistent env w ok k arg
execute-IsConsistent env k reject arg w least ids_left ok =
    reject_clan_member-IsConsistent env w ok k arg
execute-IsConsistent env k ban arg w least ids_left ok = ban_clan_member-IsConsistent env w ok k arg
execute-IsConsistent env k kick arg w least ids_left ok =
    kick_clan_member-IsConsistent env w ok k arg
execute-IsConsistent env k leave arg w least ids_left ok = leave_clan-IsConsistent env w ok k
