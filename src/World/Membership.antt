-- ===== src/World/Membership.antt =====
-- server/world/world.cpp: when clans and online players are consistent, and replacing one of them.
use mathlib.Core.Option.{some-injective}
use argentum_online_taller_g.Prelude.{
  ℕ, ◌<◌, ◌≡◌, ◌≢◌, refl, sym, ◌∙◌, inl, inr, Bool, true, false, Option, none, some, [], ◌∷◌, Bytes,
  bytes_eq, ◌==◌, if◌then◌else◌, arith, Dict, lookup, insert, lookup-insert, lookup_inserted, subst,
  member, IsOrdered, insert-IsOrdered, lookup-rest, Bool-cases,
}
use argentum_online_taller_g.Prelude.Int.{ℤ}
use argentum_online_taller_g.Player.Character.{Player}
use argentum_online_taller_g.Clan.{Clan}
use argentum_online_taller_g.Clan.Valid
use argentum_online_taller_g.World.Clans.{
  ClanWorld, set_clan, set_clan_id, get_player_by_name, get_clan_by_name,
}

-- Whether a player is a member of the clan of that id.
unfoldable pub belongs : ℕ → ℕ → Dict Clan → Bool
belongs id clan_id clans = elim (lookup clan_id clans) [
  | none ↦ false
  | some c ↦ member id c.members
]

-- A clan stands under its own id, which was given out before, and is valid.
abbrev pub IsSettled : ℤ → ClanWorld → ℕ → Clan → Type 0
IsSettled max w k c = (c.clan_id ≡ k) × (k < w.next_clan_id) × Valid.IsValid max c

pub record IsConsistent (max : ℤ) (w : ClanWorld) : Type 0 where
  pub players_ordered : IsOrdered w.players
  pub clans_ordered : IsOrdered w.clans_by_id
  pub named : (id : ℕ) (p : Player) → lookup id w.players ≡ some p → p.id ≡ id
  pub settled : (k : ℕ) (c : Clan) → lookup k w.clans_by_id ≡ some c → IsSettled max w k c
  -- The clan that a player names exists and has the player as a member.
  pub joined :
      (id : ℕ) (p : Player)
      → lookup id w.players ≡ some p
      → p.clan_id ≢ 0
      → belongs id p.clan_id w.clans_by_id ≡ true

lookup_head : {V : Type 0} (k : ℕ) (v : V) (m : Dict V) → lookup k ((k, v) ∷ m) ≡ some v
unfolding lookup
lookup_head k v m = ground arith

pub find_player :
    (name : Bytes) (players : Dict Player) (t : ℕ) (p : Player)
    → IsOrdered players
    → get_player_by_name name players ≡ some (t, p)
    → lookup t players ≡ some p
unfolding get_player_by_name
find_player name [] t p o h = cc
find_player name ((id, q) ∷ players) t p o h = elim (Bool-cases (bytes_eq q.name name)) [
  | inl e ↦
      let same : ◌≡◌ {A = Option (ℕ × Player)} (some (id, q)) (some (t, p)) = rw e at h in
      subst (λ (x : ℕ × Player). lookup x.0 ((id, q) ∷ players) ≡ some x.1)
        (some-injective _ _ same) (lookup_head id q players)
  | inr e ↦ lookup-rest id t q p players o (find_player name players t p o.1 (rw e at h))
]

pub find_clan :
    (name : Bytes) (clans : Dict Clan) (k : ℕ) (c : Clan)
    → IsOrdered clans
    → get_clan_by_name name clans ≡ some (k, c)
    → lookup k clans ≡ some c
unfolding get_clan_by_name
find_clan name [] k c o h = cc
find_clan name ((j, d) ∷ clans) k c o h = elim (Bool-cases (bytes_eq d.name name)) [
  | inl e ↦
      let same : ◌≡◌ {A = Option (ℕ × Clan)} (some (j, d)) (some (k, c)) = rw e at h in
      subst (λ (x : ℕ × Clan). lookup x.0 ((j, d) ∷ clans) ≡ some x.1) (some-injective _ _ same)
        (lookup_head j d clans)
  | inr e ↦ lookup-rest j k d c clans o (find_clan name clans k c o.1 (rw e at h))
]

-- What an operation may do to a clan without losing a member other than `t`.
abbrev pub Keeps : ℕ → Clan → Clan → Type 0
Keeps t c c' = (id : ℕ) → id ≢ t → member id c.members ≡ true → member id c'.members ≡ true

pub belongs-insert :
    (id k j : ℕ) (c' : Clan) (clans : Dict Clan)
    → belongs id j (insert k c' clans)
      ≡ (if k == j then member id c'.members else belongs id j clans)
unfolding belongs
belongs-insert id k j c' clans = ground (arith, lookup-insert j k c' clans)

pub belongs-lookup :
    (id k : ℕ) (c : Clan) (clans : Dict Clan)
    → lookup k clans ≡ some c
    → belongs id k clans ≡ member id c.members
unfolding belongs
belongs-lookup id k c clans h = rw (h, belongs) refl

eq_self : (k : ℕ) → (k == k) ≡ true
eq_self k = ground arith

module _ (max : ℤ) (w : ClanWorld) (ok : IsConsistent max w) (k : ℕ) (c c' : Clan)
    (at : lookup k w.clans_by_id ≡ some c) (same : c'.clan_id ≡ c.clan_id)
    (valid : Valid.IsValid max c') where
  IsSettled-still :
      (j : ℕ) (d : Clan) → lookup j (insert k c' w.clans_by_id) ≡ some d → IsSettled max w j d
  IsSettled-still j d h = elim (lookup_inserted j k c' d w.clans_by_id h) [
    | inl (e, f) ↦
        let before : IsSettled max w k c = ok.settled k c at in
        subst (IsSettled max w j) f
          (subst (λ i. IsSettled max w i c') e (same ∙ before.0, before.1, valid))
    | inr (n, g) ↦ ok.settled j d g
  ]

  -- A player that was not the one whose place in the clan changes still belongs where it did.
  belongs_still :
      (id j : ℕ)
      → (member id c.members ≡ true → member id c'.members ≡ true)
      → belongs id j w.clans_by_id ≡ true
      → belongs id j (insert k c' w.clans_by_id) ≡ true
  belongs_still id j keeps h = elim (Bool-cases (k == j)) [
    | inl t ↦
        let key : k ≡ j = ground (arith, t) in
        let was : member id c.members ≡ true =
          sym (belongs-lookup id k c w.clans_by_id at) ∙ rw key h in
        belongs-insert id k j c' w.clans_by_id ∙ rw t (keeps was)
    | inr f ↦ belongs-insert id k j c' w.clans_by_id ∙ rw f h
  ]

  -- A clan is replaced by one that has all its members.
  pub set_clan-IsConsistent :
      ((id : ℕ) → member id c.members ≡ true → member id c'.members ≡ true)
      → IsConsistent max (set_clan k c' w)
  set_clan-IsConsistent keeps = record {
    players_ordered = ok.players_ordered;
    clans_ordered = insert-IsOrdered k c' w.clans_by_id ok.clans_ordered;
    named = ok.named;
    settled = IsSettled-still;
    joined = λ id p h n. belongs_still id p.clan_id (keeps id) (ok.joined id p h n);
  }

  -- A clan is replaced by one that has all its members but perhaps `t`, who is given another id.
  pub set_clan_id-IsConsistent :
      (t n : ℕ) (p : Player)
      → lookup t w.players ≡ some p
      → Keeps t c c'
      → (n ≢ 0 → (n ≡ k) × (member t c'.members ≡ true))
      → IsConsistent max (set_clan_id t p n (set_clan k c' w))
  set_clan_id-IsConsistent t n p here keeps new = record {
    players_ordered = insert-IsOrdered t (record p { clan_id = n }) w.players ok.players_ordered;
    clans_ordered = insert-IsOrdered k c' w.clans_by_id ok.clans_ordered;
    named = λ id q h. elim (lookup_inserted id t (record p { clan_id = n }) q w.players h) [
      | inl (e, f) ↦ rw (← f) (ok.named t p here ∙ e)
      | inr (m, g) ↦ ok.named id q g
    ];
    settled = IsSettled-still;
    joined = λ id q h m. elim (lookup_inserted id t (record p { clan_id = n }) q w.players h) [
      | inl (e, f) ↦
          let changed : q.clan_id ≡ n = rw (← f) refl in
          let place : (n ≡ k) × (member t c'.members ≡ true) = new (λ z. m (changed ∙ z)) in
          rw (changed, place.0, ← e)
            (belongs-insert t k k c' w.clans_by_id ∙ rw (eq_self k) place.1)
      | inr (apart, g) ↦
          belongs_still id q.clan_id (keeps id (λ e. apart (sym e))) (ok.joined id q g m)
    ];
  }
