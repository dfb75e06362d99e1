-- ===== src/World/Asks.antt =====
-- server/world/world.cpp: meditation, cheats and the start of a resurrection move nobody.
use mathlib.Core.Option.{some-injective}
use argentum_online_taller_g.Prelude.{
  ℕ, ◌≡◌, refl, sym, ap, ◌∙◌, some, inl, inr, Bool-cases, Option-cases, arith, lookup,
}
use argentum_online_taller_g.Prelude.Int.{ℤ, pos, ◌+ℤ◌}
use argentum_online_taller_g.Config.{Env}
use argentum_online_taller_g.Player.Character.{
  Player, heal_player, damage_player, restore_mana, start_meditating,
}
use argentum_online_taller_g.Player.Formulas.{calculate_max_holdable_gold}
use argentum_online_taller_g.Player.Purse.{add_gold}
use argentum_online_taller_g.World.Cities.{get_closest_city}
use argentum_online_taller_g.World.State.{World}
use argentum_online_taller_g.World.Actions.{
  meditate, start_resurrection, CheatType, heal_full, restore_full_mana, die, rise, give_gold,
  cheat_on, apply_cheat,
}
use argentum_online_taller_g.World.Quiet.{
  Quiet, Quiet-refl, elsewhere-Quiet, alter_player-Quiet, receive_damage-position, heal-position,
  level_up-position,
}

start_meditating-position : (p : Player) → (start_meditating p).position ≡ p.position
unfolding start_meditating
start_meditating-position p = ground arith

pub meditate-Quiet : (id : ℕ) (w : World) → Quiet w (meditate id w).1
unfolding meditate
meditate-Quiet id w = elim (Option-cases (lookup id w.players)) [
  | inl e ↦ rw (meditate, e) (Quiet-refl w)
  | inr (p, e) ↦ elim (Bool-cases p.dead) [
    | inl d ↦ rw (meditate, e, d) (Quiet-refl w)
    | inr l ↦
        rw (meditate, e, l)
          (alter_player-Quiet id start_meditating w (λ q h. start_meditating-position q))
  ]
]

pub start_resurrection-Quiet :
    (env : Env) (id : ℕ) (w : World) → Quiet w (start_resurrection env id w).1
unfolding start_resurrection
start_resurrection-Quiet env id w = elim (Option-cases (lookup id w.players)) [
  | inl e ↦ rw (start_resurrection, e) (Quiet-refl w)
  | inr (p, e) ↦ elim (Bool-cases p.dead) [
    | inr l ↦ rw (start_resurrection, e, l) (Quiet-refl w)
    | inl d ↦ elim (Option-cases (lookup id w.pending_resurrections)) [
      | inr (r, q) ↦ rw (start_resurrection, e, d, q) (Quiet-refl w)
      | inl q ↦ elim (Option-cases (get_closest_city w.map.cities p.position)) [
        | inl c ↦ rw (start_resurrection, e, d, q, c) (Quiet-refl w)
        | inr (city, c) ↦
            rw (start_resurrection, e, d, q, c) (elsewhere-Quiet w _ refl refl refl refl refl)
      ]
    ]
  ]
]

restore_mana-position : (a : ℤ) (p : Player) → (restore_mana a p).position ≡ p.position
unfolding restore_mana
restore_mana-position a p = ground arith

add_gold-position : (env : Env) (a : ℕ) (p : Player) → (add_gold env a p).position ≡ p.position
unfolding add_gold
add_gold-position env a p = ground arith

cheat_on-position :
    (env : Env) (cheat : CheatType) (p q : Player)
    → cheat_on env cheat p ≡ some q
    → q.position ≡ p.position
unfolding cheat_on heal_player damage_player
cheat_on-position env heal_full p q e = ground (arith, e, heal-position p.max_hp p.character)
cheat_on-position env restore_full_mana p q e =
    ground (arith, e, restore_mana-position p.max_mana p)
cheat_on-position env die p q e =
    ground (arith, e, receive_damage-position (p.max_hp +ℤ pos 1) p.character)
cheat_on-position env rise p q e = ground (arith, e, level_up-position env p)
cheat_on-position env give_gold p q e =
    ground (arith, e, add_gold-position env (calculate_max_holdable_gold env p.level) p)

pub apply_cheat-Quiet :
    (env : Env) (id : ℕ) (cheat : CheatType) (w : World) → Quiet w (apply_cheat env id cheat w).1
unfolding apply_cheat
apply_cheat-Quiet env id cheat w = elim (Option-cases (lookup id w.players)) [
  | inl e ↦ rw (apply_cheat, e) (Quiet-refl w)
  | inr (p, e) ↦ elim (Option-cases (cheat_on env cheat p)) [
    | inl c ↦ rw (apply_cheat, e, c) (Quiet-refl w)
    | inr (q, c) ↦
        rw (apply_cheat, e, c)
          (alter_player-Quiet id (λ p. q) w
            (λ r h.
              cheat_on-position env cheat p q c
              ∙ ap (λ (x : Player). x.position) (some-injective _ _ (sym e ∙ h))))
  ]
]
