-- ===== src/Player/Vitals.antt =====
-- server/game/character.cpp and player.cpp: the bounds of hit points and mana, and the operations on
-- them.
use argentum_online_taller_g.Prelude.{◌≡◌, ◌⊎◌, ◌↔◌, true, false, arith}
use argentum_online_taller_g.Prelude.Int.{ℤ, pos, ◌+ℤ◌, ◌-ℤ◌, ◌≤ℤ◌}
use argentum_online_taller_g.Player.Character.{
  Character, Player, receive_damage, heal, restore_mana, consume_mana, resurrect, heal_player,
  damage_player,
}

-- Hit points lie between 0 and the maximum, and a character is dead exactly when it has none.
pub record IsAlright (c : Character) : Type 0 where
  pub nonneg : pos 0 ≤ℤ c.current_hp
  pub below : c.current_hp ≤ℤ c.max_hp
  pub dead_iff : (c.dead ≡ true) ↔ (c.current_hp ≡ pos 0)

-- Mana lies between 0 and the maximum.
pub record HasMana (p : Player) : Type 0 where
  pub nonneg : pos 0 ≤ℤ p.current_mana
  pub below : p.current_mana ≤ℤ p.max_mana

-- Damage of any size keeps the hit points in bounds, and kills exactly when none are left.
pub receive_damage-IsAlright :
    (damage : ℤ) (c : Character) → IsAlright c → IsAlright (receive_damage damage c)
unfolding receive_damage ◌-ℤ◌
receive_damage-IsAlright damage c ok = ground (arith, ok.dead_iff)

pub heal-IsAlright : (amount : ℤ) (c : Character) → IsAlright c → IsAlright (heal amount c).1
unfolding heal ◌+ℤ◌
heal-IsAlright amount c ok = ground (arith, ok.dead_iff)

-- Healing a character whose hit points are in bounds returns what it regained, which is never
-- negative and is at most the amount, or 0; a dead one stays as it is.
pub heal_lem :
    (amount : ℤ) (c : Character)
    → IsAlright c
    → ((heal amount c).1.current_hp ≡ c.current_hp +ℤ (heal amount c).0)
      × (pos 0 ≤ℤ (heal amount c).0)
      × (((heal amount c).0 ≤ℤ amount) ⊎ ((heal amount c).0 ≡ pos 0))
      × (c.dead ≡ true → (heal amount c).1 ≡ c)
unfolding heal ◌+ℤ◌ ◌-ℤ◌
heal_lem amount c ok = ground (arith, ok.dead_iff)

restore_mana-HasMana : (amount : ℤ) (p : Player) → HasMana p → HasMana (restore_mana amount p)
unfolding restore_mana ◌+ℤ◌
restore_mana-HasMana amount p ok = ground arith

consume_mana-HasMana : (amount : ℤ) (p : Player) → HasMana p → HasMana (consume_mana amount p)
unfolding consume_mana ◌-ℤ◌
consume_mana-HasMana amount p ok = ground arith

-- A resurrected player is alive, with all its hit points and all its mana; a living one stays as
-- it is.
pub resurrect_lem :
    (p : Player)
    → ((resurrect p).dead ≡ false)
      × (p.dead ≡ true
          → ((resurrect p).current_hp ≡ p.max_hp) × ((resurrect p).current_mana ≡ p.max_mana))
      × (p.dead ≡ false → resurrect p ≡ p)
unfolding resurrect
resurrect_lem p = ground arith

-- The bounds of a player as a whole.
pub record IsSound (p : Player) : Type 0 where
  pub positive : pos 1 ≤ℤ p.max_hp
  pub mana : pos 0 ≤ℤ p.max_mana
  pub body : IsAlright p.character
  pub mind : HasMana p

-- What may happen to a player's hit points and mana.
pub data VitalStep (p : Player) : Player → Type 0 where
  hit : (damage : ℤ) → VitalStep p (damage_player damage p)
  healed : (amount : ℤ) → VitalStep p (heal_player amount p)
  drank : (amount : ℤ) → VitalStep p (restore_mana amount p)
  cast : (amount : ℤ) → VitalStep p (consume_mana amount p)
  revived : VitalStep p (resurrect p)

resurrect-IsSound : (p : Player) → IsSound p → IsSound (resurrect p)
unfolding resurrect
resurrect-IsSound p ok = ground (arith, ok.body.dead_iff)

restore_mana-IsSound : (amount : ℤ) (p : Player) → IsSound p → IsSound (restore_mana amount p)
unfolding restore_mana ◌+ℤ◌
restore_mana-IsSound amount p ok = ground (arith, ok.body.dead_iff)

consume_mana-IsSound : (amount : ℤ) (p : Player) → IsSound p → IsSound (consume_mana amount p)
unfolding consume_mana ◌-ℤ◌
consume_mana-IsSound amount p ok = ground (arith, ok.body.dead_iff)

heal_player-IsSound : (amount : ℤ) (p : Player) → IsSound p → IsSound (heal_player amount p)
unfolding heal_player ◌+ℤ◌
heal_player-IsSound amount p ok = ground (arith, ok.body.dead_iff)

damage_player-IsSound : (damage : ℤ) (p : Player) → IsSound p → IsSound (damage_player damage p)
unfolding damage_player ◌-ℤ◌
damage_player-IsSound damage p ok = ground (arith, ok.body.dead_iff)

-- Whatever hits, heals, feeds or revives a player, hit points and mana stay between 0 and their
-- maxima, and the player is dead exactly when no hit points are left.
pub VitalStep-IsSound : {p q : Player} → VitalStep p q → IsSound p → IsSound q
VitalStep-IsSound {p} (hit d) ok = damage_player-IsSound d p ok
VitalStep-IsSound {p} (healed a) ok = heal_player-IsSound a p ok
VitalStep-IsSound {p} (drank a) ok = restore_mana-IsSound a p ok
VitalStep-IsSound {p} (cast a) ok = consume_mana-IsSound a p ok
VitalStep-IsSound {p} revived ok = resurrect-IsSound p ok
