-- ===== src/Player/Experience.antt =====
-- server/game/player.cpp: experience and levels, with the loop of `add_experience`, and `drop_loot`.
use argentum_online_taller_g.Prelude.{
  ℕ, zero, suc, ◌+◌, ◌-◌, ◌%◌, ◌≤◌, ◌<◌, ◌≡◌, refl, inl, inr, true, false, ◌&&◌, Option, none, some,
  List, arith, ltb, leb, if◌then◌else◌, Bool-cases,
}
use argentum_online_taller_g.Prelude.Int.{
  ℤ, pos, ◌+ℤ◌, ◌-ℤ◌, ltb_ℤ, ◌≤ℤ◌, +ℤ_cancel, +ℤ_suc, +ℤ_zero,
}
use argentum_online_taller_g.Config.{Env}
use argentum_online_taller_g.Inventory.{InventorySlot, drop_all}
use argentum_online_taller_g.Player.Character.{Player, set_level, set_initial_stats}
use argentum_online_taller_g.Player.Formulas.{
  calculate_max_hp, calculate_max_mana, calculate_level_up_limit, u64_mod,
  calculate_player_dropped_gold, calculate_player_dropped_experience,
}
use argentum_online_taller_g.Player.Purse.{remove_gold}

unfoldable pub level_up : Env → Player → Player
unfolding set_level set_initial_stats
level_up env p =
    let q = set_level (p.level +ℤ pos 1) p in
    set_initial_stats (calculate_max_hp env q) (calculate_max_mana env q) q

-- `while (experience >= limit(level)) level_up()`; `none` is a loop that ran out of fuel.
unfoldable pub level_up_loop : ℕ → Env → Player → Option Player
level_up_loop zero env p = none
level_up_loop (suc fuel) env p =
    let again = level_up_loop fuel env (level_up env p) in
    if leb (calculate_level_up_limit env p.level) p.experience then again else some p

unfoldable pub add_experience : ℕ → Env → ℕ → Player → Option Player
unfolding level_up_loop
add_experience fuel env amount p =
    level_up_loop fuel env (record p { experience = (p.experience + amount) % u64_mod })

-- The limit of the level before.
unfoldable pub level_floor : Env → ℤ → ℕ
level_floor env level =
    if ltb_ℤ (pos 1) level then calculate_level_up_limit env (level -ℤ pos 1) else 0

unfoldable pub remove_experience : Env → ℕ → Player → Player
unfolding level_floor
remove_experience env amount p =
    let floor = level_floor env p.level in
    if ltb amount p.experience && leb floor (p.experience - amount)
    then record p { experience = p.experience - amount }
    else record p { experience = floor }

-- server/game/loot.h.
pub record Loot : Type 0 where
  pub dropped_gold : ℕ
  pub dropped_items : List InventorySlot

-- The gold that falls is taken from the player.
unfoldable pub drop_gold : Env → Player → ℕ × Player
unfolding calculate_player_dropped_gold remove_gold
drop_gold env p =
    let gold = calculate_player_dropped_gold env p in
    (gold, if ltb 0 gold then (remove_gold gold p).1 else p)

-- The experience that a death costs.
unfoldable pub drop_experience : Env → Player → Player
drop_experience env p =
    let lost = calculate_player_dropped_experience env p in
    if ltb 0 lost then remove_experience env lost p else p

unfoldable pub drop_loot : Env → Player → Loot × Player
drop_loot env p =
    let (gold, poorer) = drop_gold env p in
    let wiser = drop_experience env poorer in
    let (items, left) = drop_all wiser.inventory in
    (record { dropped_gold = gold; dropped_items = items }, record wiser { inventory = left })

-- The level's experience: at least the limit of the level before.
abbrev pub AboveFloor : Env → Player → Type 0
AboveFloor env p = (pos 1 ≤ℤ p.level) × (level_floor env p.level ≤ p.experience)

above_one : (a : ℤ) → pos 1 ≤ℤ a → (ltb_ℤ (pos 1) (a +ℤ pos 1) ≡ true) × (pos 1 ≤ℤ a +ℤ pos 1)
unfolding ◌+ℤ◌
above_one a h = ground arith

level_up-AboveFloor :
    (env : Env) (p : Player)
    → AboveFloor env p
    → calculate_level_up_limit env p.level ≤ p.experience
    → AboveFloor env (level_up env p)
unfolding level_up level_floor
level_up-AboveFloor env p ok h =
    let (more, least) = above_one p.level ok.0 in
    (least, rw (more, level_floor, +ℤ_cancel p.level (pos 1)) h)

-- The loop ends when some level's limit lies above the experience, within one round more than the
-- levels in between. The experience is then below the limit of the level that is reached and is
-- the same as before, and so is the gold.
level_up_loop_total :
    (fuel k : ℕ) (env : Env) (p : Player)
    → k < fuel
    → p.experience < calculate_level_up_limit env (p.level +ℤ pos k)
    → AboveFloor env p
    → (q : Player) × (level_up_loop fuel env p ≡ some q)
      × (q.experience < calculate_level_up_limit env q.level)
      × AboveFloor env q
      × (q.experience ≡ p.experience)
      × (q.gold ≡ p.gold)
unfolding level_up_loop level_up
level_up_loop_total zero k env p lt h ok = elim lt [ ]
level_up_loop_total (suc fuel) zero env p lt h ok =
    let below : p.experience < calculate_level_up_limit env p.level = rw (+ℤ_zero p.level) at h in
    let stop : leb (calculate_level_up_limit env p.level) p.experience ≡ false = ground arith in
    rw stop (p, refl, below, ok, refl, refl)
level_up_loop_total (suc fuel) (suc k) env p lt h ok =
    elim (Bool-cases (leb (calculate_level_up_limit env p.level) p.experience)) [
      | inr stop ↦ rw stop (p, refl, ground arith, ok, refl, refl)
      | inl more ↦
          let next : p.experience < calculate_level_up_limit env (p.level +ℤ pos 1 +ℤ pos k) =
            rw (+ℤ_suc p.level k) h in
          rw more (
            level_up_loop_total fuel k env (level_up env p) (omega arith) next
              (level_up-AboveFloor env p ok (ground arith)))
    ]

-- For a player of level 1 at least that is not below the limit of the level before: where the sum does
-- not overflow and lies below the limit of a level that is `k` levels on, and the fuel is more than `k`,
-- the loop of level-ups ends and the experience is added in full. The player is then below the limit of
-- its level and not below the limit of the level before, and its gold is the same.
pub add_experience_total :
    (fuel k : ℕ) (env : Env) (amount : ℕ) (p : Player)
    → k < fuel
    → p.experience + amount < u64_mod
    → p.experience + amount < calculate_level_up_limit env (p.level +ℤ pos k)
    → AboveFloor env p
    → (q : Player) × (add_experience fuel env amount p ≡ some q)
      × (q.experience < calculate_level_up_limit env q.level)
      × AboveFloor env q
      × (q.experience ≡ p.experience + amount)
      × (q.gold ≡ p.gold)
unfolding add_experience
add_experience_total fuel k env amount p lt fits h ok =
    let whole : (p.experience + amount) % u64_mod ≡ p.experience + amount = omega arith in
    rw whole (
      level_up_loop_total fuel k env (record p { experience = p.experience + amount }) lt h
        (ok.0, omega arith))

-- Losing experience never takes a player of level 1 or more below the limit of the level before,
-- where it was not below it; it never adds any, and takes at most the amount.
pub remove_experience_bounds :
    (env : Env) (amount : ℕ) (p : Player)
    → AboveFloor env p
    → AboveFloor env (remove_experience env amount p)
      × ((remove_experience env amount p).experience ≤ p.experience)
      × (p.experience ≤ (remove_experience env amount p).experience + amount)
unfolding remove_experience
remove_experience_bounds env amount p ok = ground arith
