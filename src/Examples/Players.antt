-- ===== src/Examples/Players.antt =====
-- A player of level 1 with 150 of gold and 500 of experience, and her safe.
use mathlib.Core.List.{Perm}
use argentum_online_taller_g.Prelude.{
  ℕ, ◌+◌, ◌-◌, ◌<◌, ◌≤◌, ◌≡◌, ◌≢◌, ◌⊎◌, refl, true, false, some, arith, ltb, if◌then◌else◌, lookup,
  bytes_eq,
}
use argentum_online_taller_g.Prelude.Int.{pos, ◌≤ℤ◌, ◌+ℤ◌}
use argentum_online_taller_g.Text.{normalize_name}
use argentum_online_taller_g.Player.Character.{Player, heal, damage_player}
use argentum_online_taller_g.Player.Vitals.{IsAlright, IsSound, hit, VitalStep-IsSound, heal_lem}
use argentum_online_taller_g.Player.Formulas.{
  calculate_level_up_limit, calculate_max_gold, calculate_max_holdable_gold,
}
use argentum_online_taller_g.Player.Purse.{HoldsGold, remove_gold}
use argentum_online_taller_g.Player.Experience.{
  AboveFloor, add_experience, add_experience_total, remove_experience, remove_experience_bounds,
  level_floor,
}
use argentum_online_taller_g.Bank.{get_gold_from_safe, take_named}
use argentum_online_taller_g.Bank
use argentum_online_taller_g.Bank.Laws.{safe_items, withdraw_gold_lem, redeposit_lem}
use argentum_online_taller_g.Examples.{ana, small_env, safes, typed_sword, spare_sword}

ana-IsAlright : IsAlright ana.character
ana-IsAlright = record { nonneg = ground arith; below = ground arith; dead_iff = ground arith }

ana-IsSound : IsSound ana
ana-IsSound = record {
  positive = ground arith;
  mana = ground arith;
  body = ana-IsAlright;
  mind = record { nonneg = ground arith; below = ground arith };
}

VitalStep-IsSound_example : IsSound (damage_player (pos 20) ana)
VitalStep-IsSound_example = VitalStep-IsSound (hit (pos 20)) ana-IsSound

heal_lem_example :
    ((heal (pos 9) ana.character).1.current_hp ≡ ana.current_hp +ℤ (heal (pos 9) ana.character).0)
    × (pos 0 ≤ℤ (heal (pos 9) ana.character).0)
    × (((heal (pos 9) ana.character).0 ≤ℤ pos 9) ⊎ ((heal (pos 9) ana.character).0 ≡ pos 0))
    × (ana.dead ≡ true → (heal (pos 9) ana.character).1 ≡ ana.character)
heal_lem_example = heal_lem (pos 9) ana.character ana-IsAlright

pub ana-HoldsGold : HoldsGold small_env ana
unfolding calculate_max_holdable_gold calculate_max_gold
ana-HoldsGold = ground arith

ana_pays : remove_gold 100 ana ≡ (true, record ana { gold = 50 })
unfolding remove_gold
ana_pays = refl

ana-AboveFloor : AboveFloor small_env ana
unfolding level_floor
ana-AboveFloor = ground arith

third_limit : 500 + 3600 < calculate_level_up_limit small_env (ana.level +ℤ pos 2)
unfolding calculate_level_up_limit ◌+ℤ◌
third_limit = ground arith

-- 4100 of experience are below the limit of level 3, two levels on.
add_experience_total_example :
    (q : Player) × (add_experience 3 small_env 3600 ana ≡ some q)
    × (q.experience < calculate_level_up_limit small_env q.level)
    × AboveFloor small_env q
    × (q.experience ≡ 500 + 3600)
    × (q.gold ≡ 150)
add_experience_total_example =
    add_experience_total 3 2 small_env 3600 ana (ground arith) (ground arith) third_limit
      ana-AboveFloor

remove_experience_bounds_example :
    AboveFloor small_env (remove_experience small_env 300 ana)
    × ((remove_experience small_env 300 ana).experience ≤ 500)
    × (500 ≤ (remove_experience small_env 300 ana).experience + 300)
remove_experience_bounds_example = remove_experience_bounds small_env 300 ana ana-AboveFloor

pub ana_saved : get_gold_from_safe 7 safes ≡ 500
unfolding get_gold_from_safe lookup
ana_saved = refl

withdraw_gold_lem_example :
    ((Bank.withdraw_gold 7 40 safes).0
      ≡ (if ltb (get_gold_from_safe 7 safes) 40 then false else true))
    × (get_gold_from_safe 7 (Bank.withdraw_gold 7 40 safes).1 ≡ (
        if ltb (get_gold_from_safe 7 safes) 40
        then get_gold_from_safe 7 safes
        else get_gold_from_safe 7 safes - 40))
    × (◌≢◌ {A = ℕ} 8 7 → lookup 8 (Bank.withdraw_gold 7 40 safes).1 ≡ lookup 8 safes)
withdraw_gold_lem_example = withdraw_gold_lem 7 8 40 safes (ground arith)

pub sword_saved : (Bank.withdraw_item 7 typed_sword safes).0 ≡ some spare_sword
unfolding Bank.withdraw_item take_named lookup normalize_name bytes_eq
sword_saved = refl

redeposit_lem_example :
    let back =
      (Bank.deposit_item 7 (some spare_sword) (Bank.withdraw_item 7 typed_sword safes).1).1 in
    (get_gold_from_safe 7 back ≡ get_gold_from_safe 7 safes)
    × Perm (safe_items 7 back) (safe_items 7 safes)
redeposit_lem_example = redeposit_lem 7 7 typed_sword safes spare_sword sword_saved
