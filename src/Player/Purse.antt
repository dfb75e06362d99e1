-- ===== src/Player/Purse.antt =====
-- server/game/player.cpp: the gold that a player carries, `add_gold` and `remove_gold`.
use argentum_online_taller_g.Prelude.{
  ℕ, ◌+◌, ◌-◌, ◌≤◌, ◌≡◌, Bool, true, false, arith, ltb, leb, if◌then◌else◌, min,
}
use argentum_online_taller_g.Config.{Env}
use argentum_online_taller_g.Player.Character.{Player}
use argentum_online_taller_g.Player.Formulas.{calculate_max_holdable_gold}

-- What does not fit under the limit is not added.
unfoldable pub add_gold : Env → ℕ → Player → Player
add_gold env amount p =
    let max_holdable = calculate_max_holdable_gold env p.level in
    if leb max_holdable p.gold
    then p
    else record p { gold = p.gold + min amount (max_holdable - p.gold) }

unfoldable pub remove_gold : ℕ → Player → Bool × Player
remove_gold amount p =
    if ltb p.gold amount then (false, p) else (true, record p { gold = p.gold - amount })

-- A player holds no more gold than its level allows.
abbrev pub HoldsGold : Env → Player → Type 0
HoldsGold env p = p.gold ≤ calculate_max_holdable_gold env p.level

-- The gold that a player can still take.
abbrev pub space : Env → Player → ℕ
space env p = calculate_max_holdable_gold env p.level - p.gold

-- Gold is added up to the limit, the excess is lost, and nothing else of the player changes.
pub add_gold_lem :
    (env : Env) (amount : ℕ) (p : Player)
    → HoldsGold env p
    → add_gold env amount p ≡ record p { gold = p.gold + min amount (space env p) }
unfolding add_gold
add_gold_lem env amount p h = ground arith

pub add_gold-HoldsGold :
    (env : Env) (amount : ℕ) (p : Player) → HoldsGold env p → HoldsGold env (add_gold env amount p)
unfolding add_gold
add_gold-HoldsGold env amount p h = ground arith

pub remove_gold-HoldsGold :
    (env : Env) (amount : ℕ) (p : Player) → HoldsGold env p → HoldsGold env (remove_gold amount p).1
unfolding remove_gold
remove_gold-HoldsGold env amount p h = ground arith

-- Gold that a player within its limit has paid can be paid back: the player is as before.
pub add_gold-remove_gold :
    (env : Env) (amount : ℕ) (p q : Player)
    → HoldsGold env p
    → remove_gold amount p ≡ (true, q)
    → add_gold env amount q ≡ p
unfolding add_gold remove_gold
add_gold-remove_gold env amount p q h e = ground arith
