-- ===== src/Npc/Gold.antt =====
-- server/game/npcs/banker.cpp: the gold of a player and its safe, through the banker's requests.
use argentum_online_taller_g.Prelude.{ℕ, ◌+◌, ◌-◌, ◌<◌, ◌≤◌, ◌≡◌, false, some, arith, []}
use argentum_online_taller_g.Prelude.Int.{ℤ, pos, pos_part}
use argentum_online_taller_g.Player.Character.{Player}
use argentum_online_taller_g.Player.Formulas.{u64_mod}
use argentum_online_taller_g.Player.Purse.{remove_gold, HoldsGold, space, add_gold_lem}
use argentum_online_taller_g.Bank.{Bank, get_gold_from_safe}
use argentum_online_taller_g.Bank.Laws.{deposit_gold_lem, withdraw_gold_lem}
use argentum_online_taller_g.Npc.City.{Shop, success, banker_deposit_gold, banker_withdraw_gold}

-- The gold that a player has, on hand and in the bank.
abbrev pub wealth : Player → Bank → ℕ
wealth p b = p.gold + get_gold_from_safe p.id b

-- Depositing never changes the sum of what is carried and what is in the safe, for any amount and
-- on every branch, as long as the sum itself fits in 64 bits.
pub banker_deposit_gold-wealth :
    (amount : ℤ) (p : Player) (b : Bank)
    → wealth p b < u64_mod
    → wealth (banker_deposit_gold amount p b).player (banker_deposit_gold amount p b).bank
      ≡ wealth p b
unfolding banker_deposit_gold remove_gold
banker_deposit_gold-wealth amount p b fits =
    ground (arith, deposit_gold_lem p.id p.id (pos_part amount) b)

-- A living player within its gold limit that withdraws more than it can carry, out of a safe that
-- holds it, is told that
-- all of it was paid, and exactly what it could not carry is gone from player and safe together.
pub banker_withdraw_gold-loses :
    (shop : Shop) (amount : ℕ) (p : Player) (b : Bank)
    → HoldsGold shop.env p
    → p.dead ≡ false
    → space shop.env p < amount
    → amount ≤ get_gold_from_safe p.id b
    → let out = banker_withdraw_gold shop (pos amount) p b in
      (out.result
        ≡ some (record { status = success; item_name = []; gold_amount = amount; catalog = [] }))
      × (wealth out.player out.bank + (amount - space shop.env p) ≡ wealth p b)
unfolding banker_withdraw_gold
banker_withdraw_gold-loses shop amount p b holds alive more less =
    ground (arith, withdraw_gold_lem p.id p.id amount b, add_gold_lem shop.env amount p holds)
