-- ===== src/Npc/Refusal.antt =====
-- server/game/npcs: requests that are answered with a refusal.
use mathlib.Core.List.{Perm}
use mathlib.Core.List.Perm
use argentum_online_taller_g.Prelude.{
  ℕ, ◌≡◌, ◌≢◌, refl, false, none, some, arith, Bool-cases, Option-cases, inl, inr, Bytes,
}
use argentum_online_taller_g.Prelude.Int.{ℤ, pos_part}
use argentum_online_taller_g.Inventory.{can_add_item}
use argentum_online_taller_g.Item.{Item}
use argentum_online_taller_g.Player.Character.{Player}
use argentum_online_taller_g.Player.Purse.{remove_gold, add_gold, HoldsGold}
use argentum_online_taller_g.Bank.{Bank, get_gold_from_safe}
use argentum_online_taller_g.Bank
use argentum_online_taller_g.Bank.Laws.{safe_items, redeposit_lem}
use argentum_online_taller_g.Npc.City.{
  Outcome, Shop, InteractResult, success, NpcInteraction, heal, resurrection, list, buy, sell,
  deposit_item, withdraw_item, deposit_gold, withdraw_gold, CityNpc, priest, merchant, banker,
  interact, purchase, banker_deposit_gold, banker_deposit_item, banker_withdraw_gold,
  banker_withdraw_item, banker_list, merchant_buy, merchant_sell, merchant_list, priest_heal,
  priest_resurrect, priest_buy, priest_list, refuse, inventory_full,
}

-- The player is the same, and so are the gold and the items of every safe, up to their order.
abbrev pub Kept : Player → Bank → Outcome → Type 0
Kept p b out =
    (out.player ≡ p)
    × ((other : ℕ)
        → (get_gold_from_safe other out.bank ≡ get_gold_from_safe other b)
          × Perm (safe_items other out.bank) (safe_items other b))

-- An answer other than success. An exception is no answer.
abbrev pub Refuses : Outcome → Type 0
Refuses out = (r : InteractResult) × (out.result ≡ some r) × (r.status ≢ success)

Kept-of_same :
    (p : Player) (b : Bank) (out : Outcome) → (out.player ≡ p) × (out.bank ≡ b) → Kept p b out
Kept-of_same p b out h = (h.0, λ other. rw h.1 (refl, Perm.refl _))

banker_deposit_gold_same :
    (amount : ℤ) (p : Player) (b : Bank)
    → let out = banker_deposit_gold amount p b in Refuses out → (out.player ≡ p) × (out.bank ≡ b)
unfolding banker_deposit_gold remove_gold
banker_deposit_gold_same amount p b (r, e, n) = ground arith

banker_deposit_item_same :
    (shop : Shop) (name : Bytes) (p : Player) (b : Bank)
    → let out = banker_deposit_item shop name p b in Refuses out → (out.player ≡ p) × (out.bank ≡ b)
unfolding banker_deposit_item
banker_deposit_item_same shop name p b (r, e, n) = ground arith

banker_withdraw_gold_same :
    (shop : Shop) (amount : ℤ) (p : Player) (b : Bank)
    → let out = banker_withdraw_gold shop amount p b in
      Refuses out → (out.player ≡ p) × (out.bank ≡ b)
unfolding banker_withdraw_gold
banker_withdraw_gold_same shop amount p b (r, e, n) =
    ground (arith, refused_withdrawal p.id (pos_part amount) b)
  where
    refused_withdrawal :
        (id amount : ℕ) (b : Bank)
        → (Bank.withdraw_gold id amount b).0 ≡ false
        → (Bank.withdraw_gold id amount b).1 ≡ b
    refused_withdrawal id amount b h = unfold Bank.withdraw_gold in ground arith

missing_item :
    (id : ℕ) (name : Bytes) (b : Bank)
    → (Bank.withdraw_item id name b).0 ≡ none
    → (Bank.withdraw_item id name b).1 ≡ b
unfolding Bank.withdraw_item
missing_item id name b h = ground arith

withdrawal_missing :
    (name : Bytes) (p : Player) (b : Bank)
    → (Bank.withdraw_item p.id name b).0 ≡ none
    → let out = banker_withdraw_item name p b in (out.player ≡ p) × (out.bank ≡ b)
unfolding banker_withdraw_item
withdrawal_missing name p b m = ground (arith, m, missing_item p.id name b m)

withdrawal_full :
    (name : Bytes) (p : Player) (b : Bank) (item : Item)
    → (Bank.withdraw_item p.id name b).0 ≡ some item
    → p.dead ≡ false
    → can_add_item p.inventory item ≡ false
    → banker_withdraw_item name p b
      ≡ refuse inventory_full p
          (Bank.deposit_item p.id (some item) (Bank.withdraw_item p.id name b).1).1
unfolding banker_withdraw_item
withdrawal_full name p b item t a full = ground (arith, t, a, full)

banker_withdraw_item-Kept :
    (name : Bytes) (p : Player) (b : Bank)
    → let out = banker_withdraw_item name p b in Refuses out → Kept p b out
unfolding banker_withdraw_item
banker_withdraw_item-Kept name p b (r, e, n) = elim (Bool-cases p.dead) [
  | inl d ↦ Kept-of_same p b (banker_withdraw_item name p b) (ground (arith, d))
  | inr a ↦ elim (Option-cases (Bank.withdraw_item p.id name b).0) [
    | inl m ↦ Kept-of_same p b (banker_withdraw_item name p b) (withdrawal_missing name p b m)
    | inr (item, t) ↦ elim (Bool-cases (can_add_item p.inventory item)) [
      | inl room ↦ absurd (ground (arith, a, t, room))
      | inr full ↦
          rw (withdrawal_full name p b item t a full)
            (refl, λ other. redeposit_lem p.id other name b item t)
    ]
  ]
]

purchase_same :
    (shop : Shop) (name : Bytes) (p : Player) (b : Bank)
    → HoldsGold shop.env p
    → let out = purchase shop name p b in Refuses out → (out.player ≡ p) × (out.bank ≡ b)
unfolding purchase remove_gold add_gold
purchase_same shop name p b holds (r, e, n) = ground arith

merchant_buy_same :
    (shop : Shop) (name : Bytes) (p : Player) (b : Bank)
    → HoldsGold shop.env p
    → let out = merchant_buy shop name p b in Refuses out → (out.player ≡ p) × (out.bank ≡ b)
unfolding merchant_buy
merchant_buy_same shop name p b holds (r, e, n) = ground (
  arith,
  λ (h : (purchase shop name p b).result ≡ some r). purchase_same shop name p b holds (r, h, n),
)

priest_buy_same :
    (shop : Shop) (name : Bytes) (p : Player) (b : Bank)
    → HoldsGold shop.env p
    → let out = priest_buy shop name p b in Refuses out → (out.player ≡ p) × (out.bank ≡ b)
unfolding priest_buy
priest_buy_same shop name p b holds (r, e, n) = ground (
  arith,
  λ (h : (purchase shop name p b).result ≡ some r). purchase_same shop name p b holds (r, h, n),
)

merchant_sell_same :
    (shop : Shop) (name : Bytes) (p : Player) (b : Bank)
    → let out = merchant_sell shop name p b in Refuses out → (out.player ≡ p) × (out.bank ≡ b)
unfolding merchant_sell
merchant_sell_same shop name p b (r, e, n) = ground arith

priest_heal_same :
    (p : Player) (b : Bank)
    → let out = priest_heal p b in Refuses out → (out.player ≡ p) × (out.bank ≡ b)
unfolding priest_heal
priest_heal_same p b (r, e, n) = ground arith

priest_resurrect_same :
    (p : Player) (b : Bank)
    → let out = priest_resurrect p b in Refuses out → (out.player ≡ p) × (out.bank ≡ b)
unfolding priest_resurrect
priest_resurrect_same p b (r, e, n) = ground arith

-- Whatever a player asks of a character of the city, an answer other than success leaves the
-- player as it was, and every safe with its gold and its items, up to the order of the items.
-- This takes that the player holds no more gold than its level allows.
pub interact-Kept :
    (shop : Shop) (npc : CityNpc) (request : NpcInteraction) (p : Player) (b : Bank)
    → HoldsGold shop.env p
    → Refuses (interact shop npc request p b)
    → Kept p b (interact shop npc request p b)
unfolding interact
interact-Kept shop priest heal p b holds refused =
    Kept-of_same p b (interact shop priest heal p b) (priest_heal_same p b refused)
interact-Kept shop priest resurrection p b holds refused =
    Kept-of_same p b (interact shop priest resurrection p b) (priest_resurrect_same p b refused)
interact-Kept shop priest (buy name) p b holds refused =
    Kept-of_same p b (interact shop priest (buy name) p b)
      (priest_buy_same shop name p b holds refused)
interact-Kept shop priest list p b holds refused =
    Kept-of_same p b (interact shop priest list p b) (unfold priest_list in ground arith)
interact-Kept shop merchant (buy name) p b holds refused =
    Kept-of_same p b (interact shop merchant (buy name) p b)
      (merchant_buy_same shop name p b holds refused)
interact-Kept shop merchant (sell name) p b holds refused =
    Kept-of_same p b (interact shop merchant (sell name) p b)
      (merchant_sell_same shop name p b refused)
interact-Kept shop merchant list p b holds refused =
    Kept-of_same p b (interact shop merchant list p b) (unfold merchant_list in ground arith)
interact-Kept shop banker (deposit_gold amount) p b holds refused =
    Kept-of_same p b (interact shop banker (deposit_gold amount) p b)
      (banker_deposit_gold_same amount p b refused)
interact-Kept shop banker (deposit_item name) p b holds refused =
    Kept-of_same p b (interact shop banker (deposit_item name) p b)
      (banker_deposit_item_same shop name p b refused)
interact-Kept shop banker (withdraw_gold amount) p b holds refused =
    Kept-of_same p b (interact shop banker (withdraw_gold amount) p b)
      (banker_withdraw_gold_same shop amount p b refused)
interact-Kept shop banker (withdraw_item name) p b holds refused =
    banker_withdraw_item-Kept name p b refused
interact-Kept shop banker list p b holds refused =
    Kept-of_same p b (interact shop banker list p b) (unfold banker_list in ground arith)
interact-Kept shop npc request p b holds refused =
    Kept-of_same p b (interact shop npc request p b) (refl, refl)
