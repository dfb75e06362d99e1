-- ===== src/Npc/Trade.antt =====
-- server/game/npcs/merchant.cpp and priest.cpp: what buying and selling moves.
use argentum_online_taller_g.Prelude.{
  ℕ, ◌+◌, ◌-◌, ◌/◌, ◌≡◌, refl, sym, ap, ◌∙◌, [], true, false, some, arith, ltb, if◌then◌else◌, min,
  Bool-cases, Option-cases, inl, inr, Bytes, bytes_eq,
}
use argentum_online_taller_g.Prelude.Int.{pos}
use argentum_online_taller_g.Text.{normalize_name}
use argentum_online_taller_g.Item.{Item}
use mathlib.Core.Option.{some-injective}
use argentum_online_taller_g.Inventory.{
  Inventory, can_add_item, add_item, has_item_by_name, remove_item_by_name,
}
use argentum_online_taller_g.Inventory.Valid.{IsValid, IsNew, remove_item_by_name-IsValid}
use argentum_online_taller_g.Inventory.Adding.{add_item-IsValid}
use argentum_online_taller_g.Inventory.Stock.{stock, add_item-stock}
use argentum_online_taller_g.Inventory.Removal.{remove_item_by_name-stock}
use argentum_online_taller_g.Player.Character.{Player}
use argentum_online_taller_g.Player.Formulas.{int_to_u64}
use argentum_online_taller_g.Player.Purse.{add_gold, remove_gold, HoldsGold, space, add_gold_lem}
use argentum_online_taller_g.Registry.{create_item, get_price}
use argentum_online_taller_g.Bank.{Bank}
use argentum_online_taller_g.Npc.City.{
  Outcome, Shop, InteractResult, success, done, purchase, merchant_buy, merchant_sell, priest_buy,
}

-- No item of the inventory stands where the shop makes the new one.
abbrev pub IsFresh : Shop → Player → Type 0
IsFresh shop p = (item : Item) → item.address ≡ shop.address → IsNew item p.inventory

-- What a completed purchase is: the price is paid, one unit of the item that the answer names is
-- added and nothing else, the inventory stays in order, and the bank is not touched.
pub record Bought (shop : Shop) (name : Bytes) (p : Player) (b : Bank) (r : InteractResult)
    (out : Outcome) : Type 0 where
  pub price : r.gold_amount ≡ get_price shop.registry name
  pub paid : out.player.gold + r.gold_amount ≡ p.gold
  pub added :
      (other : Bytes)
      → stock other out.player.inventory
        ≡ stock other p.inventory + (if bytes_eq r.item_name other then 1 else 0)
  pub valid : IsValid out.player.inventory
  pub bank : out.bank ≡ b

create_item-address :
    (shop : Shop) (name : Bytes) (item : Item)
    → create_item shop.registry shop.address name ≡ some item
    → item.address ≡ shop.address
unfolding create_item
create_item-address shop name item e = ground arith

add_item-done :
    (inv : Inventory) (item : Item)
    → can_add_item inv item ≡ true
    → (add_item inv (some item) (pos 1)).0 ≡ true
unfolding add_item
add_item-done inv item room = ground arith

-- The answer and the player of a purchase that goes through.
purchase_through :
    (shop : Shop) (name : Bytes) (p : Player) (b : Bank) (item : Item)
    → ltb p.gold (get_price shop.registry name) ≡ false
    → create_item shop.registry shop.address name ≡ some item
    → can_add_item p.inventory item ≡ true
    → purchase shop name p b
      ≡ done item.name
          (get_price shop.registry name)
          (record p {
            gold = p.gold - get_price shop.registry name;
            inventory = (add_item p.inventory (some item) (pos 1)).1;
          })
          b
unfolding purchase
purchase_through shop name p b item rich made room = rw (made, paying, room) refl
  where
    paying :
        remove_gold (get_price shop.registry name) p
        ≡ (true, record p { gold = p.gold - get_price shop.registry name })
    paying = unfold remove_gold in rw rich refl

-- Whenever `purchase` answers with success it is a completed purchase.
purchase-Bought :
    (shop : Shop) (name : Bytes) (p : Player) (b : Bank) (r : InteractResult)
    → IsValid p.inventory
    → IsFresh shop p
    → (purchase shop name p b).result ≡ some r
    → r.status ≡ success
    → Bought shop name p b r (purchase shop name p b)
unfolding purchase remove_gold
purchase-Bought shop name p b r ok fresh e s =
    elim (Bool-cases (ltb p.gold (get_price shop.registry name))) [
      | inl poor ↦ absurd (ground (arith, poor))
      | inr rich ↦ elim (Option-cases (create_item shop.registry shop.address name)) [
        | inl n ↦ absurd (ground (arith, rich, n))
        | inr (item, made) ↦ elim (Bool-cases (can_add_item p.inventory item)) [
          | inl room ↦ through item rich made room
          | inr full ↦ absurd (ground (arith, rich, made, full))
        ]
      ]
    ]
  where
    through :
        (item : Item)
        → ltb p.gold (get_price shop.registry name) ≡ false
        → create_item shop.registry shop.address name ≡ some item
        → can_add_item p.inventory item ≡ true
        → Bought shop name p b r (purchase shop name p b)
    through item rich made room =
        let all = purchase_through shop name p b item rich made room in
        let answer : r ≡ record {
          status = success;
          item_name = item.name;
          gold_amount = get_price shop.registry name;
          catalog = [];
        } =
          sym (some-injective _ _ (sym (ap (λ (o : Outcome). o.result) all) ∙ e)) in
        let added = add_item-done p.inventory item room in
        rw (all, answer)
          (record {
            price = refl;
            paid = ground (arith, rich);
            added = λ other. ground (arith, added, add_item-stock p.inventory item (pos 1) other);
            valid =
                add_item-IsValid p.inventory item (pos 1)
                  (fresh item (create_item-address shop name item made)) ok;
            bank = refl;
          })

merchant_buy-purchase :
    (shop : Shop) (name : Bytes) (p : Player) (b : Bank) (r : InteractResult)
    → (merchant_buy shop name p b).result ≡ some r
    → r.status ≡ success
    → merchant_buy shop name p b ≡ purchase shop name p b
unfolding merchant_buy
merchant_buy-purchase shop name p b r e s = ground arith

priest_buy-purchase :
    (shop : Shop) (name : Bytes) (p : Player) (b : Bank) (r : InteractResult)
    → (priest_buy shop name p b).result ≡ some r
    → r.status ≡ success
    → priest_buy shop name p b ≡ purchase shop name p b
unfolding priest_buy
priest_buy-purchase shop name p b r e s = ground arith

-- A merchant that answers a request to buy with success has sold one unit of the item for its
-- price. The inventory has to be in order, and the new item to stand at an address of its own.
pub merchant_buy-Bought :
    (shop : Shop) (name : Bytes) (p : Player) (b : Bank) (r : InteractResult)
    → IsValid p.inventory
    → IsFresh shop p
    → (merchant_buy shop name p b).result ≡ some r
    → r.status ≡ success
    → Bought shop name p b r (merchant_buy shop name p b)
merchant_buy-Bought shop name p b r ok fresh e s =
    let same = merchant_buy-purchase shop name p b r e s in
    rw same (purchase-Bought shop name p b r ok fresh (rw same at e) s)

-- A priest that answers a request to buy with success has sold one unit of the item for its
-- price. The inventory has to be in order, and the new item to stand at an address of its own.
pub priest_buy-Bought :
    (shop : Shop) (name : Bytes) (p : Player) (b : Bank) (r : InteractResult)
    → IsValid p.inventory
    → IsFresh shop p
    → (priest_buy shop name p b).result ≡ some r
    → r.status ≡ success
    → Bought shop name p b r (priest_buy shop name p b)
priest_buy-Bought shop name p b r ok fresh e s =
    let same = priest_buy-purchase shop name p b r e s in
    rw same (purchase-Bought shop name p b r ok fresh (rw same at e) s)

-- What a merchant pays for one unit: the price over the factor, as `uint64_t`.
abbrev pub sell_price : Shop → Bytes → ℕ
sell_price shop name = get_price shop.registry name / int_to_u64 shop.env.npc_buy_item_factor

-- A sale that is answered with success went through.
merchant_sell_through :
    (shop : Shop) (name : Bytes) (p : Player) (b : Bank) (r : InteractResult)
    → (merchant_sell shop name p b).result ≡ some r
    → r.status ≡ success
    → (has_item_by_name p.inventory name ≡ true)
      × (r.gold_amount ≡ sell_price shop name)
      × ((merchant_sell shop name p b).player
          ≡ add_gold shop.env
              (sell_price shop name)
              (record p { inventory = (remove_item_by_name p.inventory name).1 }))
unfolding merchant_sell
merchant_sell_through shop name p b r e s = ground arith

-- A merchant that answers a request to sell with success has taken exactly one unit of an item of
-- that name, up to case and accents, and has paid what of the price the player can carry; the
-- inventory stays in order. It was in order before, and the player within its gold limit.
pub merchant_sell_lem :
    (shop : Shop) (name : Bytes) (p : Player) (b : Bank) (r : InteractResult)
    → IsValid p.inventory
    → HoldsGold shop.env p
    → (merchant_sell shop name p b).result ≡ some r
    → r.status ≡ success
    → let out = merchant_sell shop name p b in
      (r.gold_amount ≡ sell_price shop name)
      × (out.player.gold ≡ p.gold + min (sell_price shop name) (space shop.env p))
      × IsValid out.player.inventory
      × ((item : Item) × (normalize_name item.name ≡ normalize_name name)
          × ((other : Bytes)
              → stock other out.player.inventory + (if bytes_eq item.name other then 1 else 0)
                ≡ stock other p.inventory))
merchant_sell_lem shop name p b r ok holds e s =
    let (has, price, after) = merchant_sell_through shop name p b r e s in
    let lighter : Player = record p { inventory = (remove_item_by_name p.inventory name).1 } in
    let (item, named, less) = remove_item_by_name-stock p.inventory name ok has in
    rw (after, add_gold_lem shop.env (sell_price shop name) lighter holds)
      (price, refl, remove_item_by_name-IsValid p.inventory name ok, (item, named, less))
