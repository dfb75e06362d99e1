-- ===== src/Bank/Laws.antt =====
-- server/game/bank.cpp: each safe before and after an operation.
use mathlib.Core.List.{Perm, perm_append_singleton}
use mathlib.Core.List.Perm
use mathlib.Core.Option.{some-injective}
use argentum_online_taller_g.Prelude.{
  ℕ, ◌+◌, ◌-◌, ◌%◌, ◌<◌, ◌≡◌, ◌≢◌, refl, subst, inl, inr, true, false, Option, none, some, List, [],
  ◌∷◌, ◌++◌, Bytes, bytes_eq, ltb, ◌==◌, if◌then◌else◌, arith, lookup, insert, lookup-insert,
  Bool-cases, Option-cases,
}
use argentum_online_taller_g.Text.{normalize_name}
use argentum_online_taller_g.Item.{Item}
use argentum_online_taller_g.Player.Formulas.{u64_mod}
use argentum_online_taller_g.Bank.{
  Bank, BankSafe, get_or_create_safe, deposit_gold, withdraw_gold, get_gold_from_safe, deposit_item,
  take_named, withdraw_item,
}

-- The items in a player's safe.
unfoldable pub safe_items : ℕ → Bank → List Item
safe_items id bank = elim (lookup id bank) [ none ↦ [] | some safe ↦ safe.items ]

-- Gold that is put in is in the safe, where the sum fits in 64 bits; the other safes stay as they
-- are.
pub deposit_gold_lem :
    (id other amount : ℕ) (bank : Bank)
    → get_gold_from_safe id bank + amount < u64_mod
    → (get_gold_from_safe id (deposit_gold id amount bank).1 ≡ get_gold_from_safe id bank + amount)
      × (other ≢ id → lookup other (deposit_gold id amount bank).1 ≡ lookup other bank)
unfolding deposit_gold get_gold_from_safe
deposit_gold_lem id other amount bank fits = ground (
  arith,
  lookup-insert id id
      (record (get_or_create_safe bank id) {
        gold = ((get_or_create_safe bank id).gold + amount) % u64_mod;
      })
      bank,
  lookup-insert other id
      (record (get_or_create_safe bank id) {
        gold = ((get_or_create_safe bank id).gold + amount) % u64_mod;
      })
      bank,
)

-- A positive amount is taken out exactly when the safe holds as much; otherwise the safe keeps its
-- gold. The other safes stay as they are.
pub withdraw_gold_lem :
    (id other amount : ℕ) (bank : Bank)
    → 0 < amount
    → ((withdraw_gold id amount bank).0
        ≡ (if ltb (get_gold_from_safe id bank) amount then false else true))
      × (get_gold_from_safe id (withdraw_gold id amount bank).1 ≡ (
          if ltb (get_gold_from_safe id bank) amount
          then get_gold_from_safe id bank
          else get_gold_from_safe id bank - amount))
      × (other ≢ id → lookup other (withdraw_gold id amount bank).1 ≡ lookup other bank)
unfolding withdraw_gold get_gold_from_safe
withdraw_gold_lem id other amount bank h = elim (Option-cases (lookup id bank)) [
  | inl n ↦ ground arith
  | inr (safe, e) ↦ ground (
    arith,
    lookup-insert id id (record safe { gold = safe.gold - amount }) bank,
    lookup-insert other id (record safe { gold = safe.gold - amount }) bank,
  )
]

-- The item and what is left are what there was, in another order.
pub take_named-perm :
    (name : Bytes) (items : List Item) (item : Item) (left : List Item)
    → take_named name items ≡ some (item, left)
    → Perm (left ++ item ∷ []) items
unfolding take_named
take_named-perm name [] item left e = cc
take_named-perm name (i ∷ items) item left e =
    elim (Bool-cases (bytes_eq (normalize_name i.name) name)) [
      | inl t ↦
          let same : ◌≡◌ {A = Option (Item × List Item)} (some (i, items)) (some (item, left)) =
            rw t at e in
          let pair : ◌≡◌ {A = Item × List Item} (i, items) (item, left) = some-injective _ _ same in
          subst (λ (q : Item × List Item). Perm (q.1 ++ q.0 ∷ []) (i ∷ items)) pair
            (perm_append_singleton i items)
      | inr f ↦ elim (Option-cases (take_named name items)) [
        | inl n ↦ absurd (
            let no : ◌≡◌ {A = Option (Item × List Item)} none (some (item, left)) =
              rw (f, n) at e in
            cc)
        | inr (jl, h) ↦
            let same : ◌≡◌ {A = Option (Item × List Item)} (some (jl.0, i ∷ jl.1))
                (some (item, left)) =
              rw (f, h) at e in
            let pair : ◌≡◌ {A = Item × List Item} (jl.0, i ∷ jl.1) (item, left) =
              some-injective _ _ same in
            subst (λ (q : Item × List Item). Perm (q.1 ++ q.0 ∷ []) (i ∷ items)) pair
              (Perm.cons i (take_named-perm name items jl.0 jl.1 h))
      ]
    ]

-- Every safe after an item was put into the one of player `id`.
lookup-deposit_item :
    (id other : ℕ) (item : Item) (bank : Bank)
    → lookup other (deposit_item id (some item) bank).1 ≡ (
        if id == other
        then some (record (get_or_create_safe bank id) {
          items = (get_or_create_safe bank id).items ++ item ∷ [];
        })
        else lookup other bank)
unfolding deposit_item
lookup-deposit_item id other item bank = lookup-insert other id _ bank

-- What a player takes out of the bank: the item, the items that are left, and the safe before.
pub withdraw_item_inv :
    (id : ℕ) (name : Bytes) (bank : Bank) (item : Item)
    → (withdraw_item id name bank).0 ≡ some item
    → (safe : BankSafe) × (left : List Item) × (lookup id bank ≡ some safe)
      × Perm (left ++ item ∷ []) safe.items
      × ((withdraw_item id name bank).1 ≡ insert id (record safe { items = left }) bank)
unfolding withdraw_item
withdraw_item_inv id name bank item h = elim (Option-cases (lookup id bank)) [
  | inl n ↦
      absurd (let no : ◌≡◌ {A = Option Item} none (some item) = rw (n, withdraw_item) at h in cc)
  | inr (safe, e) ↦ elim (Option-cases (take_named (normalize_name name) safe.items)) [
    | inl n ↦
        absurd
          (let no : ◌≡◌ {A = Option Item} none (some item) = rw (e, n, withdraw_item) at h in cc)
    | inr (il, t) ↦
        let same : ◌≡◌ {A = Option Item} (some il.0) (some item) = rw (e, t, withdraw_item) at h in
        (
          safe,
          il.1,
          e,
          rw (← some-injective _ _ same)
              (take_named-perm (normalize_name name) safe.items il.0 il.1 t),
          rw (e, t, withdraw_item) refl,
        )
  ]
]

lookup-redeposit :
    (id other : ℕ) (item : Item) (safe : BankSafe) (left : List Item) (bank : Bank)
    → lookup other (deposit_item id (some item) (insert id (record safe { items = left }) bank)).1
      ≡ (if id == other
          then some (record safe { items = left ++ item ∷ [] })
          else lookup other bank)
unfolding get_or_create_safe
lookup-redeposit id other item safe left bank = ground (
  arith,
  lookup-deposit_item id other item (insert id (record safe { items = left }) bank),
  lookup-insert id id (record safe { items = left }) bank,
  lookup-insert other id (record safe { items = left }) bank,
)

-- An item that is taken out and put back leaves every safe with the gold and the items that it had,
-- up to the order of the items.
pub redeposit_lem :
    (id other : ℕ) (name : Bytes) (bank : Bank) (item : Item)
    → (withdraw_item id name bank).0 ≡ some item
    → let back = (deposit_item id (some item) (withdraw_item id name bank).1).1 in
      (get_gold_from_safe other back ≡ get_gold_from_safe other bank)
      × Perm (safe_items other back) (safe_items other bank)
unfolding get_gold_from_safe safe_items
redeposit_lem id other name bank item h =
    let (safe, left, e, perm, same) = withdraw_item_inv id name bank item h in
    let all = lookup-redeposit id other item safe left bank in
    rw same (elim (Bool-cases (id == other)) [
      | inl t ↦
          let ids : id ≡ other = ground arith in
          rw (all, t, ← ids, e, get_gold_from_safe, safe_items) (refl, perm)
      | inr f ↦ rw (all, f, get_gold_from_safe, safe_items) (refl, Perm.refl _)
    ])
