-- ===== src/Bank.antt =====
-- server/game/bank.cpp: the safe of each player.
pub mod Laws
use argentum_online_taller_g.Prelude.{
  ℕ, ◌+◌, ◌-◌, ◌%◌, Bool, true, false, ◌&&◌, Option, none, some, List, [], ◌∷◌, ◌++◌, Bytes,
  bytes_eq, ltb, ◌==◌, if◌then◌else◌, Dict, lookup, insert, map,
}
use argentum_online_taller_g.Text.{normalize_name}
use argentum_online_taller_g.Item.{Item}
use argentum_online_taller_g.Player.Formulas.{u64_mod}

pub record BankSafe : Type 0 where
  pub items : List Item
  pub gold : ℕ

abbrev pub Bank : Type 0
Bank = Dict BankSafe

abbrev pub empty_safe : BankSafe
empty_safe = record { items = []; gold = 0 }

-- `safes[player_id]`, which makes the entry that is missing.
unfoldable pub get_or_create_safe : Bank → ℕ → BankSafe
get_or_create_safe bank player_id = elim (lookup player_id bank) [ none ↦ empty_safe | some s ↦ s ]

unfoldable pub deposit_gold : ℕ → ℕ → Bank → Bool × Bank
unfolding get_or_create_safe
deposit_gold player_id amount bank =
    if amount == 0
    then (false, bank)
    else let safe = get_or_create_safe bank player_id in
      (true, insert player_id (record safe { gold = (safe.gold + amount) % u64_mod }) bank)

unfoldable pub withdraw_gold : ℕ → ℕ → Bank → Bool × Bank
withdraw_gold player_id amount bank = elim (lookup player_id bank) [
  | none ↦ (false, bank)
  | some safe ↦
      if ltb safe.gold amount
      then (false, bank)
      else (true, insert player_id (record safe { gold = safe.gold - amount }) bank)
]

unfoldable pub get_gold_from_safe : ℕ → Bank → ℕ
get_gold_from_safe player_id bank = elim (lookup player_id bank) [
  | none ↦ 0
  | some safe ↦ safe.gold
]

unfoldable pub deposit_item : ℕ → Option Item → Bank → Bool × Bank
unfolding get_or_create_safe
deposit_item player_id none bank = (false, bank)
deposit_item player_id (some item) bank =
    let safe = get_or_create_safe bank player_id in
    (true, insert player_id (record safe { items = safe.items ++ item ∷ [] }) bank)

-- The first item of that name, and the items without it.
unfoldable pub take_named : Bytes → List Item → Option (Item × List Item)
take_named name_norm [] = none
take_named name_norm (i ∷ items) =
    let rest : Option (Item × List Item) = elim (take_named name_norm items) [
      | none ↦ none
      | some (j, left) ↦ some (j, i ∷ left)
    ] in
    if bytes_eq (normalize_name i.name) name_norm then some (i, items) else rest

unfoldable pub withdraw_item : ℕ → Bytes → Bank → Option Item × Bank
unfolding take_named
withdraw_item player_id item_name bank = elim (lookup player_id bank) [
  | none ↦ (none, bank)
  | some safe ↦ elim (take_named (normalize_name item_name) safe.items) [
    | none ↦ (none, bank)
    | some (item, left) ↦ (some item, insert player_id (record safe { items = left }) bank)
  ]
]

unfoldable pub list_items_from_safe : ℕ → Bank → List Bytes
list_items_from_safe player_id bank = elim (lookup player_id bank) [
  | none ↦ []
  | some safe ↦ map (λ (i : Item). i.name) safe.items
]
