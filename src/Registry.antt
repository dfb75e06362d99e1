-- ===== src/Registry.antt =====
-- server/game/items/item_registry.cpp: the templates of the items, under their normalised names.
pub mod Lookup
use argentum_online_taller_g.Prelude.{
  ℕ, Bool, true, false, ◌&&◌, Option, none, some, List, [], ◌∷◌, ◌++◌, Bytes, bytes_eq,
  if◌then◌else◌,
}
use argentum_online_taller_g.Prelude.Int.{ℤ}
use argentum_online_taller_g.Text.{normalize_name}
use argentum_online_taller_g.Item.{
  Item, EquipmentSlot, armor, helmet, shield, ItemKind, plain_weapon, magic_weapon, defensive,
  consumable, ConsumableType, health, mana, Spell,
}

pub record ItemTemplate : Type 0 where
  pub name : Bytes
  pub type : Bytes
  pub min_damage : ℤ
  pub max_damage : ℤ
  pub ranged : Bool
  pub min_defense : ℤ
  pub max_defense : ℤ
  pub slot : Bytes
  pub consumable_type : Bytes
  pub restore : ℤ
  pub spell_name : Bytes
  pub min_heal : ℤ
  pub max_heal : ℤ
  pub mana_cost : ℤ
  pub price : ℕ

pub record Registry : Type 0 where
  pub templates : List (Bytes × ItemTemplate)
  pub potion_keys : List Bytes
  pub magic_weapon_keys : List Bytes
  pub weapon_keys : List Bytes
  pub defensive_keys : List Bytes
  pub other_keys : List Bytes

-- The words that the code compares with.
abbrev pub weapon_word : Bytes
weapon_word = b'w' ∷ b'e' ∷ b'a' ∷ b'p' ∷ b'o' ∷ b'n' ∷ []

abbrev pub magic_weapon_word : Bytes
magic_weapon_word = b'm' ∷ b'a' ∷ b'g' ∷ b'i' ∷ b'c' ∷ b'_' ∷ weapon_word

abbrev pub defensive_word : Bytes
defensive_word = b'd' ∷ b'e' ∷ b'f' ∷ b'e' ∷ b'n' ∷ b's' ∷ b'i' ∷ b'v' ∷ b'e' ∷ []

abbrev pub consumable_word : Bytes
consumable_word = b'c' ∷ b'o' ∷ b'n' ∷ b's' ∷ b'u' ∷ b'm' ∷ b'a' ∷ b'b' ∷ b'l' ∷ b'e' ∷ []

abbrev pub armor_word : Bytes
armor_word = b'a' ∷ b'r' ∷ b'm' ∷ b'o' ∷ b'r' ∷ []

abbrev pub helmet_word : Bytes
helmet_word = b'h' ∷ b'e' ∷ b'l' ∷ b'm' ∷ b'e' ∷ b't' ∷ []

abbrev pub shield_word : Bytes
shield_word = b's' ∷ b'h' ∷ b'i' ∷ b'e' ∷ b'l' ∷ b'd' ∷ []

abbrev pub health_word : Bytes
health_word = b'h' ∷ b'e' ∷ b'a' ∷ b'l' ∷ b't' ∷ b'h' ∷ []

-- `templates.find`, and `templates[key] = tpl`.
unfoldable pub find_template : Bytes → List (Bytes × ItemTemplate) → Option ItemTemplate
find_template key [] = none
find_template key ((k, t) ∷ ts) = if bytes_eq k key then some t else find_template key ts

unfoldable pub put_template :
    Bytes → ItemTemplate → List (Bytes × ItemTemplate) → List (Bytes × ItemTemplate)
put_template key tpl [] = (key, tpl) ∷ []
put_template key tpl ((k, t) ∷ ts) =
    let rest = put_template key tpl ts in if bytes_eq k key then (k, tpl) ∷ ts else (k, t) ∷ rest

unfoldable pub add_template : Bytes → ItemTemplate → Registry → Registry
unfolding put_template
add_template name tpl r =
    let stored = record r { templates = put_template (normalize_name name) tpl r.templates } in
    if bytes_eq tpl.type consumable_word
    then record stored { potion_keys = r.potion_keys ++ name ∷ [] }
    else if bytes_eq tpl.type magic_weapon_word
    then record stored { magic_weapon_keys = r.magic_weapon_keys ++ name ∷ [] }
    else if bytes_eq tpl.type weapon_word
    then record stored { weapon_keys = r.weapon_keys ++ name ∷ [] }
    else if bytes_eq tpl.type defensive_word
    then record stored { defensive_keys = r.defensive_keys ++ name ∷ [] }
    else record stored { other_keys = r.other_keys ++ name ∷ [] }

abbrev pub get_template : Registry → Bytes → Option ItemTemplate
get_template r name = find_template (normalize_name name) r.templates

-- `none` is the exception for a slot that is none.
unfoldable pub read_slot : Bytes → Option EquipmentSlot
read_slot w =
    if bytes_eq w armor_word
    then some armor
    else if bytes_eq w helmet_word
    then some helmet
    else if bytes_eq w shield_word
    then some shield
    else none

-- `none` is the exception for a slot or a type that is none.
unfoldable pub template_kind : ItemTemplate → Option ItemKind
unfolding read_slot
template_kind t =
    if bytes_eq t.type weapon_word
    then some (plain_weapon t.min_damage t.max_damage t.ranged)
    else if bytes_eq t.type defensive_word
    then elim (read_slot t.slot) [
      | none ↦ none
      | some s ↦ some (defensive t.min_defense t.max_defense s)
    ]
    else if bytes_eq t.type consumable_word
    then some
        (consumable (if bytes_eq t.consumable_type health_word then health else mana) t.restore)
    else if bytes_eq t.type magic_weapon_word
    then some (
        magic_weapon
          (record {
            name = t.spell_name;
            min_damage = t.min_damage;
            max_damage = t.max_damage;
            min_heal = t.min_heal;
            max_heal = t.max_heal;
          })
          t.mana_cost)
    else none

-- The new item stands at `address`; `none` is an exception.
unfoldable pub create_item : Registry → ℕ → Bytes → Option Item
create_item r address name = elim (get_template r name) [
  | none ↦ none
  | some t ↦ elim (template_kind t) [
    | none ↦ none
    | some kind ↦ some (record { address = address; name = t.name; kind = kind })
  ]
]

unfoldable pub exists : Registry → Bytes → Bool
exists r name = elim (get_template r name) [ none ↦ false | some _ ↦ true ]

unfoldable pub has_type : Registry → Bytes → Bytes → Bool
has_type r type name = elim (get_template r name) [ none ↦ false | some t ↦ bytes_eq t.type type ]

abbrev pub is_potion : Registry → Bytes → Bool
is_potion r name = has_type r consumable_word name

abbrev pub is_magic_weapon : Registry → Bytes → Bool
is_magic_weapon r name = has_type r magic_weapon_word name

unfoldable pub get_price : Registry → Bytes → ℕ
get_price r name = elim (get_template r name) [ none ↦ 0 | some t ↦ t.price ]

unfoldable pub get_display_name : Registry → Bytes → Bytes
get_display_name r name = elim (get_template r name) [ none ↦ name | some t ↦ t.name ]
