-- ===== src/Registry/Lookup.antt =====
-- server/game/items/item_registry.cpp: lookups after a template was added.
use argentum_online_taller_g.Prelude.{
  ℕ, ◌≡◌, refl, sym, ◌∙◌, true, some, List, [], ◌∷◌, Bytes, bytes_eq, bytes_eq_iff, arith,
  if◌then◌else◌,
}
use argentum_online_taller_g.Text.{normalize_name}
use argentum_online_taller_g.Registry.{
  Registry, ItemTemplate, find_template, put_template, add_template, get_template, create_item,
  exists, template_kind, get_price,
}
use argentum_online_taller_g.Item.{ItemKind}

find_template-put_template :
    (k key : Bytes) (t : ItemTemplate) (ts : List (Bytes × ItemTemplate))
    → find_template key (put_template k t ts)
      ≡ (if bytes_eq k key then some t else find_template key ts)
unfolding find_template put_template
find_template-put_template k key t [] = refl
find_template-put_template k key t ((j, u) ∷ ts) = ground (
  arith,
  bytes_eq_iff j k,
  bytes_eq_iff k key,
  bytes_eq_iff j key,
  find_template-put_template k key t ts,
)

add_template-templates :
    (name : Bytes) (t : ItemTemplate) (r : Registry)
    → (add_template name t r).templates ≡ put_template (normalize_name name) t r.templates
unfolding add_template
add_template-templates name t r = ground arith

-- After a template is added under a name, it is what every spelling of the name finds, and every
-- other name finds what it found before.
pub get_template-add_template :
    (name asked : Bytes) (t : ItemTemplate) (r : Registry)
    → get_template (add_template name t r) asked ≡ (
        if bytes_eq (normalize_name name) (normalize_name asked)
        then some t
        else get_template r asked)
get_template-add_template name asked t r =
    rw (add_template-templates name t r)
      (find_template-put_template (normalize_name name) (normalize_name asked) t r.templates)

-- A template of a known type and slot that is added under a name is what an item of that name is
-- made from, in any spelling of it: the item has the template's name and kind and its price.
pub create_item-add_template :
    (name asked : Bytes) (t : ItemTemplate) (r : Registry) (address : ℕ) (kind : ItemKind)
    → normalize_name asked ≡ normalize_name name
    → template_kind t ≡ some kind
    → (create_item (add_template name t r) address asked
        ≡ some (record { address = address; name = t.name; kind = kind }))
      × (exists (add_template name t r) asked ≡ true)
      × (get_price (add_template name t r) asked ≡ t.price)
unfolding create_item exists get_price
create_item-add_template name asked t r address kind same known =
    let found : get_template (add_template name t r) asked ≡ some t =
      get_template-add_template name asked t r
      ∙ rw ((bytes_eq_iff (normalize_name name) (normalize_name asked)).1 (sym same)) refl in
    rw (found, known, create_item, exists, get_price) (refl, refl, refl)
