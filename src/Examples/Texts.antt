-- ===== src/Examples/Texts.antt =====
-- Names on concrete texts, and the registry on one template.
use argentum_online_taller_g.Prelude.{◌≡◌, refl, [], ◌∷◌, some, true, Bytes, bytes_eq}
use argentum_online_taller_g.Text.{normalize_name}
use argentum_online_taller_g.Text.Normal.{
  IsNormal, normalize_name-IsNormal, normalize_name-idempotent,
}
use argentum_online_taller_g.Item.{consumable, health}
use argentum_online_taller_g.Prelude.Int.{pos}
use argentum_online_taller_g.Registry.{create_item, exists, get_price, add_template, template_kind}
use argentum_online_taller_g.Registry.Lookup.{create_item-add_template}
use argentum_online_taller_g.Examples.{potion_name, potion_template, goods}

-- "POCIÓN".
abbrev loud_potion : Bytes
loud_potion = b'P' ∷ b'O' ∷ b'C' ∷ b'I' ∷ 0xC3 ∷ 0x93 ∷ b'N' ∷ []

normalize_name-IsNormal_example : IsNormal (normalize_name loud_potion)
normalize_name-IsNormal_example = normalize_name-IsNormal loud_potion

normalize_name-idempotent_example :
    normalize_name (normalize_name loud_potion) ≡ normalize_name loud_potion
normalize_name-idempotent_example = normalize_name-idempotent loud_potion

same_potion : normalize_name loud_potion ≡ normalize_name potion_name
unfolding normalize_name
same_potion = refl

potion_kind : template_kind potion_template ≡ some (consumable health (pos 10))
unfolding template_kind bytes_eq
potion_kind = refl

create_item-add_template_example :
    (create_item (add_template potion_name potion_template goods) 4 loud_potion
      ≡ some (record { address = 4; name = potion_name; kind = consumable health (pos 10) }))
    × (exists (add_template potion_name potion_template goods) loud_potion ≡ true)
    × (get_price (add_template potion_name potion_template goods) loud_potion ≡ 20)
create_item-add_template_example =
    create_item-add_template potion_name loud_potion potion_template goods 4
      (consumable health (pos 10)) same_potion potion_kind
