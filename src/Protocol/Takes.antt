-- ===== src/Protocol/Takes.antt =====
-- server/server_protocol.cpp: what is received is taken from the stream.
use argentum_online_taller_g.Prelude.{
  ℕ, zero, suc, ◌+◌, ◌*◌, ◌^◌, ◌≤◌, ◌≡◌, refl, sym, ◌∙◌, ap, Bool, true, false, Option, none, some,
  [], ◌∷◌, Bytes, length, if◌then◌else◌, Option-cases, inl, inr, arith,
}
use mathlib.Core.Option.{some-injective}
use argentum_online_taller_g.Protocol.Wire.{
  Recv, ◌>>=◌, give, throw_error, recv_u8, recv_u16, recv_u32, recv_i32, recv_bytes, recv_string,
}
use argentum_online_taller_g.Protocol.Reads.{bind_some}
use argentum_online_taller_g.Protocol.Commands.{
  to_race, to_class, to_direction, recv_create_match_payload, recv_select_race_class_payload,
  recv_move_payload, recv_attack_payload, recv_drop_item_payload, recv_equip_item_payload,
  recv_interact_payload, recv_clan_payload, recv_chat_payload, recv_private_chat_payload,
  recv_cheat_payload,
}

-- What is left is no longer than what there was.
pub record Takes {A : Type 0} (r : Recv A) : Type 0 where
  pub at : (b t : Bytes) (a : A) → r b ≡ some (a, t) → length t ≤ length b

module _ {A : Type 0} where
  same_rest :
      (a x : A) (t b : Bytes) → ◌≡◌ {A = Option (A × Bytes)} (some (x, b)) (some (a, t)) → b ≡ t
  same_rest a x t b e = ap (λ p. p.1) (some-injective (x, b) (a, t) e)

  pub Takes-give : (a : A) → Takes (give a)
  unfolding give
  Takes-give x = record {
    at = λ b t a e. let s : b ≡ t = same_rest a x t b e in rw s (omega arith);
  }

  pub Takes-throw_error : Takes (throw_error {A = A})
  unfolding throw_error
  Takes-throw_error = record { at = λ b t x e. ground (arith, e) }

  pub Takes-if : (q : Bool) (r u : Recv A) → Takes r → Takes u → Takes (if q then r else u)
  Takes-if true r u x y = x
  Takes-if false r u x y = y

module _ {A B : Type 0} where
  pub Takes-bind :
      (r : Recv A) (k : A → Recv B) → Takes r → ((a : A) → Takes (k a)) → Takes (r >>= k)
  unfolding ◌>>=◌
  Takes-bind r k x y = record {
    at = λ b t z e. elim (Option-cases (r b)) [
      | inl n ↦ let f : (r >>= k) b ≡ none = rw (n, ◌>>=◌) refl in ground (arith, sym f ∙ e)
      | inr ((a, u), f) ↦
          let less : length t ≤ length u = (y a).at u t z (sym (bind_some r k f) ∙ e) in
          let more : length u ≤ length b = x.at b u a f in omega (arith, less, more)
    ];
  }

pub Takes-recv_u8 : Takes recv_u8
unfolding recv_u8
Takes-recv_u8 = record { at = go }
  where
    go : (b t : Bytes) (a : ℕ) → recv_u8 b ≡ some (a, t) → length t ≤ length b
    go [] t a e = ground (arith, e)
    go (x ∷ b) t a e = let s : b ≡ t = same_rest a x t b e in rw s (omega arith)

Takes-recv_u32 : Takes recv_u32
unfolding recv_u32
Takes-recv_u32 = record { at = go }
  where
    go : (b t : Bytes) (a : ℕ) → recv_u32 b ≡ some (a, t) → length t ≤ length b
    go (x ∷ y ∷ z ∷ w ∷ b) t a e =
        let s : b ≡ t = same_rest a (x * 2 ^ 24 + y * 2 ^ 16 + z * 256 + w) t b e in
        rw s (omega arith)
    go [] t a e = ground (arith, e)
    go (x ∷ []) t a e = ground (arith, e)
    go (x ∷ y ∷ []) t a e = ground (arith, e)
    go (x ∷ y ∷ z ∷ []) t a e = ground (arith, e)

Takes-recv_u16 : Takes recv_u16
unfolding recv_u16
Takes-recv_u16 = record { at = go }
  where
    go : (b t : Bytes) (a : ℕ) → recv_u16 b ≡ some (a, t) → length t ≤ length b
    go (x ∷ y ∷ b) t a e = let s : b ≡ t = same_rest a (x * 256 + y) t b e in rw s (omega arith)
    go [] t a e = ground (arith, e)
    go (x ∷ []) t a e = ground (arith, e)

Takes-recv_bytes : (n : ℕ) → Takes (recv_bytes n)
unfolding recv_bytes
Takes-recv_bytes n = record { at = go n }
  where
    go : (n : ℕ) (b t a : Bytes) → recv_bytes n b ≡ some (a, t) → length t ≤ length b
    go zero b t a e = let s : b ≡ t = same_rest a [] t b e in rw s (omega arith)
    go (suc n) [] t a e = ground (arith, e)
    go (suc n) (x ∷ b) t a e = elim (Option-cases (recv_bytes n b)) [
      | inl f ↦ let g : recv_bytes (suc n) (x ∷ b) ≡ none = rw f refl in ground (arith, sym g ∙ e)
      | inr ((w, u), f) ↦
          let g : recv_bytes (suc n) (x ∷ b) ≡ some (x ∷ w, u) = rw f refl in
          let s : u ≡ t = same_rest a (x ∷ w) t u (sym g ∙ e) in
          let less : length t ≤ length b = rw (sym s) (go n b u w f) in omega (arith, less)
    ]

ruleset takes_rules = (
  Takes-give, Takes-throw_error, Takes-if, Takes-bind, Takes-recv_u8, Takes-recv_u16,
  Takes-recv_u32, Takes-recv_bytes,
)

Takes-recv_i32 : Takes recv_i32
unfolding recv_i32
Takes-recv_i32 = search takes_rules

pub Takes-recv_string : Takes recv_string
unfolding recv_string
Takes-recv_string = search takes_rules

pub Takes-recv_join_match_payload : Takes recv_u32
Takes-recv_join_match_payload = Takes-recv_u32

pub Takes-recv_create_match_payload : Takes recv_create_match_payload
unfolding recv_create_match_payload
Takes-recv_create_match_payload = search (takes_rules, Takes-recv_string)

pub Takes-recv_select_race_class_payload : Takes recv_select_race_class_payload
unfolding recv_select_race_class_payload to_race to_class
Takes-recv_select_race_class_payload = search takes_rules depth 20

pub Takes-recv_move_payload : (pid : ℕ) → Takes (recv_move_payload pid)
unfolding recv_move_payload to_direction
Takes-recv_move_payload pid = search takes_rules depth 20

pub Takes-recv_attack_payload : (pid : ℕ) → Takes (recv_attack_payload pid)
unfolding recv_attack_payload
Takes-recv_attack_payload pid = search takes_rules

pub Takes-recv_drop_item_payload : (pid : ℕ) → Takes (recv_drop_item_payload pid)
unfolding recv_drop_item_payload
Takes-recv_drop_item_payload pid = search takes_rules

pub Takes-recv_equip_item_payload : (pid : ℕ) → Takes (recv_equip_item_payload pid)
unfolding recv_equip_item_payload
Takes-recv_equip_item_payload pid = search takes_rules

pub Takes-recv_interact_payload : (pid : ℕ) → Takes (recv_interact_payload pid)
unfolding recv_interact_payload
Takes-recv_interact_payload pid = search (takes_rules, Takes-recv_string, Takes-recv_i32) depth 20

pub Takes-recv_clan_payload : (pid : ℕ) → Takes (recv_clan_payload pid)
unfolding recv_clan_payload
Takes-recv_clan_payload pid = search (takes_rules, Takes-recv_string)

pub Takes-recv_chat_payload : (pid : ℕ) (nick : Bytes) → Takes (recv_chat_payload pid nick)
unfolding recv_chat_payload
Takes-recv_chat_payload pid nick = search (takes_rules, Takes-recv_string)

pub Takes-recv_private_chat_payload :
    (pid : ℕ) (nick : Bytes) → Takes (recv_private_chat_payload pid nick)
unfolding recv_private_chat_payload
Takes-recv_private_chat_payload pid nick = search (takes_rules, Takes-recv_string)

pub Takes-recv_cheat_payload : (pid : ℕ) → Takes (recv_cheat_payload pid)
unfolding recv_cheat_payload
Takes-recv_cheat_payload pid = search takes_rules

pub ruleset payload_rules = (
  Takes-give, Takes-recv_move_payload, Takes-recv_attack_payload, Takes-recv_drop_item_payload,
  Takes-recv_equip_item_payload, Takes-recv_interact_payload, Takes-recv_clan_payload,
  Takes-recv_chat_payload, Takes-recv_private_chat_payload, Takes-recv_cheat_payload,
)
