-- ===== src/Prelude/Maps.antt =====
-- `std::map` and `std::set` with numbers for keys: association lists in the order of the keys,
-- which is the order in which the program walks them.
use Prim.Native.Nat.{ℕ, ◌<◌, ◌≤◌}
use mathlib.Core.Path.{◌≡◌, refl, sym, ◌∙◌, subst}
use mathlib.Core.Logic.{inl, inr, ◌⊎◌, ◌≢◌}
use mathlib.Core.Bool.{Bool, false, ◌||◌}
use mathlib.Core.Option.{Option, none, some, some-injective}
use mathlib.Core.List.{List, [], ◌∷◌}
use native.Mathlib.Omega.{arith}
use argentum_online_taller_g.Prelude.Tests.{◌==◌, ltb, if◌then◌else◌, Bool-cases}

abbrev pub Dict {ℓ} : Type ℓ → Type ℓ
Dict V = List (ℕ × V)

module _ {ℓ} {V : Type ℓ} where
  -- `m.find(k)`
  unfoldable pub lookup : ℕ → Dict V → Option V
  lookup k [] = none
  lookup k ((j, v) ∷ m) = if j == k then some v else lookup k m

  -- `m[k] = v`
  unfoldable pub insert : ℕ → V → Dict V → Dict V
  insert k v [] = (k, v) ∷ []
  insert k v ((j, w) ∷ m) =
      let rest = insert k v m in
      if j == k then (k, v) ∷ m else (if ltb k j then (k, v) ∷ (j, w) ∷ m else (j, w) ∷ rest)

  -- `m.erase(k)`
  unfoldable pub erase : ℕ → Dict V → Dict V
  erase k [] = []
  erase k ((j, w) ∷ m) = let rest = erase k m in if j == k then rest else (j, w) ∷ rest

  pub lookup-insert :
      (j k : ℕ) (v : V) (m : Dict V)
      → lookup j (insert k v m) ≡ (if k == j then some v else lookup j m)
  unfolding lookup insert
  lookup-insert j k v [] = ground arith
  lookup-insert j k v ((i, w) ∷ m) = ground (arith, lookup-insert j k v m)

  -- What is found in a map after an insertion is the new value, or what was found before.
  pub lookup_inserted :
      (j k : ℕ) (v x : V) (m : Dict V)
      → lookup j (insert k v m) ≡ some x
      → ((k ≡ j) × (v ≡ x)) ⊎ ((k ≢ j) × (lookup j m ≡ some x))
  lookup_inserted j k v x m h = elim (Bool-cases (k == j)) [
    | inl t ↦
        let found : ◌≡◌ {A = Option V} (some v) (some x) =
          sym (lookup-insert j k v m ∙ rw t refl) ∙ h in
        inl (ground (arith, t), some-injective _ _ found)
    | inr f ↦ inr (λ e. ground (arith, f, e), sym (lookup-insert j k v m ∙ rw f refl) ∙ h)
  ]

  pub lookup-erase :
      (j k : ℕ) (m : Dict V) → lookup j (erase k m) ≡ (if k == j then none else lookup j m)
  unfolding lookup erase
  lookup-erase j k [] = ground arith
  lookup-erase j k ((i, w) ∷ m) = ground (arith, lookup-erase j k m)

-- `s.count(k) > 0`
unfoldable pub member : ℕ → List ℕ → Bool
member k [] = false
member k (j ∷ s) = j == k || member k s

-- `s.insert(k)`
unfoldable pub add_member : ℕ → List ℕ → List ℕ
add_member k [] = k ∷ []
add_member k (j ∷ s) =
    let rest = add_member k s in if j == k then j ∷ s else (if ltb k j then k ∷ j ∷ s else j ∷ rest)

-- `s.erase(k)`
unfoldable pub remove_member : ℕ → List ℕ → List ℕ
remove_member k [] = []
remove_member k (j ∷ s) = let rest = remove_member k s in if j == k then rest else j ∷ rest

pub member-add_member :
    (j k : ℕ) (s : List ℕ) → member j (add_member k s) ≡ ((k == j) || member j s)
unfolding member add_member
member-add_member j k [] = ground arith
member-add_member j k (i ∷ s) = ground (arith, member-add_member j k s)

pub member-remove_member :
    (j k : ℕ) (s : List ℕ) → member j (remove_member k s) ≡ (if k == j then false else member j s)
unfolding member remove_member
member-remove_member j k [] = ground arith
member-remove_member j k (i ∷ s) = ground (arith, member-remove_member j k s)

module _ {ℓ} {V : Type ℓ} where
  -- Every key is above `k`.
  abbrev pub Above : ℕ → Dict V → Type 0
  Above k [] = Unit
  Above k ((j, v) ∷ m) = (k < j) × Above k m

  -- The keys ascend, as in a `std::map`.
  abbrev pub IsOrdered : Dict V → Type 0
  IsOrdered [] = Unit
  IsOrdered ((j, v) ∷ m) = Above j m × IsOrdered m

  Above-le : (j k : ℕ) (m : Dict V) → j ≤ k → Above k m → Above j m
  Above-le j k [] h a = tt
  Above-le j k ((i, v) ∷ m) h a = (omega (arith, a.0), Above-le j k m h a.1)

  lookup-Above : (j k : ℕ) (m : Dict V) → j ≤ k → Above k m → lookup j m ≡ none
  unfolding lookup
  lookup-Above j k [] h a = refl
  lookup-Above j k ((i, v) ∷ m) h a = ground (arith, a.0, lookup-Above j k m h a.1)

  insert-Above : (k j : ℕ) (v : V) (m : Dict V) → k < j → Above k m → Above k (insert j v m)
  unfolding insert
  insert-Above k j v [] h a = (h, tt)
  insert-Above k j v ((i, w) ∷ m) h a = elim (Bool-cases (i == j)) [
    | inl t ↦ rw t (h, a.1)
    | inr f ↦ elim (Bool-cases (ltb j i)) [
      | inl t ↦ rw (f, t) (h, a)
      | inr g ↦ rw (f, g) (a.0, insert-Above k j v m h a.1)
    ]
  ]

  pub insert-IsOrdered : (j : ℕ) (v : V) (m : Dict V) → IsOrdered m → IsOrdered (insert j v m)
  unfolding insert
  insert-IsOrdered j v [] o = (tt, tt)
  insert-IsOrdered j v ((i, w) ∷ m) o = elim (Bool-cases (i == j)) [
    | inl t ↦ rw t (Above-le j i m (ground arith) o.0, o.1)
    | inr f ↦ elim (Bool-cases (ltb j i)) [
      | inl t ↦ rw (f, t) ((ground arith, Above-le j i m (ground arith) o.0), o)
      | inr g ↦ rw (f, g) (insert-Above i j v m (ground arith) o.0, insert-IsOrdered j v m o.1)
    ]
  ]

  -- What stands under a key in the rest of a map is what a search in the whole map finds.
  pub lookup-rest :
      (i j : ℕ) (v w : V) (m : Dict V)
      → IsOrdered ((i, v) ∷ m)
      → lookup j m ≡ some w
      → lookup j ((i, v) ∷ m) ≡ some w
  unfolding lookup
  lookup-rest i j v w m o h = elim (Bool-cases (ltb i j)) [
    | inl t ↦ ground (arith, h)
    | inr f ↦
        let missing : lookup j m ≡ none = lookup-Above j i m (ground arith) o.0 in
        absurd (cc (missing, h))
  ]

  -- Each entry of a map has a property.
  abbrev pub Each {κ} : (ℕ → V → Type κ) → Dict V → Type κ
  Each P [] = Unit
  Each P ((k, v) ∷ m) = P k v × Each P m

  pub Each-lookup {κ} :
      (P : ℕ → V → Type κ) (m : Dict V) (k : ℕ) (v : V) → Each P m → lookup k m ≡ some v → P k v
  unfolding lookup
  Each-lookup P [] k v e h = absurd (cc (h))
  Each-lookup P ((j, w) ∷ m) k v e h = elim (Bool-cases (j == k)) [
    | inl t ↦
        let found : ◌≡◌ {A = Option V} (some w) (some v) = rw t at h in
        let key : j ≡ k = ground (arith, t) in
        subst (P k) (some-injective _ _ found) (subst (λ i. P i w) key e.0)
    | inr f ↦ Each-lookup P m k v e.1 (rw f at h)
  ]
