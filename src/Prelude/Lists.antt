-- ===== src/Prelude/Lists.antt =====
-- Lists measured and indexed by native numbers, under the library's names.
use Prim.Native.Nat.{ℕ, zero, suc, ◌+◌, ◌-◌, ◌<◌, ◌≤◌, min}
use argentum_online_taller_g.Prelude.Tests.{if◌then◌else◌, Bool-cases, Option-cases}
use mathlib.Core.Bool.{Bool, true, not, ◌&&◌}
use mathlib.Core.Path.{◌≡◌, refl, ap, subst}
use mathlib.Core.Logic.{◌≢◌, inl, inr}
use mathlib.Core.List.{List, [], ◌∷◌, ◌++◌, map}
use mathlib.Core.Option.{Option, none, some, some-injective}
use native.Mathlib.Omega.{arith}

module _ {ℓ} {A : Type ℓ} where
  abbrev pub length : List A → ℕ
  length [] = 0
  length (x ∷ xs) = suc (length xs)

  abbrev pub get_elem? : List A → ℕ → Option A
  get_elem? [] i = none
  get_elem? (x ∷ xs) zero = some x
  get_elem? (x ∷ xs) (suc i) = get_elem? xs i

  -- A write out of bounds changes nothing.
  abbrev pub set : List A → ℕ → A → List A
  set [] i v = []
  set (x ∷ xs) zero v = v ∷ xs
  set (x ∷ xs) (suc i) v = x ∷ set xs i v

  pub length-append : (xs ys : List A) → length (xs ++ ys) ≡ length xs + length ys
  length-append [] ys = omega arith
  length-append (x ∷ xs) ys = omega (arith, length-append xs ys)

module _ {ℓ} {A : Type ℓ} where
  pub length-set : (xs : List A) (i : ℕ) (v : A) → length (set xs i v) ≡ length xs
  length-set [] i v = refl
  length-set (x ∷ xs) zero v = refl
  length-set (x ∷ xs) (suc i) v = ap suc (length-set xs i v)

  pub get_elem?-set_self :
      (xs : List A) (i : ℕ) (v : A) → i < length xs → get_elem? (set xs i v) i ≡ some v
  get_elem?-set_self [] i v h = elim h [ ]
  get_elem?-set_self (x ∷ xs) zero v h = refl
  get_elem?-set_self (x ∷ xs) (suc i) v h = get_elem?-set_self xs i v (omega arith)

  pub get_elem?-set_ne :
      (xs : List A) {i j : ℕ} (v : A) → i ≢ j → get_elem? (set xs i v) j ≡ get_elem? xs j
  get_elem?-set_ne [] v h = refl
  get_elem?-set_ne (x ∷ xs) {i = zero} {j = zero} v h = absurd (h refl)
  get_elem?-set_ne (x ∷ xs) {i = zero} {j = suc j} v h = refl
  get_elem?-set_ne (x ∷ xs) {i = suc i} {j = zero} v h = refl
  get_elem?-set_ne (x ∷ xs) {i = suc i} {j = suc j} v h = get_elem?-set_ne xs v (λ e. h (ap suc e))

module _ {ℓ} {A : Type ℓ} where
  abbrev pub get_or : List A → ℕ → A → A
  get_or [] i d = d
  get_or (x ∷ xs) zero d = x
  get_or (x ∷ xs) (suc i) d = get_or xs i d

  abbrev pub take : ℕ → List A → List A
  take zero xs = []
  take (suc n) [] = []
  take (suc n) (x ∷ xs) = x ∷ take n xs

  abbrev pub drop : ℕ → List A → List A
  drop zero xs = xs
  drop (suc n) [] = []
  drop (suc n) (x ∷ xs) = drop n xs

  abbrev pub replicate : ℕ → A → List A
  replicate zero a = []
  replicate (suc n) a = a ∷ replicate n a

  pub take-append-drop : (n : ℕ) (xs : List A) → take n xs ++ drop n xs ≡ xs
  take-append-drop zero xs = refl
  take-append-drop (suc n) [] = refl
  take-append-drop (suc n) (x ∷ xs) = rw (take-append-drop n xs)

  pub length-take : (n : ℕ) (xs : List A) → length (take n xs) ≡ min n (length xs)
  length-take zero xs = omega arith
  length-take (suc n) [] = omega arith
  length-take (suc n) (x ∷ xs) = omega (arith, length-take n xs)

  pub length-drop : (n : ℕ) (xs : List A) → length (drop n xs) ≡ length xs - n
  length-drop zero xs = omega arith
  length-drop (suc n) [] = omega arith
  length-drop (suc n) (x ∷ xs) = omega (arith, length-drop n xs)

  pub length-replicate : (n : ℕ) (a : A) → length (replicate n a) ≡ n
  length-replicate zero a = refl
  length-replicate (suc n) a = ap suc (length-replicate n a)

  pub length-map {κ} : {B : Type κ} (xs : List A) (f : A → B) → length (map f xs) ≡ length xs
  length-map [] f = refl
  length-map (x ∷ xs) f = ap suc (length-map xs f)

module _ {ℓ} {A : Type ℓ} where
  -- The index of the first element that passes the test: `none` is the loops' -1.
  unfoldable pub find_index : (A → Bool) → List A → Option ℕ
  find_index p [] = none
  find_index p (x ∷ xs) =
      let rest = find_index p xs in
      if p x then some 0 else elim rest [ none ↦ none | some i ↦ some (suc i) ]

  -- `std::find_if` and its element.
  unfoldable pub find_first : (A → Bool) → List A → Option A
  find_first p [] = none
  find_first p (x ∷ xs) = let rest = find_first p xs in if p x then some x else rest

  -- `std::count_if`.
  unfoldable pub count_if : (A → Bool) → List A → ℕ
  count_if p [] = 0
  count_if p (x ∷ xs) = (if p x then 1 else 0) + count_if p xs

  pub find_first-holds :
      (p : A → Bool) (xs : List A) (x : A) → find_first p xs ≡ some x → p x ≡ true
  unfolding find_first
  find_first-holds p [] x e = cc
  find_first-holds p (y ∷ xs) x e = ground (arith, find_first-holds p xs x)

  -- What is at the index that `find_index` returns.
  pub find_index-get_elem? :
      (p : A → Bool) (xs : List A) (i : ℕ)
      → find_index p xs ≡ some i
      → (x : A) × (get_elem? xs i ≡ some x) × (p x ≡ true)
  unfolding find_index
  find_index-get_elem? p [] i e = cc
  find_index-get_elem? p (x ∷ xs) i e = elim (Bool-cases (p x)) [
    | inl t ↦
        let first : ◌≡◌ {A = Option ℕ} (some 0) (some i) = rw t at e in
        rw (← some-injective _ _ first) (x, refl, t)
    | inr f ↦ elim (Option-cases (find_index p xs)) [
      | inl n ↦ absurd (let gone : ◌≡◌ {A = Option ℕ} none (some i) = rw (f, n) at e in cc)
      | inr (j, h) ↦
          let next : ◌≡◌ {A = Option ℕ} (some (suc j)) (some i) = rw (f, h) at e in
          rw (← some-injective _ _ next) (find_index-get_elem? p xs j h)
    ]
  ]

  pub find_index-none : (p : A → Bool) (xs : List A) → find_index p xs ≡ none → count_if p xs ≡ 0
  unfolding find_index count_if
  find_index-none p [] e = refl
  find_index-none p (x ∷ xs) e = ground (arith, find_index-none p xs)

  pub find_index-count_if :
      (p : A → Bool) (xs : List A) (i : ℕ) → find_index p xs ≡ some i → 0 < count_if p xs
  unfolding find_index count_if
  find_index-count_if p [] i e = cc
  find_index-count_if p (x ∷ xs) i e = elim (Option-cases (find_index p xs)) [
    | inl n ↦ ground arith
    | inr (j, h) ↦ ground (arith, find_index-count_if p xs j h)
  ]

  pub count_if-set :
      (p : A → Bool) (xs : List A) (i : ℕ) (v x : A)
      → get_elem? xs i ≡ some x
      → count_if p (set xs i v) + (if p x then 1 else 0) ≡ count_if p xs + (if p v then 1 else 0)
  unfolding count_if
  count_if-set p [] i v x e = cc
  count_if-set p (y ∷ xs) zero v x e = ground arith
  count_if-set p (y ∷ xs) (suc i) v x e = omega (arith, count_if-set p xs i v x e)

  -- A predicate on every element.
  abbrev pub All {κ} : (A → Type κ) → List A → Type κ
  All P [] = Unit
  All P (x ∷ xs) = P x × All P xs

  pub All-set {κ} :
      (P : A → Type κ) (xs : List A) (i : ℕ) (v : A) → All P xs → P v → All P (set xs i v)
  All-set P [] i v h k = h
  All-set P (x ∷ xs) zero v h k = (k, h.1)
  All-set P (x ∷ xs) (suc i) v h k = (h.0, All-set P xs i v h.1 k)

  pub All-get_elem? {κ} :
      (P : A → Type κ) (xs : List A) (i : ℕ) (x : A) → All P xs → get_elem? xs i ≡ some x → P x
  All-get_elem? P [] i x h e = absurd (cc)
  All-get_elem? P (y ∷ xs) zero x h e = subst P (some-injective _ _ e) h.0
  All-get_elem? P (y ∷ xs) (suc i) x h e = All-get_elem? P xs i x h.1 e

  unfoldable pub sum_by : (A → ℕ) → List A → ℕ
  sum_by f [] = 0
  sum_by f (x ∷ xs) = f x + sum_by f xs

  pub sum_by-set :
      (f : A → ℕ) (xs : List A) (i : ℕ) (v x : A)
      → get_elem? xs i ≡ some x
      → sum_by f (set xs i v) + f x ≡ sum_by f xs + f v
  unfolding sum_by
  sum_by-set f [] i v x e = cc
  sum_by-set f (y ∷ xs) zero v x e = let h : y ≡ x = some-injective _ _ e in rw h (omega arith)
  sum_by-set f (y ∷ xs) (suc i) v x e = omega (arith, sum_by-set f xs i v x e)

  pub count_if-pos :
      (p : A → Bool) (xs : List A) (i : ℕ) (x : A)
      → get_elem? xs i ≡ some x
      → p x ≡ true
      → 0 < count_if p xs
  unfolding count_if
  count_if-pos p [] i x e h = cc
  count_if-pos p (y ∷ xs) zero x e h =
      let f : y ≡ x = some-injective _ _ e in rw (f, h) (omega arith)
  count_if-pos p (y ∷ xs) (suc i) x e h = omega (arith, count_if-pos p xs i x e h)

  -- Where at most one element passes the test, there is one index for it.
  pub unique_index :
      (p : A → Bool) (xs : List A) (i j : ℕ) (x y : A)
      → count_if p xs ≤ 1
      → get_elem? xs i ≡ some x
      → p x ≡ true
      → get_elem? xs j ≡ some y
      → p y ≡ true
      → i ≡ j
  unfolding count_if
  unique_index p [] i j x y c e h f k = cc
  unique_index p (z ∷ xs) zero zero x y c e h f k = refl
  unique_index p (z ∷ xs) zero (suc j) x y c e h f k =
      let g : z ≡ x = some-injective _ _ e in
      absurd (ground (arith, count_if-pos p xs j y f k, g, h, c))
  unique_index p (z ∷ xs) (suc i) zero x y c e h f k =
      let g : z ≡ y = some-injective _ _ f in
      absurd (ground (arith, count_if-pos p xs i x e h, g, k, c))
  unique_index p (z ∷ xs) (suc i) (suc j) x y c e h f k =
      ap suc (unique_index p xs i j x y (omega arith) e h f k)

  pub count_if-split :
      (p q : A → Bool) (xs : List A)
      → count_if p xs ≡ count_if (λ x. p x && not (q x)) xs + count_if (λ x. p x && q x) xs
  unfolding count_if
  count_if-split p q [] = omega arith
  count_if-split p q (x ∷ xs) = ground (arith, count_if-split p q xs)

  pub All-find_first {κ} :
      (P : A → Type κ) (p : A → Bool) (xs : List A) (x : A)
      → All P xs
      → find_first p xs ≡ some x
      → P x
  unfolding find_first
  All-find_first P p [] x h e = absurd (cc)
  All-find_first P p (y ∷ xs) x h e = elim (Bool-cases (p y)) [
    | inl t ↦ subst P (some-injective _ _ (rw t at e)) h.0
    | inr f ↦ All-find_first P p xs x h.1 (rw f at e)
  ]
