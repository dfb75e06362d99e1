-- ===== src/Queue.antt =====
-- common/queue.h: the bounded queue between the threads. A blocking call is its attempts: the first
-- one under the lock, and one more each time that it is woken up. The lock makes an attempt one
-- step; which thread comes next is left open.
pub mod Order
use argentum_online_taller_g.Prelude.{
  ℕ, Bool, true, false, List, [], ◌∷◌, ◌++◌, length, ◌==◌, if◌then◌else◌,
}

pub record Queue {ℓ} (A : Type ℓ) : Type ℓ where
  pub q : List A
  pub max_size : ℕ
  pub closed : Bool

-- What a call, or an attempt of it, ends with: `threw` is `ClosedQueue`.
pub data Reply {ℓ} (A : Type ℓ) : Type ℓ where
  threw waits refused stored closed_now : Reply A
  got : A → Reply A

module _ {ℓ} {A : Type ℓ} where
  unfoldable pub new_queue : ℕ → Queue A
  new_queue max_size = record { q = []; max_size = max_size; closed = false }

  abbrev is_at_limit : Queue A → Bool
  is_at_limit s = length s.q == s.max_size

  abbrev stored_in : A → Queue A → Reply A × Queue A
  stored_in x s = (stored, record s { q = s.q ++ x ∷ [] })

  unfoldable pub try_push : A → Queue A → Reply A × Queue A
  try_push x s =
      if s.closed then (threw, s) else (if is_at_limit s then (refused, s) else stored_in x s)

  unfoldable pub try_pop : Queue A → Reply A × Queue A
  try_pop s = elim s.q [
    | [] ↦ (if s.closed then threw else refused, s)
    | x ∷ xs ↦ (got x, record s { q = xs })
  ]

  unfoldable pub push : A → Queue A → Reply A × Queue A
  push x s = if s.closed then (threw, s) else (if is_at_limit s then (waits, s) else stored_in x s)

  -- A `push` that waited looks at the size again, and not at `closed`.
  unfoldable pub push_woken : A → Queue A → Reply A × Queue A
  push_woken x s = if is_at_limit s then (waits, s) else stored_in x s

  -- The first attempt and the later ones are the same.
  unfoldable pub pop : Queue A → Reply A × Queue A
  pop s = elim s.q [
    | [] ↦ (if s.closed then threw else waits, s)
    | x ∷ xs ↦ (got x, record s { q = xs })
  ]

  unfoldable pub close : Queue A → Queue A
  close s = record s { closed = true }

-- The steps that the threads take, in the order in which they hold the lock.
pub data Step {ℓ} (A : Type ℓ) : Type ℓ where
  try_push_step push_step push_woken_step : A → Step A
  try_pop_step pop_step close_step : Step A

module _ {ℓ} {A : Type ℓ} where
  unfoldable pub step : Step A → Queue A → Reply A × Queue A
  step (try_push_step x) s = try_push x s
  step (push_step x) s = push x s
  step (push_woken_step x) s = push_woken x s
  step try_pop_step s = try_pop s
  step pop_step s = pop s
  step close_step s = (closed_now, close s)

  unfoldable pub run : List (Step A) → Queue A → Queue A
  run [] s = s
  run (c ∷ calls) s = run calls (step c s).1
