-- ===== src/Queue/Order.antt =====
-- common/queue.h: what a queue stores and hands out over a sequence of steps.
use argentum_online_taller_g.Prelude.{
  ◌≤◌, ◌<◌, ◌+◌, ◌≡◌, refl, sym, ◌∙◌, ap, true, List, [], ◌∷◌, ◌++◌, arith, length,
}
use argentum_online_taller_g.Queue.{
  Queue, Reply, threw, waits, stored, got, try_push, try_pop, push, push_woken, pop, close, Step,
  try_push_step, push_step, push_woken_step, try_pop_step, pop_step, close_step, step, run,
}
use mathlib.Core.List.{append_assoc, append-nil}

module _ {ℓ} {A : Type ℓ} where
  -- The value that a step offers, if the reply says that it was stored.
  unfoldable pub stored_by : Step A → Reply A → List A
  stored_by (try_push_step x) stored = x ∷ []
  stored_by (push_step x) stored = x ∷ []
  stored_by (push_woken_step x) stored = x ∷ []
  stored_by _ _ = []

  -- The value that a reply hands out.
  unfoldable pub given_by : Reply A → List A
  given_by (got x) = x ∷ []
  given_by _ = []

  -- What a run stores and what it hands out, in order.
  unfoldable pub stored_in_run : List (Step A) → Queue A → List A
  stored_in_run [] s = []
  stored_in_run (c ∷ calls) s = stored_by c (step c s).0 ++ stored_in_run calls (step c s).1

  unfoldable pub given_in_run : List (Step A) → Queue A → List A
  given_in_run [] s = []
  given_in_run (c ∷ calls) s = given_by (step c s).0 ++ given_in_run calls (step c s).1

  step_order :
      (c : Step A) (s : Queue A)
      → s.q ++ stored_by c (step c s).0 ≡ given_by (step c s).0 ++ (step c s).1.q
  unfolding step stored_by given_by try_push try_pop push push_woken pop close
  step_order (try_push_step x) s = ground (arith, append-nil s.q)
  step_order (push_step x) s = ground (arith, append-nil s.q)
  step_order (push_woken_step x) s = ground (arith, append-nil s.q)
  step_order try_pop_step s = append-nil s.q ∙ ground arith
  step_order pop_step s = append-nil s.q ∙ ground arith
  step_order close_step s = append-nil s.q

  -- First in, first out, for every sequence of steps of any threads: what the queue held and what
  -- was stored, in that order, is what was handed out and then what it holds. Nothing is lost,
  -- made up or overtaken.
  pub run-order :
      (calls : List (Step A)) (s : Queue A)
      → s.q ++ stored_in_run calls s ≡ given_in_run calls s ++ (run calls s).q
  unfolding run stored_in_run given_in_run
  run-order [] s = append-nil s.q
  run-order (c ∷ calls) s =
      let (reply, next) = step c s in
      sym (append_assoc s.q (stored_by c reply) (stored_in_run calls next))
      ∙ ap (λ l. l ++ stored_in_run calls next) (step_order c s)
      ∙ append_assoc (given_by reply) next.q (stored_in_run calls next)
      ∙ ap (λ l. given_by reply ++ l) (run-order calls next)
      ∙ sym (append_assoc (given_by reply) (given_in_run calls next) (run calls next).q)

  length_snoc : (l : List A) (x : A) → length (l ++ x ∷ []) ≡ length l + 1
  length_snoc [] x = refl
  length_snoc (y ∷ l) x = ground (arith, length_snoc l x)

  step_bound :
      (c : Step A) (s : Queue A)
      → length s.q ≤ s.max_size
      → (length (step c s).1.q ≤ s.max_size)
        × ((step c s).1.max_size ≡ s.max_size)
        × (s.closed ≡ true → (step c s).1.closed ≡ true)
  unfolding step try_push try_pop push push_woken pop close
  step_bound (try_push_step x) s h = ground (arith, length_snoc s.q x)
  step_bound (push_step x) s h = ground (arith, length_snoc s.q x)
  step_bound (push_woken_step x) s h = ground (arith, length_snoc s.q x)
  step_bound try_pop_step s h = ground arith
  step_bound pop_step s h = ground arith
  step_bound close_step s h = (h, refl, λ _. refl)

  -- A queue that is not longer than its limit never gets longer than it, and one that is closed
  -- stays closed, for every sequence of steps of any threads.
  pub run-bound :
      (calls : List (Step A)) (s : Queue A)
      → length s.q ≤ s.max_size
      → (length (run calls s).q ≤ s.max_size) × (s.closed ≡ true → (run calls s).closed ≡ true)
  unfolding run
  run-bound [] s h = (h, λ c. c)
  run-bound (c ∷ calls) s h =
      let (below, same, shut) = step_bound c s h in
      let (rest, still) = run-bound calls (step c s).1 (omega (arith, below, same)) in
      (omega (arith, rest, same), λ e. still (shut e))

  run-append :
      (before after : List (Step A)) (s : Queue A)
      → run (before ++ after) s ≡ run after (run before s)
  unfolding run
  run-append [] after s = refl
  run-append (c ∷ before) after s = run-append before after (step c s).1

  -- No step changes the limit, and no step opens a queue that is closed.
  step_keeps :
      (c : Step A) (s : Queue A)
      → ((step c s).1.max_size ≡ s.max_size) × (s.closed ≡ true → (step c s).1.closed ≡ true)
  unfolding step try_push try_pop push push_woken pop close
  step_keeps (try_push_step x) s = ground arith
  step_keeps (push_step x) s = ground arith
  step_keeps (push_woken_step x) s = ground arith
  step_keeps try_pop_step s = ground arith
  step_keeps pop_step s = ground arith
  step_keeps close_step s = (refl, λ _. refl)

  run_keeps :
      (calls : List (Step A)) (s : Queue A)
      → ((run calls s).max_size ≡ s.max_size) × (s.closed ≡ true → (run calls s).closed ≡ true)
  unfolding run
  run_keeps [] s = (refl, λ e. e)
  run_keeps (c ∷ calls) s =
      let (same, shut) = step_keeps c s in
      let (size, still) = run_keeps calls (step c s).1 in (size ∙ same, λ e. still (shut e))

  -- The queue after some steps, a `close` and some more.
  abbrev pub closed_between : List (Step A) → List (Step A) → Queue A → Queue A
  closed_between before after s = run (before ++ close_step ∷ after) s

  closed_between-closed :
      (before after : List (Step A)) (s : Queue A) → (closed_between before after s).closed ≡ true
  unfolding run step close
  closed_between-closed before after s =
      rw (run-append before (close_step ∷ after) s)
        ((run_keeps after (close (run before s))).1 refl)

  -- A `push` that has to wait stores its value when it is woken up and finds room, whatever steps
  -- other threads took in between and although a `close` was among them: the queue is closed by then,
  -- the value stands behind all others, and a `push` that starts now throws. Nothing has to be known
  -- of the queue but that the `push` waited.
  pub push_woken-closed :
      (x : A) (before after : List (Step A)) (s : Queue A)
      → push x s ≡ (waits, s)
      → length (closed_between before after s).q < s.max_size
      → let t = closed_between before after s in
        (t.closed ≡ true)
        × (push_woken x t ≡ (stored, record t { q = t.q ++ x ∷ [] }))
        × (push x t ≡ (threw, t))
  unfolding push_woken push
  push_woken-closed x before after s waited room =
      let t : Queue A = closed_between before after s in
      let shut : t.closed ≡ true = closed_between-closed before after s in
      let size : t.max_size ≡ s.max_size = (run_keeps (before ++ close_step ∷ after) s).0 in
      (shut, ground (arith, size, room), ground (arith, shut))
