-- ===== src/Examples/Queues.antt =====
-- A queue for two values: a third push waits, a pop makes room, the queue is closed and the push
-- that waited stores its value.
use argentum_online_taller_g.Prelude.{
  ℕ, ◌≤◌, ◌<◌, ◌≡◌, refl, true, false, List, [], ◌∷◌, ◌++◌, arith, length,
}
use argentum_online_taller_g.Queue.{
  Queue, Step, push_step, push_woken_step, pop_step, close_step, try_push_step, run, step, pop,
  close, try_push, push, push_woken, stored, threw, waits,
}
use argentum_online_taller_g.Queue.Order.{
  stored_in_run, given_in_run, run-order, run-bound, closed_between, push_woken-closed,
}

abbrev history : List (Step ℕ)
history =
    push_step 1
    ∷ push_step 2
    ∷ push_step 3
    ∷ pop_step
    ∷ close_step
    ∷ push_woken_step 3
    ∷ pop_step
    ∷ []

abbrev pair : Queue ℕ
pair = record { q = []; max_size = 2; closed = false }

run-order_example :
    pair.q ++ stored_in_run history pair ≡ given_in_run history pair ++ (run history pair).q
run-order_example = run-order history pair

run-bound_example :
    (length (run history pair).q ≤ 2) × (pair.closed ≡ true → (run history pair).closed ≡ true)
run-bound_example = run-bound history pair (ground arith)

abbrev full_pair : Queue ℕ
full_pair = record { q = 1 ∷ 2 ∷ []; max_size = 2; closed = false }

full_pair_waits : push 3 full_pair ≡ (waits, full_pair)
unfolding push
full_pair_waits = refl

room_again : length (closed_between (pop_step ∷ []) (try_push_step 4 ∷ []) full_pair).q < 2
unfolding run step pop close try_push
room_again = ground arith

push_woken-closed_example :
    let t = closed_between (pop_step ∷ []) (try_push_step 4 ∷ []) full_pair in
    (t.closed ≡ true)
    × (push_woken 3 t ≡ (stored, record t { q = t.q ++ 3 ∷ [] }))
    × (push 3 t ≡ (threw, t))
push_woken-closed_example =
    push_woken-closed 3 (pop_step ∷ []) (try_push_step 4 ∷ []) full_pair full_pair_waits room_again
