-- ===== src/WaitFree/Tests.antt =====
-- `WaitFreeQueue` of wait_free_queue.h with three slots.
use deribit_trading_system.Base.{ℕ, ◌≡◌, ◌≢◌, refl, false, List, [], ◌∷◌, ◌++◌, arith}
use deribit_trading_system.WaitFree.{
  WaitFreeQueue, next, init, enqueue, dequeue, write_slot, publish, advance, is_full, is_drained,
  taken,
}
use deribit_trading_system.WaitFree.Refine.{Holds, init-Holds, write_slot-Holds, publish-Holds}
use deribit_trading_system.WaitFree.Bounded.{Call, put, get, replies, expected, init-replies}
use deribit_trading_system.WaitFree.Schedules.{run-fifo}
use deribit_trading_system.WaitFree.Threads.{
  Turn, produce, consume, run, start, step, out_of_bounds,
}

abbrev empty_queue : WaitFreeQueue ℕ
empty_queue = init 0 3

third_refused : (enqueue 7 (enqueue 6 (enqueue 5 empty_queue).1).1).0 ≡ false
unfolding enqueue init is_full next publish write_slot
third_refused = refl

first_out : (dequeue (enqueue 6 (enqueue 5 empty_queue).1).1).0 ≡ taken 5
unfolding enqueue dequeue init is_drained is_full next publish write_slot
first_out = refl

empty_queue-Holds : Holds empty_queue []
empty_queue-Holds = init-Holds 0 3 (omega arith) (omega arith)

one_item : Holds (publish (write_slot 5 empty_queue)) (5 ∷ [])
unfolding write_slot publish init
one_item =
    publish-Holds (write_slot 5 empty_queue) [] 5
      (write_slot-Holds empty_queue [] 5 empty_queue-Holds) (omega arith) refl

-- The consumer looks while the producer has written and not published.
abbrev turns : List (Turn ℕ)
turns = produce 5 ∷ produce 5 ∷ consume ∷ produce 5 ∷ consume ∷ produce 6 ∷ consume ∷ consume ∷ []

turns_received : (run turns (start 0 3)).received ≡ 5 ∷ []
unfolding run step init is_full is_drained write_slot publish advance next
turns_received = refl

run-fifo_example :
    (xs : List ℕ) × ((run turns (start 0 3)).sent ≡ (run turns (start 0 3)).received ++ xs)
    × Holds (run turns (start 0 3)).queue xs
    × ((run turns (start 0 3)).consumer ≢ out_of_bounds)
run-fifo_example = run-fifo 0 3 turns (omega arith) (omega arith)

-- The third item is refused, and the first two come out.
abbrev calls : List (Call ℕ)
calls = put 5 ∷ put 6 ∷ put 7 ∷ get ∷ get ∷ get ∷ []

init-replies_example : replies calls (init 0 3) ≡ expected 3 calls []
init-replies_example = init-replies 0 3 calls (omega arith) (omega arith)
