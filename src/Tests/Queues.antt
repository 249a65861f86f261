-- ===== src/Tests/Queues.antt =====
-- A run of the queue of lib/src/util/rate_queue.cc: two functions, one of which has been taken when
-- the queue is stopped.
use pingfs.Base.{ℕ, refl, [], ◌∷◌, true, false}
use pingfs.Util.RateQueue.{
  RateQueue, Worker, InOrder, Reaches, Reaches-InOrder, start_queue, add, stop, service, advance,
  take_front,
}
use Reaches.{started, added, stopped_by, serviced}

abbrev running : RateQueue ℕ
running = record { queue = 7 ∷ 8 ∷ []; stopped = false; worker = Worker.testing; executed = [] }

abbrev after_stop : RateQueue ℕ
after_stop = record { queue = []; stopped = true; worker = Worker.sleeping; executed = 7 ∷ [] }

two_added : Reaches (7 ∷ 8 ∷ []) running
unfolding start_queue add
two_added = added 8 (added 7 started refl) refl

stopped_after_one : Reaches (7 ∷ 8 ∷ []) after_stop
unfolding service advance stop take_front
stopped_after_one = serviced (stopped_by (serviced (serviced two_added)))

Reaches-InOrder_example : InOrder (7 ∷ 8 ∷ []) after_stop
Reaches-InOrder_example = Reaches-InOrder stopped_after_one
