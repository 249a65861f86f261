-- ===== src/Util/RateQueue.antt =====
-- lib/src/util/rate_queue.cc: functions are queued by any thread, and one thread runs them. A function
-- is a value of a type `F`; that it has run is recorded. Each step is what happens under the mutex, or
-- between two uses of it.
use pingfs.Base.{
  if◌then◌else◌, Bool, true, false, List, [], ◌∷◌, ◌++◌, Result, ok, fail, Failure, ◌≡◌, refl, sym,
  ap, ◌∙◌, ◌⊎◌, Bool-cases, inl, inr, append_assoc, append-nil, subst, ok-injective,
}
use Failure.{thrown}

-- Where the thread of `service` stands: at the test of the loop, before it takes the mutex, with a
-- function to run, asleep, or at its end.
pub data Worker (F : Type 0) : Type 0 where
  testing locking sleeping ended : Worker F
  holding : F → Worker F

pub record RateQueue (F : Type 0) : Type 0 where
  pub queue : List F
  pub stopped : Bool
  pub worker : Worker F
  pub executed : List F

-- What the thread has taken and not yet run.
abbrev pub held : {F : Type 0} → Worker F → List F
held testing = []
held locking = []
held sleeping = []
held ended = []
held (holding f) = f ∷ []

module _ {F : Type 0} where
  unfoldable pub start_queue : RateQueue F
  start_queue = record { queue = []; stopped = false; worker = Worker.testing; executed = [] }

  unfoldable pub add : F → RateQueue F → Result (RateQueue F)
  add function q =
      if q.stopped then fail thrown else ok (record q { queue = q.queue ++ function ∷ [] })

  -- The part of `stop` under the mutex. `join` then waits until the thread is at its end.
  unfoldable pub stop : RateQueue F → RateQueue F
  stop q = record q { stopped = true; queue = [] }

  unfoldable pub take_front : List F → RateQueue F → RateQueue F
  take_front [] q = record q { worker = Worker.sleeping }
  take_front (f ∷ queue) q = record q { worker = Worker.holding f; queue = queue }

  unfoldable pub advance : Worker F → RateQueue F → RateQueue F
  unfolding take_front
  advance testing q =
      if q.stopped then record q { worker = Worker.ended } else record q { worker = Worker.locking }
  advance locking q = take_front q.queue q
  advance (holding f) q = record q { worker = Worker.sleeping; executed = q.executed ++ f ∷ [] }
  advance sleeping q = record q { worker = Worker.testing }
  advance ended q = record q { worker = Worker.ended }

  -- One step of the thread of `service`.
  unfoldable pub service : RateQueue F → RateQueue F
  unfolding advance
  service q = advance q.worker q

-- The states that calls and steps of the thread lead to, in any order, with the functions that have
-- been added.
pub data Reaches {F : Type 0} : List F → RateQueue F → Type 0 where
  started : Reaches [] start_queue
  added :
      {fs : List F} {q q' : RateQueue F} (f : F)
      → Reaches fs q
      → add f q ≡ ok q'
      → Reaches (fs ++ f ∷ []) q'
  stopped_by : {fs : List F} {q : RateQueue F} → Reaches fs q → Reaches fs (stop q)
  serviced : {fs : List F} {q : RateQueue F} → Reaches fs q → Reaches fs (service q)

-- All that has been added, as far as it has not been thrown away.
abbrev pub line : {F : Type 0} → RateQueue F → List F
line q = q.executed ++ held q.worker ++ q.queue

abbrev pub InOrder : {F : Type 0} → List F → RateQueue F → Type 0
InOrder {F} fs q =
    ((q.stopped ≡ false) × (line q ≡ fs))
    ⊎ ((q.stopped ≡ true) × (q.queue ≡ []) × (dropped : List F) × (line q ++ dropped ≡ fs))

module _ {F : Type 0} where
  take_front-line :
      (queue : List F) (q : RateQueue F)
      → q.queue ≡ queue
      → line (take_front queue q) ≡ (q.executed ++ []) ++ queue
  unfolding take_front
  take_front-line [] q h = rw h
  take_front-line (f ∷ queue) q h =
      rw (append-nil q.executed) (append_assoc q.executed (f ∷ []) queue)

  advance-line :
      (w : Worker F) (q : RateQueue F) → line (advance w q) ≡ (q.executed ++ held w) ++ q.queue
  unfolding advance
  advance-line testing q = elim (Bool-cases q.stopped) [ inl h ↦ rw h | inr h ↦ rw h ]
  advance-line locking q = take_front-line q.queue q refl
  advance-line (holding f) q = rw (append-nil (q.executed ++ f ∷ []))
  advance-line sleeping q = refl
  advance-line ended q = refl

  take_front-stopped : (queue : List F) (q : RateQueue F) → (take_front queue q).stopped ≡ q.stopped
  unfolding take_front
  take_front-stopped [] q = refl
  take_front-stopped (f ∷ queue) q = refl

  advance-stopped : (w : Worker F) (q : RateQueue F) → (advance w q).stopped ≡ q.stopped
  unfolding advance
  advance-stopped testing q = elim (Bool-cases q.stopped) [ inl h ↦ rw h | inr h ↦ rw h ]
  advance-stopped locking q = take_front-stopped q.queue q
  advance-stopped (holding f) q = refl
  advance-stopped sleeping q = refl
  advance-stopped ended q = refl

  take_front-nil :
      (queue : List F) (q : RateQueue F)
      → queue ≡ []
      → q.queue ≡ []
      → (take_front queue q).queue ≡ []
  unfolding take_front
  take_front-nil [] q h e = e
  take_front-nil (f ∷ queue) q h e = cc

  advance-nil : (w : Worker F) (q : RateQueue F) → q.queue ≡ [] → (advance w q).queue ≡ []
  unfolding advance
  advance-nil testing q h = elim (Bool-cases q.stopped) [ inl s ↦ rw s h | inr s ↦ rw s h ]
  advance-nil locking q h = take_front-nil q.queue q h h
  advance-nil (holding f) q h = h
  advance-nil sleeping q h = h
  advance-nil ended q h = h

  serviced_step : (fs : List F) (q : RateQueue F) → InOrder fs q → InOrder fs (service q)
  unfolding service
  serviced_step fs q (inl (s, l)) =
      inl (advance-stopped q.worker q ∙ s, advance-line q.worker q ∙ l)
  serviced_step fs q (inr (s, e, dropped, l)) = inr (
    advance-stopped q.worker q ∙ s,
    advance-nil q.worker q e,
    dropped,
    ap (λ x. x ++ dropped) (advance-line q.worker q) ∙ l,
  )

  stopped_step : (fs : List F) (q : RateQueue F) → InOrder fs q → InOrder fs (stop q)
  unfolding stop
  stopped_step fs q (inl (s, l)) =
      inr
        (refl, refl, q.queue, ap (λ x. x ++ q.queue) (append-nil (q.executed ++ held q.worker)) ∙ l)
  stopped_step fs q (inr (s, e, dropped, l)) =
      inr
        (refl, refl, dropped, ap (λ x. ((q.executed ++ held q.worker) ++ x) ++ dropped) (sym e) ∙ l)

  add-running :
      (f : F) (q : RateQueue F)
      → q.stopped ≡ false
      → add f q ≡ ok (record q { queue = q.queue ++ f ∷ [] })
  unfolding add
  add-running f q s = rw s

  add-stopped : (f : F) (q : RateQueue F) → q.stopped ≡ true → add f q ≡ fail thrown
  unfolding add
  add-stopped f q s = rw s

  added_step :
      (fs : List F) (f : F) (q q' : RateQueue F)
      → InOrder fs q
      → add f q ≡ ok q'
      → InOrder (fs ++ f ∷ []) q'
  added_step fs f q q' (inl (s, l)) h =
      let result : record q { queue = q.queue ++ f ∷ [] } ≡ q' =
        ok-injective (sym (add-running f q s) ∙ h) in
      subst (InOrder (fs ++ f ∷ [])) result (
        inl (
          s,
          sym (append_assoc (q.executed ++ held q.worker) q.queue (f ∷ []))
              ∙ ap (λ x. x ++ f ∷ []) l,
        ))
  added_step fs f q q' (inr (s, e, dropped, l)) h = absurd (cc (add-stopped f q s, h))

  -- Whatever the order of calls and of steps of the thread: while the queue runs, the functions that
  -- have run, the one that is about to, and those that wait are together all that have been added, in
  -- that order. After `stop` nothing waits, and what has run or is about to is a prefix of what had
  -- been added.
  pub Reaches-InOrder : {fs : List F} {q : RateQueue F} → Reaches fs q → InOrder fs q
  unfolding start_queue
  Reaches-InOrder started = inl (refl, refl)
  Reaches-InOrder (added {fs} {q} {q'} f r h) = added_step fs f q q' (Reaches-InOrder r) h
  Reaches-InOrder (stopped_by {fs} {q} r) = stopped_step fs q (Reaches-InOrder r)
  Reaches-InOrder (serviced {fs} {q} r) = serviced_step fs q (Reaches-InOrder r)
