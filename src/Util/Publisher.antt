-- ===== src/Util/Publisher.antt =====
-- lib/include/pingfs/util/publisher.hpp: the subscribers of a publisher, as the addresses of their
-- objects, in the order in which they subscribed. The `process` of a subscriber is a virtual method: a
-- function on the publisher and on a state of the rest of the program. It may subscribe and
-- unsubscribe, as the mutex is recursive.
use pingfs.Base.{
  ℕ, ◌==◌, if◌then◌else◌, List, [], ◌∷◌, ◌++◌, ◌+◌, ◌≡◌, refl, arith, ◌∙◌, ap, sym, append-nil,
  append_assoc,
}
use pingfs.Base.Counts.{hit, count, count-append}
use pingfs.Base.Sets.{remove}

pub record Publisher : Type 0 where
  pub subscribers_ : List ℕ

unfoldable pub subscribe : ℕ → Publisher → Publisher
subscribe subscriber p = record { subscribers_ = p.subscribers_ ++ subscriber ∷ [] }

-- `erase` of what `std::remove` leaves behind.
unfoldable pub unsubscribe : ℕ → Publisher → Publisher
unfolding remove
unsubscribe subscriber p = record { subscribers_ = remove subscriber p.subscribers_ }

module _ {T W : Type 0} (process : ℕ → T → Publisher × W → Publisher × W) where
  unfoldable pub notify_each : List ℕ → T → Publisher × W → Publisher × W
  notify_each [] notice s = s
  notify_each (subscriber ∷ vec_copy) notice s =
      notify_each vec_copy notice (process subscriber notice s)

  -- The loop runs over a copy of the subscribers.
  unfoldable pub notify : T → Publisher × W → Publisher × W
  unfolding notify_each
  notify notice (p, w) = notify_each p.subscribers_ notice (p, w)

-- What a subscriber does to be told, and to be told no longer.
pub data Call : Type 0 where
  subscribes unsubscribes : ℕ → Call

unfoldable pub call_all : List Call → Publisher → Publisher
unfolding subscribe unsubscribe
call_all [] p = p
call_all (subscribes s ∷ calls) p = call_all calls (subscribe s p)
call_all (unsubscribes s ∷ calls) p = call_all calls (unsubscribe s p)

-- How often a subscriber has subscribed since it last unsubscribed.
unfoldable pub subscriptions : ℕ → List Call → ℕ → ℕ
subscriptions x [] n = n
subscriptions x (subscribes s ∷ calls) n = subscriptions x calls (n + hit x s)
subscriptions x (unsubscribes s ∷ calls) n = subscriptions x calls (if s == x then 0 else n)

count-remove : (x s : ℕ) (xs : List ℕ) → count x (remove s xs) ≡ (if s == x then 0 else count x xs)
unfolding remove
count-remove x s [] = ground arith
count-remove x s (y ∷ xs) = ground (arith, count-remove x s xs)

count-call_all :
    (x : ℕ) (calls : List Call) (p : Publisher)
    → count x (call_all calls p).subscribers_ ≡ subscriptions x calls (count x p.subscribers_)
unfolding call_all subscriptions
count-call_all x [] p = refl
count-call_all x (subscribes s ∷ calls) p =
    count-call_all x calls (subscribe s p)
    ∙ ap (subscriptions x calls) (count-append x p.subscribers_ (s ∷ []) ∙ omega arith)
count-call_all x (unsubscribes s ∷ calls) p =
    count-call_all x calls (unsubscribe s p)
    ∙ ap (subscriptions x calls) (count-remove x s p.subscribers_)

module _ {T W : Type 0} (process : ℕ → T → Publisher × W → Publisher × W) (told : W → List ℕ)
    (records : (s : ℕ) (notice : T) (p : Publisher) (w : W)
      → told (process s notice (p, w)).1 ≡ told w ++ s ∷ []) where
  notify_each-told :
      (vec : List ℕ) (notice : T) (p : Publisher) (w : W)
      → told (notify_each process vec notice (p, w)).1 ≡ told w ++ vec
  unfolding notify_each
  notify_each-told [] notice p w = sym (append-nil (told w))
  notify_each-told (s ∷ vec) notice p w =
      let r = process s notice (p, w) in
      notify_each-told vec notice r.0 r.1
      ∙ ap (λ l. l ++ vec) (records s notice p w)
      ∙ append_assoc (told w) (s ∷ []) vec

  -- Each subscriber is told of a notice as often as it has subscribed since it last unsubscribed,
  -- whatever the subscribers do to the publisher while they are told. That a subscriber has been told
  -- is something that its `process` records.
  pub notify-subscriptions :
      (x : ℕ) (calls : List Call) (notice : T) (w : W)
      → count x (told (notify process notice (call_all calls (record { subscribers_ = [] }), w)).1)
        ≡ count x (told w) + subscriptions x calls 0
  unfolding notify
  notify-subscriptions x calls notice w =
      let p = call_all calls (record { subscribers_ = [] }) in
      ap (count x) (notify_each-told p.subscribers_ notice p w)
      ∙ count-append x (told w) p.subscribers_
      ∙ ap (λ n. count x (told w) + n) (count-call_all x calls (record { subscribers_ = [] }))
