-- ===== src/Tests/Publishers.antt =====
-- Subscribers that unsubscribe while they are told.
use pingfs.Base.{ℕ, ◌+◌, List, [], ◌∷◌, ◌++◌, ◌≡◌, refl}
use pingfs.Base.Counts.{count}
use pingfs.Util.Publisher.{
  Publisher, notify, unsubscribe, call_all, Call, subscribes, unsubscribes, notify-subscriptions,
  subscriptions,
}

-- A subscriber notes that it has been told, and wants no more.
abbrev once : ℕ → ℕ → Publisher × List ℕ → Publisher × List ℕ
once s notice (p, log) = (unsubscribe s p, log ++ s ∷ [])

abbrev calls : List Call
calls = subscribes 4 ∷ subscribes 5 ∷ unsubscribes 4 ∷ subscribes 5 ∷ []

notify-subscriptions_example :
    count 5 (notify once 0 (call_all calls (record { subscribers_ = [] }), 5 ∷ [])).1 ≡ 1 + 2
unfolding subscriptions
notify-subscriptions_example =
    notify-subscriptions once (λ log. log) (λ s notice p w. refl) 5 calls 0 (5 ∷ [])
