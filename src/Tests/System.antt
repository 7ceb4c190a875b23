-- ===== src/Tests/System.antt =====
-- main.go: the system with one request.
use gopherci.Common.{◌≡◌, refl, List, [], ◌∷◌, ok}
use gopherci.Github.{Event, pull_request_event}
use gopherci.Queue.Memory.{MemoryQueue, push, started}
use gopherci.Main.System.{push_each, fresh, serve_request, work, start, next, request, poll}
use gopherci.Main.System.Sound.{Reach-IsSound, IsSound}
use gopherci.Tests.Github.{config, world, pull_request}

receiving-push_each :
    (events : List Event) (q : MemoryQueue Event) → (push_each events q).receiving ≡ q.receiving
unfolding push
receiving-push_each [] q = refl
receiving-push_each (e ∷ events) q = receiving-push_each events q

-- A pull request came in, and then the queue was polled.
Reach-IsSound_example : IsSound (
    work config world [] []
      (serve_request config world 2 (ok []) (λ _. ok (pull_request_event pull_request)) fresh))
unfolding fresh started serve_request
Reach-IsSound_example =
    Reach-IsSound config world
      {s = work config world [] []
        (serve_request config world 2 (ok []) (λ _. ok (pull_request_event pull_request)) fresh)}
      (next (next start (request fresh 2 (ok []) (λ _. ok (pull_request_event pull_request)) refl))
        (poll _ [] [] (receiving-push_each _ started)))
