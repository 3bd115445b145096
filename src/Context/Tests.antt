-- ===== src/Context/Tests.antt =====
-- Runs of the interruption context.
use boost_task.Prelude.{◌≡◌, refl, none, [], ◌∷◌}
use boost_task.Context.{construct, reset, attach, request, run}
use boost_task.Context.Delivery.{request_delivered}

reset-null : reset construct none ≡ none
unfolding reset
reset-null = refl

-- Thread 1 is replaced by 2 before the request, 3 comes after it.
request_delivered_example :
    (run construct (attach 1 ∷ attach 2 ∷ request ∷ request ∷ attach 3 ∷ [])).interrupted
    ≡ 2 ∷ 3 ∷ []
request_delivered_example =
    request_delivered (attach 1 ∷ attach 2 ∷ request ∷ request ∷ attach 3 ∷ [])
