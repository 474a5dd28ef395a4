-- ===== src/Sse/Broker/Tests.antt =====
-- A broker whose channels hold two events.
use amazon_ai_product_image.Base.{String, List, [], ◌∷◌, false, some, ◌≡◌, refl, arith}
use amazon_ai_product_image.Base.Int.{pos}
use amazon_ai_product_image.Task.{TaskEvent, task_queued}
use amazon_ai_product_image.Sse.Broker.{Broker, new_broker, subscribe}
use amazon_ai_product_image.Sse.Broker.Channels.{
  Step, publishing, subscribing, unsubscribing, receiving, run, Keeps, seen, run_channel,
  run-run_channel,
}

abbrev about : String → TaskEvent
about t = record { tenant_id = "t1"; task_id = t; event_type = task_queued }

abbrev opened : Broker
opened = (subscribe (new_broker (pos 2))).1

-- The third event finds no room, and the second subscriber's steps do not matter.
abbrev five_steps : List Step
five_steps =
    publishing (about "a")
    ∷ subscribing
    ∷ publishing (about "b")
    ∷ publishing (about "c")
    ∷ unsubscribing (record { id = 2; done = false })
    ∷ receiving 1
    ∷ publishing (about "d")
    ∷ []

run-run_channel_example : (run five_steps opened).subscribers 1 ≡ some (about "b" ∷ about "d" ∷ [])
unfolding subscribe Keeps seen run_channel
run-run_channel_example =
    run-run_channel five_steps opened 1 [] (omega arith) (omega arith) (omega arith) refl
      (tt, (tt, (tt, (tt, (λ p. omega (arith, p), (tt, (tt, tt)))))))
