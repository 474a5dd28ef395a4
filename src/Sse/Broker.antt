-- ===== src/Sse/Broker.antt =====
-- broker.go: events for the streams that are open.
-- A map is a function, and a channel is the list of the events in its buffer. A sender that finds a
-- waiting receiver is a send followed by a receive. The broker is not nil, and its lock makes each
-- operation one step.
pub mod Channels
pub mod Tests
use amazon_ai_product_image.Base.{
  ℕ, ◌+◌, ◌%◌, ◌^◌, Bool, true, false, Option, none, some, List, [], ◌∷◌, ◌++◌, ◌==◌, nat_eq, ltb,
  if◌then◌else◌,
}
use amazon_ai_product_image.Base.Lists.{length}
use amazon_ai_product_image.Base.Int.{ℤ, pos, negsuc}
use amazon_ai_product_image.Task.{TaskEvent}

pub record Broker : Type 0 where
  pub buffer : ℕ
  pub next_id : ℕ
  pub subscribers : ℕ → Option (List TaskEvent)

abbrev default_broker_buffer : ℕ
default_broker_buffer = 64

abbrev pub buffer_size : ℤ → ℕ
buffer_size (pos n) = if n == 0 then default_broker_buffer else n
buffer_size (negsuc n) = default_broker_buffer

abbrev pub new_broker : ℤ → Broker
new_broker buffer = record { buffer = buffer_size buffer; next_id = 0; subscribers = λ k. none }

-- A send that gives up if the buffer is full.
abbrev pub offer : ℕ → TaskEvent → List TaskEvent → List TaskEvent
offer buffer event waiting =
    if ltb (length waiting) buffer then waiting ++ (event ∷ []) else waiting

abbrev pub on_channel :
    (List TaskEvent → List TaskEvent) → Option (List TaskEvent) → Option (List TaskEvent)
on_channel f none = none
on_channel f (some waiting) = some (f waiting)

unfoldable pub publish_task_event : TaskEvent → Broker → Broker
publish_task_event event b = record b {
  subscribers = λ k. on_channel (offer b.buffer event) (b.subscribers k);
}

-- What Subscribe's closure holds: the id, and whether its sync.Once has run.
pub record Subscription : Type 0 where
  pub id : ℕ
  pub done : Bool

unfoldable pub subscribe : Broker → Subscription × Broker
subscribe b =
    let id = (b.next_id + 1) % 2 ^ 64 in
    (
      record { id = id; done = false },
      record b { next_id = id; subscribers = λ k. if k == id then some [] else b.subscribers k },
    )

unfoldable pub unsubscribe : Subscription → Broker → Subscription × Broker
unsubscribe s b = if s.done then (s, b) else (
  record s { done = true },
  record b { subscribers = λ k. if k == s.id then none else b.subscribers k },
)

abbrev pub rest : List TaskEvent → List TaskEvent
rest [] = []
rest (e ∷ es) = es

-- A receive from the channel that Subscribe returned.
unfoldable pub receive : ℕ → Broker → Broker
receive id b = record b {
  subscribers = λ k. if k == id then on_channel rest (b.subscribers k) else b.subscribers k;
}
