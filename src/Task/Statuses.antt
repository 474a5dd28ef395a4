-- ===== src/Task/Statuses.antt =====
-- Where the statuses that a transition allows lie in the graph of states.
use amazon_ai_product_image.Base.{true, [], ◌∷◌, string_eq, ◌≡◌}
use amazon_ai_product_image.Task.{
  TaskStatus, queued, running, succeeded, failed, cancelled, retrying, timed_out, is_among,
  same_status, retryable_status,
}
use amazon_ai_product_image.Task.Evolution.{
  Step, starts, restarts, fails, fails_queued, fails_retrying, retries, requeues, cancels,
  cancels_queued, cancels_retrying, reopens_failed, reopens_cancelled, reopens_timed_out, Steps,
  here, then_to,
}

pub along : {a b : TaskStatus} → Step a b → Steps a b
along s = then_to s (here _)

pub to_running : (s : TaskStatus) → is_among s (queued ∷ retrying ∷ []) ≡ true → Steps s running
to_running queued h = along starts
to_running retrying h = along restarts
to_running running h = absurd (cc h)
to_running succeeded h = absurd (cc h)
to_running failed h = absurd (cc h)
to_running cancelled h = absurd (cc h)
to_running timed_out h = absurd (cc h)

pub from_running :
    (s b : TaskStatus) → Step running b → is_among s (running ∷ []) ≡ true → Steps s b
from_running running b step h = along step
from_running queued b step h = absurd (cc h)
from_running retrying b step h = absurd (cc h)
from_running succeeded b step h = absurd (cc h)
from_running failed b step h = absurd (cc h)
from_running cancelled b step h = absurd (cc h)
from_running timed_out b step h = absurd (cc h)

pub from_retrying : (s : TaskStatus) → is_among s (retrying ∷ []) ≡ true → Steps s queued
from_retrying retrying h = along requeues
from_retrying queued h = absurd (cc h)
from_retrying running h = absurd (cc h)
from_retrying succeeded h = absurd (cc h)
from_retrying failed h = absurd (cc h)
from_retrying cancelled h = absurd (cc h)
from_retrying timed_out h = absurd (cc h)

pub to_failed :
    (s : TaskStatus) → is_among s (queued ∷ retrying ∷ running ∷ []) ≡ true → Steps s failed
to_failed queued h = along fails_queued
to_failed retrying h = along fails_retrying
to_failed running h = along fails
to_failed succeeded h = absurd (cc h)
to_failed failed h = absurd (cc h)
to_failed cancelled h = absurd (cc h)
to_failed timed_out h = absurd (cc h)

pub to_failed_waiting :
    (s : TaskStatus) → is_among s (queued ∷ retrying ∷ []) ≡ true → Steps s failed
to_failed_waiting queued h = along fails_queued
to_failed_waiting retrying h = along fails_retrying
to_failed_waiting running h = absurd (cc h)
to_failed_waiting succeeded h = absurd (cc h)
to_failed_waiting failed h = absurd (cc h)
to_failed_waiting cancelled h = absurd (cc h)
to_failed_waiting timed_out h = absurd (cc h)

pub to_cancelled :
    (s : TaskStatus) → is_among s (queued ∷ running ∷ retrying ∷ []) ≡ true → Steps s cancelled
to_cancelled queued h = along cancels_queued
to_cancelled running h = along cancels
to_cancelled retrying h = along cancels_retrying
to_cancelled succeeded h = absurd (cc h)
to_cancelled failed h = absurd (cc h)
to_cancelled cancelled h = absurd (cc h)
to_cancelled timed_out h = absurd (cc h)

pub running-Steps : (s : TaskStatus) → same_status s running ≡ true → Steps s retrying
running-Steps running h = along retries
running-Steps queued h = absurd (cc h)
running-Steps retrying h = absurd (cc h)
running-Steps succeeded h = absurd (cc h)
running-Steps failed h = absurd (cc h)
running-Steps cancelled h = absurd (cc h)
running-Steps timed_out h = absurd (cc h)

pub retryable-Steps : (s : TaskStatus) → retryable_status s ≡ true → Steps s retrying
unfolding retryable_status
retryable-Steps failed h = along reopens_failed
retryable-Steps cancelled h = along reopens_cancelled
retryable-Steps timed_out h = along reopens_timed_out
retryable-Steps queued h = absurd (cc h)
retryable-Steps running h = absurd (cc h)
retryable-Steps retrying h = absurd (cc h)
retryable-Steps succeeded h = absurd (cc h)
