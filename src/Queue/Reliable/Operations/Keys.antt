-- ===== src/Queue/Reliable/Operations/Keys.antt =====
-- reliable_queue.go: the keys that a queue makes out of its name.
use Prim.Native.String.{◌++◌ as join}
use text.Mathlib.TextLemmas.{append_cancel_left, append-nil}
use amazon_ai_product_image.Base.{
  false, String, ◌≡◌, ◌≢◌, refl, sym, ◌∙◌, ◌==◌, string_eq, beq_self, ne→beq, ap,
}
use amazon_ai_product_image.Base.Text.{trim_space}
use amazon_ai_product_image.Queue.Reliable.{QueueConfig, new_queue}
use amazon_ai_product_image.Queue.Reliable.Operations.Places.{IsApart}

differ : (s t : String) → (s == t) ≡ false → s ≢ t
differ s t h e = cc (beq_self t, ap (λ x. x == t) e)

join_ne : (n s t : String) → (s == t) ≡ false → (join n s == join n t) ≡ false
join_ne n s t h = ne→beq _ _ (λ e. differ s t h (append_cancel_left n s t e))

join-ne_self : (n s : String) → (s == "") ≡ false → (join n s == n) ≡ false
join-ne_self n s h =
    ne→beq _ _ (λ e. differ s "" h (append_cancel_left n s "" (e ∙ sym (append-nil n))))

self-ne-join : (n s : String) → (s == "") ≡ false → (n == join n s) ≡ false
self-ne-join n s h =
    ne→beq _ _ (λ e. differ s "" h (append_cancel_left n s "" (sym e ∙ sym (append-nil n))))

-- Whatever the configured name, the queue, its processing list and its dead letters are three
-- different keys.
pub new_queue-IsApart : (cfg : QueueConfig) → IsApart (new_queue cfg)
unfolding new_queue
new_queue-IsApart cfg =
    let n : String = trim_space cfg.task_queue_name in
    record {
      queue_processing = self-ne-join n ":processing" refl;
      processing_queue = join-ne_self n ":processing" refl;
      queue_dead = self-ne-join n ":dead" refl;
      dead_queue = join-ne_self n ":dead" refl;
      processing_dead = join_ne n ":processing" ":dead" refl;
      dead_processing = join_ne n ":dead" ":processing" refl;
    }

-- The claim times and the delivery counts are in two hashes.
pub claims-ne-deliveries :
    (cfg : QueueConfig) → ((new_queue cfg).processing_claims == (new_queue cfg).deliveries) ≡ false
unfolding new_queue
claims-ne-deliveries cfg =
    join_ne (trim_space cfg.task_queue_name) ":processing_claims" ":deliveries" refl
