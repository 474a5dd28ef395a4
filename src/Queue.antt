-- ===== src/Queue.antt =====
-- backend/internal/queue: what the reliable queue and the concurrency limiter share.
-- A method of the package is an action on the Redis store that gives a result or an error.
pub mod Frame
pub mod Reliable
pub mod Concurrency
pub mod Depth
pub mod Enqueuer
use amazon_ai_product_image.Base.{String}
use amazon_ai_product_image.Redis.{Redis, Reply, reply, fault}

-- The package's errors; `redis_error` is any error of the client library. `dead_lettered` carries
-- the task of the claim that the source returns beside it.
pub data Error : Type 0 where
  no_task invalid_claim invalid_config unavailable invalid_task redis_error : Error
  concurrency_limited concurrency_lease_lost : Error
  dead_lettered : String → Error

pub data Result {ℓ} (A : Type ℓ) : Type ℓ where
  ok : A → Result A
  err : Error → Result A

abbrev pub M {ℓ} : Type 0 → Type ℓ → Type ℓ
M S A = S → Result A × S

module _ {ℓ} {S : Type 0} {A : Type ℓ} where
  unfoldable pub pure : A → M S A
  pure a s = (ok a, s)

  unfoldable pub raise : Error → M S A
  raise e s = (err e, s)

  unfoldable pub lift : Result A → M S A
  lift r s = (r, s)

module _ {ℓ κ} {S : Type 0} {A : Type ℓ} {B : Type κ} where
  abbrev pub go_on : (A → M S B) → Result A → S → Result B × S
  go_on f (ok a) t = f a t
  go_on f (err e) t = (err e, t)

  infixl 5 ◌>>=◌ ◌>>◌
  -- Opening this opens `pure`, `raise` and `lift` too.
  unfoldable pub ◌>>=◌ : M S A → (A → M S B) → M S B
  unfolding pure raise lift
  ◌>>=◌ m f s = let (x, t) = m s in go_on f x t

  abbrev pub ◌>>◌ : M S A → M S B → M S B
  m >> k = m >>= λ _. k

of_reply : {A : Type 0} → Reply A → Result A
of_reply (reply a) = ok a
of_reply fault = err redis_error

-- A call of the client library, with its error returned to the caller.
unfoldable pub send : (r : Redis) {A : Type 0} → (r.Store → A × r.Store) → M r.Store A
unfolding of_reply
send r f s = let (x, t) = r.call f s in (of_reply x, t)
