-- ===== src/Queue/Concurrency/Histories.antt =====
-- concurrency.go: histories of calls of the limiter.
use amazon_ai_product_image.Base.{ℕ, ◌≤◌, String, List, [], ◌∷◌, string_eq, nat_eq}
use amazon_ai_product_image.Base.Int.{ℤ}
use amazon_ai_product_image.Base.Lists.{length, All}
use amazon_ai_product_image.Redis.{Redis}
use amazon_ai_product_image.Queue.Concurrency.{
  ConcurrencyLimiter, ConcurrencyDimension, ConcurrencyLease, release, acquire, renew, reap_stale,
}
use amazon_ai_product_image.Queue.Concurrency.Bounds.{
  Capped, Fits, acquire-Capped, renew-Capped, release-Capped, reap_stale-Capped,
}

module _ (r : Redis) (k : String) (n : ℕ) where
  open r use {Store, view}

  -- A call of the limiter's methods, by its arguments.
  pub data Call : Type 0 where
    acquires : String → List ConcurrencyDimension → ℤ → ℕ → Call
    renews : ConcurrencyLease → ℤ → ℕ → Call
    releases : ConcurrencyLease → Call
    reaps : ℕ → Call

  -- The dimensions that the call names.
  abbrev pub dimensions : Call → List ConcurrencyDimension
  dimensions (acquires id ds ttl now) = ds
  dimensions (renews lease ttl now) = []
  dimensions (releases lease) = []
  dimensions (reaps now) = []

  abbrev pub after : (l : ConcurrencyLimiter) → Call → Store → Store
  after l (acquires id ds ttl now) s = (acquire r l id ds ttl now s).1
  after l (renews lease ttl now) s = (renew r l lease ttl now s).1
  after l (releases lease) s = (release r l lease s).1
  after l (reaps now) s = (reap_stale r l now s).1

  abbrev pub after_all : (l : ConcurrencyLimiter) → List Call → Store → Store
  after_all l [] s = s
  after_all l (c ∷ cs) s = after_all l cs (after l c s)

  after-Capped :
      (l : ConcurrencyLimiter) (c : Call) (s : Store)
      → All (Fits r k n l) (dimensions c)
      → Capped k n (view s) (view (after l c s))
  after-Capped l (acquires id ds ttl now) s fits = (acquire-Capped r k n l id ds ttl now fits).at s
  after-Capped l (renews lease ttl now) s fits = (renew-Capped r k n l lease ttl now).at s
  after-Capped l (releases lease) s fits = (release-Capped r k n l lease).at s
  after-Capped l (reaps now) s fits = (reap_stale-Capped r k n l now).at s

  -- Let no dimension of the calls that counts on the semaphore `k` have a limit above `n`. Then
  -- a history of acquiring, renewing, releasing and reaping leaves a semaphore of at most `n`
  -- holders with at most `n`, through any outages.
  pub after_all-capped :
      (l : ConcurrencyLimiter) (cs : List Call) (s : Store)
      → All (λ c. All (Fits r k n l) (dimensions c)) cs
      → length ((view s).zsets k) ≤ n
      → length ((view (after_all l cs s)).zsets k) ≤ n
  after_all-capped l [] s fits h = h
  after_all-capped l (c ∷ cs) s fits h =
      after_all-capped l cs (after l c s) fits.1 (after-Capped l c s fits.0 h)
