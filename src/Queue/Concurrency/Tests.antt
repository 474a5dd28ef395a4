-- ===== src/Queue/Concurrency/Tests.antt =====
-- Runs of the limiter on a store in memory, and what the theorems say of them.
use amazon_ai_product_image.Base.{◌≤◌, refl, none, List, [], ◌∷◌, arith}
use amazon_ai_product_image.Base.Int.{pos}
use amazon_ai_product_image.Base.Text.{trim_space}
use amazon_ai_product_image.Base.Lists.{length}
use amazon_ai_product_image.Redis.{effect, score, z_put, z_above}
use amazon_ai_product_image.Redis.Memory.{Memory, memory, no_outage, reply_lost}
use amazon_ai_product_image.Queue.{◌>>=◌, pure, lift, send}
use amazon_ai_product_image.Queue.Concurrency.{
  ConcurrencyDimension, ConcurrencyLimiter, new_limiter, acquire_for, acquire, acquire_each,
  acquire_key, acquire_semaphore_script, grant, granted, noted, attempt, key, normalize_key_part,
  replace_separators,
}
use amazon_ai_product_image.Queue.Concurrency.Histories.{
  Call, acquires, reaps, after_all, after_all-capped,
}
use amazon_ai_product_image.Queue.Concurrency.Leases.{IsHeld, acquire-IsHeld}

abbrev limiter : ConcurrencyLimiter
limiter = new_limiter "q"

abbrev tenant_dimension : ConcurrencyDimension
tenant_dimension = record { name = "tenant"; value = "t1"; limit = pos 1 }

abbrev empty_store : Memory
empty_store = record {
  contents = record {
    lists = λ k. [];
    zsets = λ k. [];
    counts = λ k i. none;
    texts = λ k i. none;
    sets = λ k. [];
  };
  outages = no_outage ∷ reply_lost ∷ [];
}

-- Two tasks of one tenant ask for a lease, then a reaping runs.
abbrev history : List (Call memory "q:concurrency:tenant:t1" 1)
history =
    acquires "a" (tenant_dimension ∷ []) (pos 1_000) 10
    ∷ acquires "b" (tenant_dimension ∷ []) (pos 1_000) 20
    ∷ reaps 2_000
    ∷ []

after_all-capped_example :
    length (
      (memory.view (after_all memory "q:concurrency:tenant:t1" 1 limiter history empty_store)).zsets
        "q:concurrency:tenant:t1")
    ≤ 1
unfolding new_limiter
after_all-capped_example =
    after_all-capped memory "q:concurrency:tenant:t1" 1 limiter history empty_store
      ((λ named. omega arith, tt), ((λ named. omega arith, tt), (tt, tt))) (omega arith)

acquire-IsHeld_example :
    IsHeld
      (record { id = "a"; expires_at = 1_010; keys = "q:concurrency:tenant:t1" ∷ [] })
      (memory.view
        (acquire memory limiter "a"
          (tenant_dimension ∷ [])
          (pos 1_000)
          10
          (record empty_store { outages = [] })).1)
unfolding acquire acquire_for acquire_each acquire_key acquire_semaphore_script grant granted noted
    attempt key new_limiter normalize_key_part replace_separators trim_space ◌>>=◌ pure lift send
    effect score z_put z_above
acquire-IsHeld_example =
    acquire-IsHeld memory limiter "a" (tenant_dimension ∷ []) (pos 1_000) 10
      (record empty_store { outages = [] }) refl
