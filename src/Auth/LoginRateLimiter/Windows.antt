-- ===== src/Auth/LoginRateLimiter/Windows.antt =====
-- login_rate_limiter.go: who is refused, and for how long.
use text.Mathlib.TextPositions.{eq_refl}
use amazon_ai_product_image.Base.Text.{trim_space}
use amazon_ai_product_image.Base.{
  ℕ, zero, suc, ◌+◌, ◌≤◌, ◌<◌, true, false, String, none, some, List, [], ◌∷◌, ◌==◌, string_eq,
  nat_eq, leb, if◌then◌else◌, ◌≡◌, refl, ◌∙◌, arith,
}
use amazon_ai_product_image.Base.Lists.{length, All}
use amazon_ai_product_image.Auth.LoginRateLimiter.{
  login_rate_limited, Counters, LoginRateLimitIdentity, LoginRateLimiter, held, failed_once,
  failure_script, key, check, record_failure, record_failures,
}

module _ (l : LoginRateLimiter) (digest : String → String → String → String)
    (lower : String → String) (i : LoginRateLimitIdentity) where
  first_failure :
      (now : ℕ) (s : Counters)
      → 0 < l.window_ms
      → held now s (key l digest lower i) ≡ none
      → record_failure l digest lower i now s (key l digest lower i)
        ≡ some (record { count = 1; expires_at = some (now + l.window_ms) })
  unfolding record_failure failure_script
  first_failure now s h fresh = rw (fresh, eq_refl) (opened now l.window_ms h)
    where
      opened :
          (now w : ℕ)
          → 0 < w
          → failed_once now w (record { count = 1; expires_at = none })
            ≡ some (record { count = 1; expires_at = some (now + w) })
      opened now zero h = absurd (omega (arith, h))
      opened now (suc w) h = refl

  next_failure :
      (now n end : ℕ) (s : Counters)
      → now < end
      → s (key l digest lower i) ≡ some (record { count = suc n; expires_at = some end })
      → record_failure l digest lower i now s (key l digest lower i)
        ≡ some (record { count = suc n + 1; expires_at = some end })
  unfolding record_failure failure_script held
  next_failure now n end s early at =
      let open_ : leb end now ≡ false = ground (arith, early) in
      let later : (suc n + 1 == 1) ≡ false = ground arith in rw (at, open_, later, eq_refl) refl

  -- The counter after the failures that follow the first.
  counted :
      (times : List ℕ) (n end : ℕ) (s : Counters)
      → All (λ t. t < end) times
      → s (key l digest lower i) ≡ some (record { count = suc n; expires_at = some end })
      → record_failures l digest lower i times s (key l digest lower i)
        ≡ some (record { count = suc n + length times; expires_at = some end })
  counted [] n end s early at = at ∙ cc (plus_zero n)
    where
      plus_zero : (n : ℕ) → suc n ≡ suc n + 0
      plus_zero n = omega arith
  counted (t ∷ times) n end s early at =
      counted times (n + 1) end (record_failure l digest lower i t s) early.1
        (next_failure t n end s early.0 at ∙ cc (shift n))
      ∙ cc (total n (length times))
    where
      shift : (n : ℕ) → suc n + 1 ≡ suc (n + 1)
      shift n = omega arith

      total : (n m : ℕ) → suc (n + 1) + m ≡ suc n + suc m
      total n m = omega arith

  after_first :
      (first : ℕ) (times : List ℕ) (s : Counters)
      → 0 < l.window_ms
      → held first s (key l digest lower i) ≡ none
      → All (λ t. t < first + l.window_ms) times
      → record_failures l digest lower i (first ∷ times) s (key l digest lower i)
        ≡ some (record { count = 1 + length times; expires_at = some (first + l.window_ms) })
  after_first first times s h fresh early =
      counted times 0 (first + l.window_ms) (record_failure l digest lower i first s) early
        (first_failure first s h fresh)

  -- Let an identity that has no failures counted fail at one time and then at others, all
  -- before the window from the first has passed. Within that window a login is refused exactly
  -- if the failures are as many as the highest number, or more.
  pub check-record_failures :
      (first now : ℕ) (times : List ℕ) (s : Counters)
      → 0 < l.window_ms
      → held first s (key l digest lower i) ≡ none
      → All (λ t. t < first + l.window_ms) times
      → now < first + l.window_ms
      → check l digest lower i now (record_failures l digest lower i (first ∷ times) s)
        ≡ (if leb l.max_failures (1 + length times) then some login_rate_limited else none)
  unfolding check held
  check-record_failures first now times s h fresh early within =
      let open_ : leb (first + l.window_ms) now ≡ false = ground (arith, within) in
      rw (after_first first times s h fresh early, open_) refl

  -- When the window from the first failure has passed, no login of the identity is refused,
  -- however many failures there were and however late in the window.
  pub check-expired :
      (first now : ℕ) (times : List ℕ) (s : Counters)
      → 0 < l.window_ms
      → 0 < l.max_failures
      → held first s (key l digest lower i) ≡ none
      → All (λ t. t < first + l.window_ms) times
      → first + l.window_ms ≤ now
      → check l digest lower i now (record_failures l digest lower i (first ∷ times) s) ≡ none
  unfolding check held
  check-expired first now times s h some_ fresh early past =
      let over : leb (first + l.window_ms) now ≡ true = ground (arith, past) in
      let positive : leb l.max_failures 0 ≡ false = ground (arith, some_) in
      rw (after_first first times s h fresh early, over, positive) refl

-- Distinct parts have distinct digests.
abbrev pub IsInjective : (String → String → String → String) → Type 0
IsInjective digest =
    (a b c x y z : String) → digest a b c ≡ digest x y z → (a ≡ x) × (b ≡ y) × (c ≡ z)

-- The same tenant, e-mail address and IP address, but for space around them and the case of the e-mail.
abbrev pub IsSame : (String → String) → LoginRateLimitIdentity → LoginRateLimitIdentity → Type 0
IsSame lower i j =
    (trim_space i.tenant_id ≡ trim_space j.tenant_id)
    × (lower (trim_space i.email) ≡ lower (trim_space j.email))
    × (trim_space i.ip ≡ trim_space j.ip)
