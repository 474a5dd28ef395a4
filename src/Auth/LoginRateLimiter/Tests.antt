-- ===== src/Auth/LoginRateLimiter/Tests.antt =====
-- Failed logins on counters in memory.
use Prim.Native.Char.{code}
use Prim.Native.String.{◌++◌ as join}
use amazon_ai_product_image.Base.{
  Bool, true, nat_eq, ◌==◌, String, none, some, [], ◌∷◌, string_eq, ◌≡◌, refl, arith,
}
use amazon_ai_product_image.Base.Int.{pos}
use amazon_ai_product_image.Auth.LoginRateLimiter.{
  Counters, LoginRateLimitIdentity, LoginRateLimiter, new_login_rate_limiter, held, check,
  record_failures, login_rate_limited,
}
use amazon_ai_product_image.Auth.LoginRateLimiter.Windows.{check-record_failures, check-expired}

abbrev limiter : LoginRateLimiter
limiter =
    new_login_rate_limiter (record {
      login_rate_limit_max_failures = pos 3;
      login_rate_limit_window = pos 60_000_000_000;
    })

abbrev together : String → String → String → String
together a b c = join a (join b c)

abbrev same : String → String
same s = s

abbrev ann : LoginRateLimitIdentity
ann = record { tenant_id = "t1"; email = " ann@example.com"; ip = "10.0.0.1" }

abbrev bob : LoginRateLimitIdentity
bob = record ann { email = "bob@example.com" }

abbrev no_failures : Counters
no_failures k = none

check-record_failures_example :
    check limiter together same ann 59_000
      (record_failures limiter together same ann (1_000 ∷ 2_000 ∷ 50_000 ∷ []) no_failures)
    ≡ some login_rate_limited
unfolding new_login_rate_limiter held
check-record_failures_example =
    check-record_failures limiter together same ann 1_000 59_000 (2_000 ∷ 50_000 ∷ []) no_failures
      (omega arith) refl (omega arith, (omega arith, tt)) (omega arith)

check-expired_example :
    check limiter together same ann 61_000
      (record_failures limiter together same ann (1_000 ∷ 2_000 ∷ 60_999 ∷ []) no_failures)
    ≡ none
unfolding new_login_rate_limiter held
check-expired_example =
    check-expired limiter together same ann 1_000 61_000 (2_000 ∷ 60_999 ∷ []) no_failures
      (omega arith) (omega arith) refl (omega arith, (omega arith, tt)) (omega arith)

-- A text with its end marked, before another text.
abbrev marked : String → String → String
marked String.[] rest = String.◌∷◌ "e" rest
marked (String.◌∷◌ c s) rest = String.◌∷◌ "c" (String.◌∷◌ c (marked s rest))

abbrev encoded : String → String → String → String
encoded a b c = marked a (marked b (marked c ""))

abbrev ends : String → Bool
ends String.[] = true
ends (String.◌∷◌ c s) = code c == 101
