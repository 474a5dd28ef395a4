-- ===== src/Auth/LoginRateLimiter.antt =====
-- login_rate_limiter.go: the failed logins of an identity, counted in Redis for a while.
-- The server's keys that the limiter uses are counters that may expire, an expired one being gone.
-- `now` is the server's clock in milliseconds, and a step is a script that the server runs. The
-- limiter and its client are not nil.
pub mod Windows
pub mod Tests
use Prim.Native.String.{◌++◌ as join}
use amazon_ai_product_image.Base.{
  ℕ, zero, suc, ◌+◌, ◌/◌, Bool, true, false, String, Option, none, some, List, [], ◌∷◌, ◌==◌,
  string_eq, nat_eq, leb, if◌then◌else◌,
}
use amazon_ai_product_image.Base.Int.{ℤ, pos, negsuc, leb_ℤ}
use amazon_ai_product_image.Base.Text.{trim_space}

pub data Error : Type 0 where
  login_rate_limited : Error

pub record Counter : Type 0 where
  pub count : ℕ
  pub expires_at : Option ℕ

abbrev pub Counters : Type 0
Counters = String → Option Counter

pub record LoginRateLimitIdentity : Type 0 where
  pub tenant_id : String
  pub email : String
  pub ip : String

-- The part of config.AuthConfig that the limiter reads; the window is in nanoseconds.
pub record AuthConfig : Type 0 where
  pub login_rate_limit_max_failures : ℤ
  pub login_rate_limit_window : ℤ

pub record LoginRateLimiter : Type 0 where
  pub max_failures : ℕ
  pub window_ms : ℕ
  pub key_prefix : String

abbrev pub positive_or : ℕ → ℤ → ℕ
positive_or fallback (pos (suc n)) = suc n
positive_or fallback (pos zero) = fallback
positive_or fallback (negsuc n) = fallback

unfoldable pub new_login_rate_limiter : AuthConfig → LoginRateLimiter
new_login_rate_limiter cfg = record {
  max_failures = positive_or 5 cfg.login_rate_limit_max_failures;
  window_ms = positive_or 600_000_000_000 cfg.login_rate_limit_window / 1_000_000;
  key_prefix = "auth:login:fail:";
}

abbrev pub has_expired : ℕ → Option ℕ → Bool
has_expired now none = false
has_expired now (some t) = leb t now

abbrev pub unexpired : ℕ → Option Counter → Option Counter
unexpired now none = none
unexpired now (some c) = if has_expired now c.expires_at then none else some c

-- What the server holds under a key.
unfoldable pub held : ℕ → Counters → String → Option Counter
held now s k = unexpired now (s k)

abbrev pub put : String → Option Counter → Counters → Counters
put k c s j = if k == j then c else s j

-- GET, with '0' for a missing key.
abbrev pub count_of : Option Counter → ℕ
count_of none = 0
count_of (some c) = c.count

-- INCR keeps the expiry of a counter, and makes a new one without any.
abbrev pub incremented : Option Counter → Counter
incremented none = record { count = 1; expires_at = none }
incremented (some c) = record c { count = c.count + 1 }

-- PEXPIRE; a time that is not positive deletes the key.
abbrev pub expiring : ℕ → ℕ → Counter → Option Counter
expiring now zero c = none
expiring now (suc ms) c = some (record c { expires_at = some (now + suc ms) })

-- redisLoginRateLimitFailureScript: the counter that it leaves.
abbrev pub failed_once : ℕ → ℕ → Counter → Option Counter
failed_once now window c = if c.count == 1 then expiring now window c else some c

unfoldable pub failure_script : ℕ → ℕ → String → Counters → ℕ × Counters
failure_script now window k s =
    let c = incremented (held now s k) in (c.count, put k (failed_once now window c) s)

-- `digest` is SHA-256 in hexadecimal of the three parts with a zero character between them, and
-- `lower` is strings.ToLower.
module _ (l : LoginRateLimiter) (digest : String → String → String → String)
    (lower : String → String) where
  unfoldable pub key : LoginRateLimitIdentity → String
  key i =
      join l.key_prefix
        (digest (trim_space i.tenant_id) (lower (trim_space i.email)) (trim_space i.ip))

  -- An answer of an error refuses the login.
  unfoldable pub check : LoginRateLimitIdentity → ℕ → Counters → Option Error
  check i now s =
      if leb l.max_failures (count_of (held now s (key i))) then some login_rate_limited else none

  unfoldable pub record_failure : LoginRateLimitIdentity → ℕ → Counters → Counters
  record_failure i now s = (failure_script now l.window_ms (key i) s).1

  unfoldable pub reset : LoginRateLimitIdentity → Counters → Counters
  reset i s = put (key i) none s

  abbrev pub record_failures : LoginRateLimitIdentity → List ℕ → Counters → Counters
  record_failures i [] s = s
  record_failures i (now ∷ times) s = record_failures i times (record_failure i now s)
