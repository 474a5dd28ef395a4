-- ===== src/Queue/Concurrency.antt =====
-- concurrency.go: the limiter that counts the holders of a lease in sorted sets, by expiry time.
-- The lease's id is `idgen.New()`, an argument here; `now` and `ttl` are in milliseconds.
pub mod Bounds
pub mod Histories
pub mod Leases
pub mod Separation
pub mod Tests
use Prim.Native.Char.{Char, code}
use Prim.Native.String.{◌++◌ as join}
use Prim.Native.String
use amazon_ai_product_image.Base.{
  ℕ, zero, suc, ◌+◌, Bool, String, Option, none, some, List, [], ◌∷◌, ◌++◌, ◌==◌, string_eq, nat_eq,
  ltb, leb, if◌then◌else◌, ◌||◌,
}
use amazon_ai_product_image.Base.Int.{ℤ, pos, negsuc, leb_ℤ}
use amazon_ai_product_image.Base.Lists.{length}
use amazon_ai_product_image.Base.Text.{trim_space}
use amazon_ai_product_image.Redis.{Redis, zadd, zrem, zremrange_upto, pexpire, sadd, is_member}
use amazon_ai_product_image.Queue.{
  Error, Result, ok, err, M, pure, raise, ◌>>=◌, ◌>>◌, send, invalid_config, invalid_claim,
  concurrency_limited, concurrency_lease_lost, unavailable,
}

pub record ConcurrencyDimension : Type 0 where
  pub name : String
  pub value : String
  pub limit : ℤ

pub record ConcurrencyLease : Type 0 where
  pub id : String
  pub expires_at : ℕ
  pub keys : List String

pub record ConcurrencyLimiter : Type 0 where
  pub prefix : String
  pub keys_set : String

pub new_limiter : String → ConcurrencyLimiter
new_limiter queue_name =
    let prefix = join (trim_space queue_name) ":concurrency" in
    record { prefix = prefix; keys_set = join prefix ":keys" }

separates : ℕ → Bool
separates c = c == b':' || c == 32 || c == 10 || c == 13 || c == 9

replace_separators : String → String
unfolding separates
replace_separators String.[] = String.[]
replace_separators (String.◌∷◌ c s) =
    let rest = replace_separators s in
    if separates (code c) then join "_" rest else String.◌∷◌ c rest

pub normalize_key_part : String → String
unfolding replace_separators
normalize_key_part raw =
    let value = trim_space raw in if value == "" then "" else replace_separators value

pub key : ConcurrencyLimiter → ConcurrencyDimension → String
unfolding normalize_key_part
key l d =
    let name = normalize_key_part d.name in
    let value = normalize_key_part d.value in
    if name == "" || value == "" then "" else join l.prefix (join ":" (join name (join ":" value)))

-- The result of an action, an error too, as a value for the code that goes on after it.
pub attempt {ℓ} : {S : Type 0} {A : Type ℓ} → M S A → M S (Result A)
attempt m s = let (x, t) = m s in (ok x, t)

-- redisRenewSemaphoreScript, its first loop: every key has the member.
pub all_held : (r : Redis) → String → List String → r.Store → Bool
all_held r id [] s = Bool.true
all_held r id (k ∷ ks) s =
    if is_member id ((r.view s).zsets k) then all_held r id ks s else Bool.false

-- Its second loop.
pub renew_all : (r : Redis) → String → ℕ → ℕ → List String → r.Store → r.Store
renew_all r id expires ttl [] s = s
renew_all r id expires ttl (k ∷ ks) s =
    renew_all r id expires ttl ks (r.exec (pexpire k ttl) (r.exec (zadd k expires id) s))

pub renew_semaphore_script : (r : Redis) → String → ℕ → ℕ → List String → r.Store → ℕ × r.Store
renew_semaphore_script r id expires ttl keys s =
    if all_held r id keys s then (1, renew_all r id expires ttl keys s) else (0, s)

-- `strings.TrimSpace(key) != ""` over the keys of a lease.
pub named_keys : List String → List String
named_keys [] = []
named_keys (k ∷ ks) = if trim_space k == "" then named_keys ks else k ∷ named_keys ks

module _ (r : Redis) (l : ConcurrencyLimiter) where
  open r use {Store, view, exec}

  -- `if count >= limit then return 0 end`, after the expired members have gone.
  grant : String → String → ℤ → ℕ → ℕ → Store → ℕ × Store
  grant k id limit expires ttl s =
      if leb_ℤ limit (pos (length ((view s).zsets k)))
      then (0, s)
      else (1, exec (pexpire k ttl) (exec (zadd k expires id) s))

  pub acquire_semaphore_script : String → String → ℤ → ℕ → ℕ → ℕ → Store → ℕ × Store
  unfolding grant
  acquire_semaphore_script k id limit now expires ttl s =
      grant k id limit expires ttl (exec (zremrange_upto k now) s)

  pub acquire_key : String → String → ℤ → ℕ → ℕ → ℕ → M Store Bool
  acquire_key k id limit now expires ttl = do
    result ← send r (acquire_semaphore_script k id limit now expires ttl)
    pure (result == 1)

  pub release_each : String → List String → M Store (Unit {0})
  release_each id [] = pure tt
  release_each id (k ∷ ks) =
      if trim_space k == "" || trim_space id == ""
      then release_each id ks
      else do send r (λ s. (tt {0}, exec (zrem k id) s)); release_each id ks

  pub release : ConcurrencyLease → M Store (Unit {0})
  release lease = release_each lease.id lease.keys

  give_up : ConcurrencyLease → Error → M Store ConcurrencyLease
  give_up lease e = do attempt (release lease); raise e

  -- What follows SADD of a key that was granted.
  noted : ConcurrencyLease → M Store ConcurrencyLease → Result (Unit {0}) → M Store ConcurrencyLease
  unfolding give_up
  noted lease rest (ok _) = rest
  noted lease rest (err e) = give_up lease e

  -- What follows the answer of the script for a key; `rest` goes on with the other dimensions.
  granted :
      ConcurrencyLease → String → M Store ConcurrencyLease → Result Bool → M Store ConcurrencyLease
  unfolding noted give_up
  granted lease k rest (err e) = give_up lease e
  granted lease k rest (ok Bool.false) = give_up lease concurrency_limited
  granted lease k rest (ok Bool.true) = do
    added ← attempt (send r (λ s. (tt {0}, exec (sadd l.keys_set k) s)))
    noted (record lease { keys = lease.keys ++ k ∷ [] }) rest added

  pub acquire_each : ℕ → ℕ → ConcurrencyLease → List ConcurrencyDimension → M Store ConcurrencyLease
  unfolding granted
  acquire_each now ttl lease [] = pure lease
  acquire_each now ttl lease (d ∷ ds) =
      if leb_ℤ d.limit (pos 0)
      then acquire_each now ttl lease ds
      else if key l d == ""
      then acquire_each now ttl lease ds
      else do
        answer ← attempt (acquire_key (key l d) lease.id d.limit now lease.expires_at ttl)
        granted lease (key l d)
            (acquire_each now ttl (record lease { keys = lease.keys ++ key l d ∷ [] }) ds) answer

  pub acquire_for : String → List ConcurrencyDimension → ℤ → ℕ → M Store ConcurrencyLease
  acquire_for id dimensions (negsuc n) now = raise invalid_config
  acquire_for id dimensions (pos zero) now = raise invalid_config
  acquire_for id dimensions (pos (suc n)) now =
      acquire_each now (suc n) (record { id = id; expires_at = now + suc n; keys = [] }) dimensions

  pub acquire : String → List ConcurrencyDimension → ℤ → ℕ → M Store ConcurrencyLease
  acquire id dimensions ttl now =
      if trim_space l.prefix == "" then raise unavailable else acquire_for id dimensions ttl now

  renewed : ConcurrencyLease → ℕ → List String → Bool → M Store ConcurrencyLease
  renewed lease expires keys Bool.false = raise concurrency_lease_lost
  renewed lease expires keys Bool.true = pure (record lease { expires_at = expires; keys = keys })

  renew_keys : ConcurrencyLease → ℕ → ℕ → List String → M Store ConcurrencyLease
  unfolding renewed
  renew_keys lease ttl now [] = pure (record lease { expires_at = now + ttl })
  renew_keys lease ttl now (k ∷ ks) = do
    result ← send r (renew_semaphore_script r lease.id (now + ttl) ttl (k ∷ ks))
    renewed lease (now + ttl) (k ∷ ks) (result == 1)

  pub renew_for : ConcurrencyLease → ℤ → ℕ → M Store ConcurrencyLease
  unfolding renew_keys
  renew_for lease (negsuc n) now = raise invalid_config
  renew_for lease (pos zero) now = raise invalid_config
  renew_for lease (pos (suc n)) now =
      if trim_space lease.id == ""
      then raise invalid_claim
      else renew_keys lease (suc n) now (named_keys lease.keys)

  pub renew : ConcurrencyLease → ℤ → ℕ → M Store ConcurrencyLease
  renew lease ttl now =
      if trim_space l.prefix == "" then raise unavailable else renew_for lease ttl now

  reap_each : ℕ → List String → M Store (Unit {0})
  reap_each now [] = pure tt
  reap_each now (k ∷ ks) = do
    send r (λ s. (tt {0}, exec (zremrange_upto k now) s))
    reap_each now ks

  pub reap_stale : ℕ → M Store (Unit {0})
  unfolding reap_each
  reap_stale now = do keys ← send r (λ s. ((view s).sets l.keys_set, s)); reap_each now keys
