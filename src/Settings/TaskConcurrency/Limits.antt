-- ===== src/Settings/TaskConcurrency/Limits.antt =====
-- The limits of a policy that a tenant's tasks run under.
use amazon_ai_product_image.Base.{
  false, String, Option, none, some, List, ◌≡◌, refl, arith, Bool-cases, inl, inr, sym, ap, ◌∙◌,
  subst, ◌==◌, string_eq, beq_self,
}
use amazon_ai_product_image.Base.Int.{ℤ, pos, ◌≤ℤ◌, leb_ℤ, ltb_ℤ}
use amazon_ai_product_image.Database.{
  Result, ok, err, ok-injective, Database, pure, ◌>>◌, >>=-eq-ok, ok-eq-ok, transaction-eq-ok,
}
use amazon_ai_product_image.Base.Text.{trim_space}
use amazon_ai_product_image.Settings.TaskConcurrency.{
  Error, TaskConcurrency, TaskConcurrencyPatch, Values, find_by_key, at_least_one, at_most,
  normalize_task_concurrency_hard_cap, clamp_task_concurrency_to_hard_cap,
  validate_task_concurrency_within_hard_cap, accepted, decoded, stored,
  load_task_concurrency_with_defaults, key_task_concurrency, patch_then, accepted_fields,
  apply_task_concurrency_patch, upsert, database_error, save_policy, patch_loaded,
  update_task_concurrency, no_names,
}

-- Each limit is 1 at least, and the cap at most or 1.
pub record IsWithin (p hard_cap : TaskConcurrency) : Type 0 where
  pub tenant_low : pos 1 ≤ℤ p.tenant_limit
  pub user_low : pos 1 ≤ℤ p.user_limit
  pub provider_low : pos 1 ≤ℤ p.provider_limit
  pub model_low : pos 1 ≤ℤ p.model_limit
  pub tenant_high : p.tenant_limit ≤ℤ at_least_one hard_cap.tenant_limit
  pub user_high : p.user_limit ≤ℤ at_least_one hard_cap.user_limit
  pub provider_high : p.provider_limit ≤ℤ at_least_one hard_cap.provider_limit
  pub model_high : p.model_limit ≤ℤ at_least_one hard_cap.model_limit

above : (n : ℤ) → leb_ℤ n (pos 0) ≡ false → pos 1 ≤ℤ n
above n h = ground arith

below : (n cap : ℤ) → ltb_ℤ cap n ≡ false → n ≤ℤ cap
below n cap h = ground arith

clamped_low : (n cap : ℤ) → pos 1 ≤ℤ at_most (at_least_one n) (at_least_one (at_least_one cap))
clamped_low n cap = ground arith

clamped_high :
    (n cap : ℤ) → at_most (at_least_one n) (at_least_one (at_least_one cap)) ≤ℤ at_least_one cap
clamped_high n cap = ground arith

-- What the validation accepts.
validate-IsWithin :
    (p cap : TaskConcurrency)
    → validate_task_concurrency_within_hard_cap p cap ≡ ok tt
    → IsWithin p cap
unfolding validate_task_concurrency_within_hard_cap normalize_task_concurrency_hard_cap
validate-IsWithin p cap h = record {
  tenant_low = ground (arith, h);
  user_low = ground (arith, h);
  provider_low = ground (arith, h);
  model_low = ground (arith, h);
  tenant_high = ground (arith, h);
  user_high = ground (arith, h);
  provider_high = ground (arith, h);
  model_high = ground (arith, h);
}

IsWithin-validate :
    (p cap : TaskConcurrency)
    → IsWithin p cap
    → validate_task_concurrency_within_hard_cap p (normalize_task_concurrency_hard_cap cap) ≡ ok tt
unfolding validate_task_concurrency_within_hard_cap normalize_task_concurrency_hard_cap
IsWithin-validate p cap w = ground (arith, w)

normalized-IsWithin :
    (p cap : TaskConcurrency)
    → IsWithin p (normalize_task_concurrency_hard_cap cap)
    → IsWithin p cap
unfolding normalize_task_concurrency_hard_cap
normalized-IsWithin p cap w = record {
  tenant_low = w.tenant_low;
  user_low = w.user_low;
  provider_low = w.provider_low;
  model_low = w.model_low;
  tenant_high = ground (arith, w.tenant_high);
  user_high = ground (arith, w.user_high);
  provider_high = ground (arith, w.provider_high);
  model_high = ground (arith, w.model_high);
}

clamped-IsWithin :
    (p cap : TaskConcurrency)
    → IsWithin
        (clamp_task_concurrency_to_hard_cap
          (normalize_task_concurrency_hard_cap p)
          (normalize_task_concurrency_hard_cap cap))
        cap
unfolding clamp_task_concurrency_to_hard_cap normalize_task_concurrency_hard_cap
clamped-IsWithin p cap = record {
  tenant_low = clamped_low p.tenant_limit cap.tenant_limit;
  user_low = clamped_low p.user_limit cap.user_limit;
  provider_low = clamped_low p.provider_limit cap.provider_limit;
  model_low = clamped_low p.model_limit cap.model_limit;
  tenant_high = clamped_high p.tenant_limit cap.tenant_limit;
  user_high = clamped_high p.user_limit cap.user_limit;
  provider_high = clamped_high p.provider_limit cap.provider_limit;
  model_high = clamped_high p.model_limit cap.model_limit;
}

accepted-eq-ok :
    (e : Error) (policy : TaskConcurrency) (x : Result Error (Unit {0})) {p : TaskConcurrency}
    → accepted e policy x ≡ ok p
    → (x ≡ ok tt) × (policy ≡ p)
accepted-eq-ok e policy (ok _) h = (refl, cc h)
accepted-eq-ok e policy (err _) h = absurd (cc h)

-- Whatever the stored text and the defaults are, a policy that is loaded without an error has
-- each of its limits between 1 and the hard cap, a cap below 1 counting as 1.
pub load_task_concurrency-IsWithin :
    (decode : String → Option TaskConcurrency) (values : Values) (tenant : String)
    (defaults cap p : TaskConcurrency)
    → load_task_concurrency_with_defaults decode values tenant defaults cap ≡ ok p
    → IsWithin p cap
unfolding load_task_concurrency_with_defaults
load_task_concurrency-IsWithin decode values tenant defaults cap p h =
    go (find_by_key tenant key_task_concurrency values) h
  where
    from :
        (o : Option TaskConcurrency)
        → decoded (normalize_task_concurrency_hard_cap cap) o ≡ ok p
        → IsWithin p cap
    from none k = absurd (cc k)
    from (some q) k =
        let (valid, same) = accepted-eq-ok _ q _ k in
        subst (λ z. IsWithin z cap) same
          (normalized-IsWithin q cap
            (validate-IsWithin q (normalize_task_concurrency_hard_cap cap) valid))

    go :
        (found : Result Error (Option String))
        → stored decode
            (clamp_task_concurrency_to_hard_cap
              (normalize_task_concurrency_hard_cap defaults)
              (normalize_task_concurrency_hard_cap cap))
            (normalize_task_concurrency_hard_cap cap)
            found
          ≡ ok p
        → IsWithin p cap
    go (err e) k = absurd (cc k)
    go (ok none) k = subst (λ z. IsWithin z cap) (cc k) (clamped-IsWithin defaults cap)
    go (ok (some json)) k = from (decode json) k

accepted_fields-eq-ok :
    (policy : TaskConcurrency) (changed : List String) (x : Result Error (Unit {0}))
    {p : TaskConcurrency × List String}
    → accepted_fields policy changed x ≡ ok p
    → (x ≡ ok tt) × (policy ≡ p.0)
accepted_fields-eq-ok policy changed (ok _) h = (refl, ap (λ z. z.0) (ok-injective h))
accepted_fields-eq-ok policy changed (err _) h = absurd (cc h)

patch_then-eq-ok :
    {A : Type 0} (x : Result Error (ℤ × List String)) (f : ℤ → List String → Result Error A) {a : A}
    → patch_then x f ≡ ok a
    → (n : ℤ) × (changed : List String) × (f n changed ≡ ok a)
unfolding patch_then
patch_then-eq-ok (ok (n, changed)) f h = (n, changed, h)
patch_then-eq-ok (err e) f h = absurd (cc h)

-- A patch that is accepted gives a policy whose limits all lie between 1 and the hard cap.
pub apply_task_concurrency_patch-IsWithin :
    (current : TaskConcurrency) (patch : TaskConcurrencyPatch) (cap : TaskConcurrency)
    {p : TaskConcurrency × List String}
    → apply_task_concurrency_patch current patch cap ≡ ok p
    → IsWithin p.0 cap
unfolding apply_task_concurrency_patch
apply_task_concurrency_patch-IsWithin current patch cap h =
    let (a, c1, h1) = patch_then-eq-ok _ _ h in
    let (b, c2, h2) = patch_then-eq-ok _ _ h1 in
    let (c, c3, h3) = patch_then-eq-ok _ _ h2 in
    let (d, c4, h4) = patch_then-eq-ok _ _ h3 in
    let (valid, same) = accepted_fields-eq-ok _ c4 _ h4 in
    subst (λ z. IsWithin z cap) same (validate-IsWithin _ cap valid)

-- A text that decodes to a policy within the cap is loaded as that policy.
load-of-stored :
    (decode : String → Option TaskConcurrency) (values : Values) (tenant json : String)
    (defaults cap p : TaskConcurrency)
    → (tenant == "") ≡ false
    → values tenant key_task_concurrency ≡ some json
    → decode json ≡ some p
    → IsWithin p cap
    → load_task_concurrency_with_defaults decode values tenant defaults cap ≡ ok p
unfolding load_task_concurrency_with_defaults find_by_key trim_space
load-of-stored decode values tenant json defaults cap p named at reads within =
    rw (named, at, reads, IsWithin-validate p cap within) refl

-- What an upsert writes.
upsert-eq-ok :
    (tenant json : String) (t u : Values) {a : Unit {0}}
    → upsert tenant key_task_concurrency json t ≡ ok (a, u)
    → ((tenant == "") ≡ false) × (u tenant key_task_concurrency ≡ some (trim_space json))
unfolding upsert trim_space
upsert-eq-ok tenant json t u h = elim (Bool-cases (tenant == "")) [
  | inl nobody ↦ absurd (cc (rw nobody at h))
  | inr named ↦ elim (Bool-cases (trim_space json == "")) [
    | inl blank ↦ absurd (cc (rw (named, blank) at h))
    | inr text ↦ (
      named,
      ap (λ v. v tenant key_task_concurrency) (sym (ok-eq-ok (rw (named, text) at h)))
          ∙ rw (beq_self tenant) refl,
    )
  ]
]

module _ (db : Database Values Error database_error) (decode : String → Option TaskConcurrency)
    (encode : TaskConcurrency → String) where
  open db use {Store, tables}

  saved-eq-ok :
      (tenant : String) (cap : TaskConcurrency) (x : Result Error (TaskConcurrency × List String))
      (s : Store) {p : TaskConcurrency} {v : Store}
      → ((q : TaskConcurrency × List String) → x ≡ ok q → IsWithin q.0 cap)
      → save_policy db decode encode tenant x s ≡ (ok p, v)
      → IsWithin p cap
        × ((tenant == "") ≡ false)
        × (tables v tenant key_task_concurrency ≡ some (trim_space (encode p)))
  unfolding pure
  saved-eq-ok tenant cap (err e) s within h = absurd (cc h)
  saved-eq-ok tenant cap (ok (updated, changed)) s {p} {v} within h =
      elim (Bool-cases (no_names changed)) [
        | inl none_ ↦ absurd (cc (rw none_ at h))
        | inr some_ ↦
            let ran =
              transaction-eq-ok db (λ t u. Unit {0}) (λ t. tt)
                (do upsert tenant key_task_concurrency (encode updated); pure updated) s {a = p}
                {v = v} (rw some_ at h) in
            let (a, u, wrote, last) = >>=-eq-ok _ _ (tables s) ran in
            let (named, at) = upsert-eq-ok tenant (encode updated) (tables s) u wrote in
            let same : updated ≡ p = cc last in
            (
              subst (λ z. IsWithin z cap) same (within (updated, changed) refl),
              named,
              subst (λ z. z tenant key_task_concurrency ≡ some (trim_space (encode p)))
                  (ok-eq-ok last)
                  (subst (λ z. u tenant key_task_concurrency ≡ some (trim_space (encode z))) same
                    at),
            )
      ]

  -- If the update of a tenant's policy succeeds and the text that it stored decodes to the
  -- policy that it answered with, then loading the tenant's policy under the same hard cap
  -- gives that policy, whatever the defaults.
  pub load-update_task_concurrency :
      (raw : String) (defaults others cap : TaskConcurrency) (patch : TaskConcurrencyPatch)
      (s v : Store) (p : TaskConcurrency)
      → update_task_concurrency db decode encode raw defaults cap patch s ≡ (ok p, v)
      → decode (trim_space (encode p)) ≡ some p
      → load_task_concurrency_with_defaults decode (tables v) (trim_space raw) others cap ≡ ok p
  unfolding update_task_concurrency
  load-update_task_concurrency raw defaults others cap patch s v p h reads =
      elim (Bool-cases (trim_space raw == "")) [
        | inl nobody ↦ absurd (cc (rw nobody at h))
        | inr named ↦ go _ (rw named at h)
      ]
    where
      go :
          (x : Result Error TaskConcurrency × Store)
          → patch_loaded db decode encode (trim_space raw) patch cap x ≡ (ok p, v)
          → load_task_concurrency_with_defaults decode (tables v) (trim_space raw) others cap ≡ ok p
      go (err e, t) k = absurd (cc k)
      go (ok current, t) k =
          let (within, named, at) =
            saved-eq-ok (trim_space raw) cap (apply_task_concurrency_patch current patch cap) t
              (λ q. apply_task_concurrency_patch-IsWithin current patch cap) k in
          load-of-stored decode (tables v) (trim_space raw) (trim_space (encode p)) others cap p
            named at reads within
