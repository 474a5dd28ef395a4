-- ===== src/Settings/TaskConcurrency.antt =====
-- The task concurrency policy: service.go and types.go. Go's `int` has 64 bits.
-- `decode` is decodeStoredTaskConcurrency, which is a call of encoding/json: none is its error.
pub mod Limits
pub mod Tests
use amazon_ai_product_image.Base.{
  ℕ, Bool, String, Option, none, some, List, [], ◌∷◌, ◌++◌, ◌==◌, string_eq, if◌then◌else◌, ◌&&◌,
  ◌||◌,
}
use amazon_ai_product_image.Base.Int.{ℤ, pos, ltb_ℤ, leb_ℤ}
use amazon_ai_product_image.Base.Text.{trim_space}
use amazon_ai_product_image.Database.{Result, ok, err, Tx, ◌>>=◌, ◌>>◌, pure, raise, Database}

pub data Error : Type 0 where
  validation missing_tenant_id stored_task_concurrency_invalid database_error : Error

pub record TaskConcurrency : Type 0 where
  pub tenant_limit : ℤ
  pub user_limit : ℤ
  pub provider_limit : ℤ
  pub model_limit : ℤ

pub record TaskConcurrencyPatch : Type 0 where
  pub new_tenant_limit : Option ℤ
  pub new_user_limit : Option ℤ
  pub new_provider_limit : Option ℤ
  pub new_model_limit : Option ℤ

-- The `value_json` of the system settings, by tenant and key, which are unique.
abbrev pub Values : Type 0
Values = String → String → Option String

abbrev pub key_task_concurrency : String
key_task_concurrency = "task_concurrency"

abbrev pub max_int_value : ℤ
max_int_value = pos 9_223_372_036_854_775_807

unfoldable pub find_by_key : String → String → Values → Result Error (Option String)
find_by_key tenant raw values =
    let key = trim_space raw in
    if tenant == ""
    then err missing_tenant_id
    else if key == ""
    then err validation
    else ok (values tenant key)

abbrev pub at_least_one : ℤ → ℤ
at_least_one n = if leb_ℤ n (pos 0) then pos 1 else n

unfoldable pub normalize_task_concurrency_hard_cap : TaskConcurrency → TaskConcurrency
normalize_task_concurrency_hard_cap policy = record {
  tenant_limit = at_least_one policy.tenant_limit;
  user_limit = at_least_one policy.user_limit;
  provider_limit = at_least_one policy.provider_limit;
  model_limit = at_least_one policy.model_limit;
}

abbrev pub at_most : ℤ → ℤ → ℤ
at_most n cap = if ltb_ℤ cap n then cap else n

unfoldable pub clamp_task_concurrency_to_hard_cap :
    TaskConcurrency → TaskConcurrency → TaskConcurrency
clamp_task_concurrency_to_hard_cap policy raw =
    let hard_cap = normalize_task_concurrency_hard_cap raw in
    record {
      tenant_limit = at_most policy.tenant_limit hard_cap.tenant_limit;
      user_limit = at_most policy.user_limit hard_cap.user_limit;
      provider_limit = at_most policy.provider_limit hard_cap.provider_limit;
      model_limit = at_most policy.model_limit hard_cap.model_limit;
    }

-- The fields and ranges of the error are left out.
unfoldable pub validate_task_concurrency_within_hard_cap :
    TaskConcurrency → TaskConcurrency → Result Error (Unit {0})
validate_task_concurrency_within_hard_cap policy raw =
    let hard_cap = normalize_task_concurrency_hard_cap raw in
    if leb_ℤ policy.tenant_limit (pos 0)
    then err validation
    else if leb_ℤ policy.user_limit (pos 0)
    then err validation
    else if leb_ℤ policy.provider_limit (pos 0)
    then err validation
    else if leb_ℤ policy.model_limit (pos 0)
    then err validation
    else if ltb_ℤ hard_cap.tenant_limit policy.tenant_limit
    then err validation
    else if ltb_ℤ hard_cap.user_limit policy.user_limit
    then err validation
    else if ltb_ℤ hard_cap.provider_limit policy.provider_limit
    then err validation
    else if ltb_ℤ hard_cap.model_limit policy.model_limit
    then err validation
    else ok tt

-- A policy that its validation has passed or refused.
abbrev pub accepted :
    Error → TaskConcurrency → Result Error (Unit {0}) → Result Error TaskConcurrency
accepted e policy (ok _) = ok policy
accepted e policy (err _) = err e

abbrev pub decoded : TaskConcurrency → Option TaskConcurrency → Result Error TaskConcurrency
decoded hard_cap none = err stored_task_concurrency_invalid
decoded hard_cap (some policy) =
    accepted stored_task_concurrency_invalid policy
      (validate_task_concurrency_within_hard_cap policy hard_cap)

abbrev pub stored :
    (String → Option TaskConcurrency)
    → TaskConcurrency
    → TaskConcurrency
    → Result Error (Option String)
    → Result Error TaskConcurrency
stored decode defaults hard_cap (err e) = err e
stored decode defaults hard_cap (ok none) = ok defaults
stored decode defaults hard_cap (ok (some json)) = decoded hard_cap (decode json)

unfoldable pub load_task_concurrency_with_defaults :
    (String → Option TaskConcurrency)
    → Values
    → String
    → TaskConcurrency
    → TaskConcurrency
    → Result Error TaskConcurrency
load_task_concurrency_with_defaults decode values tenant raw_defaults raw_cap =
    let hard_cap = normalize_task_concurrency_hard_cap raw_cap in
    let defaults =
      clamp_task_concurrency_to_hard_cap (normalize_task_concurrency_hard_cap raw_defaults)
        hard_cap in
    stored decode defaults hard_cap (find_by_key tenant key_task_concurrency values)

-- A field of a patch: its new value and the name that it adds to the changed fields.
unfoldable pub patch_limit : String → Option ℤ → ℤ → List String → Result Error (ℤ × List String)
patch_limit name none current changed = ok (current, changed)
patch_limit name (some n) current changed =
    if ltb_ℤ max_int_value n then err validation else ok (n, changed ++ name ∷ [])

unfoldable pub patch_then :
    {A : Type 0}
    → Result Error (ℤ × List String)
    → (ℤ → List String → Result Error A)
    → Result Error A
patch_then (ok (n, changed)) f = f n changed
patch_then (err e) f = err e

abbrev pub accepted_fields :
    TaskConcurrency
    → List String
    → Result Error (Unit {0})
    → Result Error (TaskConcurrency × List String)
accepted_fields policy changed (ok _) = ok (policy, changed)
accepted_fields policy changed (err e) = err e

unfoldable pub apply_task_concurrency_patch :
    TaskConcurrency
    → TaskConcurrencyPatch
    → TaskConcurrency
    → Result Error (TaskConcurrency × List String)
apply_task_concurrency_patch current patch hard_cap =
    patch_then
      (patch_limit "taskConcurrency.tenantLimit" patch.new_tenant_limit current.tenant_limit [])
      λ tenant c1.
        patch_then
          (patch_limit "taskConcurrency.userLimit" patch.new_user_limit current.user_limit c1)
          λ user c2.
            patch_then
              (patch_limit "taskConcurrency.providerLimit" patch.new_provider_limit
                current.provider_limit c2)
              λ provider c3.
                patch_then
                  (patch_limit "taskConcurrency.modelLimit" patch.new_model_limit
                    current.model_limit c3)
                  λ model c4.
                    let updated : TaskConcurrency = record {
                      tenant_limit = tenant;
                      user_limit = user;
                      provider_limit = provider;
                      model_limit = model;
                    } in
                    accepted_fields updated c4
                      (validate_task_concurrency_within_hard_cap updated hard_cap)

-- INSERT … ON DUPLICATE KEY UPDATE.
unfoldable pub upsert : String → String → String → Tx Values Error (Unit {0})
upsert tenant raw raw_json values =
    let key = trim_space raw in
    let json = trim_space raw_json in
    if tenant == ""
    then err missing_tenant_id
    else if key == "" || json == ""
    then err validation
    else ok (tt, λ k j. if tenant == k && key == j then some json else values k j)

abbrev pub answered : {A : Type 0} → (Values → Result Error A) → Tx Values Error A
answered read values = elim (read values) [ ok a ↦ ok (a, values) | err e ↦ err e ]

abbrev pub no_names : List String → Bool
no_names [] = Bool.true
no_names (_ ∷ _) = Bool.false

-- `encode` is json.Marshal, which does not fail on a policy. The audit record is left out.
module _ (db : Database Values Error database_error) (decode : String → Option TaskConcurrency)
    (encode : TaskConcurrency → String) where
  open db use {Store, transaction}

  abbrev pub save_policy :
      String
      → Result Error (TaskConcurrency × List String)
      → Store
      → Result Error TaskConcurrency × Store
  save_policy tenant (err e) s = (err e, s)
  save_policy tenant (ok (updated, changed)) s =
      if no_names changed
      then (err validation, s)
      else transaction (do upsert tenant key_task_concurrency (encode updated); pure updated) s

  abbrev pub patch_loaded :
      String
      → TaskConcurrencyPatch
      → TaskConcurrency
      → Result Error TaskConcurrency × Store
      → Result Error TaskConcurrency × Store
  patch_loaded tenant patch cap (err e, s) = (err e, s)
  patch_loaded tenant patch cap (ok current, s) =
      save_policy tenant (apply_task_concurrency_patch current patch cap) s

  unfoldable pub update_task_concurrency :
      String
      → TaskConcurrency
      → TaskConcurrency
      → TaskConcurrencyPatch
      → Store
      → Result Error TaskConcurrency × Store
  update_task_concurrency raw defaults cap patch s =
      let tenant = trim_space raw in
      if tenant == ""
      then (err missing_tenant_id, s)
      else patch_loaded tenant patch cap (
          transaction
            (answered
              λ values. load_task_concurrency_with_defaults decode values tenant defaults cap)
            s)
