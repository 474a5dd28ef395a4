-- ===== src/Settings/TaskConcurrency/Tests.antt =====
-- A tenant's policy, loaded and patched, in memory.
use amazon_ai_product_image.Base.{
  String, Option, none, some, ◌==◌, string_eq, ◌≡◌, refl, if◌then◌else◌, ◌&&◌,
}
use amazon_ai_product_image.Base.Int.{ℤ, pos}
use amazon_ai_product_image.Base.Text.{trim_space}
use amazon_ai_product_image.Database.{ok, ◌>>=◌, pure}
use amazon_ai_product_image.Database.Memory.{memory}
use amazon_ai_product_image.Settings.TaskConcurrency.{
  TaskConcurrency, TaskConcurrencyPatch, Values, database_error,
  load_task_concurrency_with_defaults, update_task_concurrency, find_by_key,
  normalize_task_concurrency_hard_cap, clamp_task_concurrency_to_hard_cap,
  validate_task_concurrency_within_hard_cap, patch_limit, patch_then, apply_task_concurrency_patch,
  upsert, key_task_concurrency,
}
use amazon_ai_product_image.Settings.TaskConcurrency.Limits.{
  IsWithin, load_task_concurrency-IsWithin, load-update_task_concurrency,
}

abbrev even : ℤ → TaskConcurrency
even n = record { tenant_limit = n; user_limit = n; provider_limit = n; model_limit = n }

abbrev stored_policy : TaskConcurrency
stored_policy = record (even (pos 2)) { user_limit = pos 3 }

abbrev patch : TaskConcurrencyPatch
patch = record {
  new_tenant_limit = none;
  new_user_limit = some (pos 3);
  new_provider_limit = none;
  new_model_limit = none;
}

-- The only text that is ever stored here is that of the one policy.
abbrev decode : String → Option TaskConcurrency
decode s = if s == "policy" then some stored_policy else none

abbrev no_values : Values
no_values k j = none

abbrev one_value : Values
one_value k j = if "t1" == k && key_task_concurrency == j then some "policy" else no_values k j

load_task_concurrency-IsWithin_example : IsWithin stored_policy (even (pos 4))
unfolding load_task_concurrency_with_defaults find_by_key trim_space
    normalize_task_concurrency_hard_cap validate_task_concurrency_within_hard_cap
load_task_concurrency-IsWithin_example =
    load_task_concurrency-IsWithin decode one_value "t1" (even (pos 2)) (even (pos 4)) stored_policy
      refl

load-update_task_concurrency_example :
    load_task_concurrency_with_defaults decode one_value
      (trim_space "t1")
      (even (pos 1))
      (even (pos 4))
    ≡ ok stored_policy
unfolding update_task_concurrency load_task_concurrency_with_defaults find_by_key trim_space
    normalize_task_concurrency_hard_cap clamp_task_concurrency_to_hard_cap
    validate_task_concurrency_within_hard_cap patch_limit patch_then apply_task_concurrency_patch
    upsert ◌>>=◌ pure
load-update_task_concurrency_example =
    load-update_task_concurrency (memory database_error) decode (λ p. "policy") "t1" (even (pos 2))
      (even (pos 1)) (even (pos 4)) patch no_values one_value stored_policy refl refl
