-- ===== src/Settings/Quota/Histories.antt =====
-- quota.go: histories of the operations.
use amazon_ai_product_image.Base.{
  ℕ, zero, suc, Bool, true, false, String, Option, List, [], ◌∷◌, ◌==◌, string_eq, nat_eq,
  if◌then◌else◌, ◌&&◌, ◌≡◌,
}
use amazon_ai_product_image.Base.Int.{ℤ, pos, negsuc, ltb_ℤ}
use amazon_ai_product_image.Database.{ok, Tx, Database, transaction-preserves}
use amazon_ai_product_image.Settings.Quota.{
  reserve_storage_quota, finalize_storage_quota_reservation, release_storage_quota_reservation,
  reconcile_storage_quota_counter, decrement_storage_quota_used_bytes, is_empty, Error,
  database_error, Tables, StorageQuotaReservation, reserve_body, finalize_body, release_body,
  reconcile_body, decrement_body,
}
use amazon_ai_product_image.Settings.Quota.Reserved.{IsBalanced}
use amazon_ai_product_image.Settings.Quota.Balance.{
  reserve_body-IsBalanced, finalize_body-IsBalanced, release_body-IsBalanced,
  reconcile_body-IsBalanced, decrement_body-IsBalanced,
}

module _ (db : Database Tables Error database_error) where
  open db use {Store, tables}

  -- `P` holds of the tables before a transaction, so of those after it.
  keeps :
      {A : Type 0} (body : Tx Tables Error A)
      → ((t v : Tables) (a : A) → body t ≡ ok (a, v) → IsBalanced t → IsBalanced v)
      → (s : Store) → IsBalanced (tables s)
      → IsBalanced (tables (db.transaction body s).1)
  keeps body h = transaction-preserves db (λ t u. IsBalanced t → IsBalanced u) (λ t b. b) body h

  if-keeps :
      {A : Type 0} (b : Bool) (x y : A × Store)
      → IsBalanced (tables x.1)
      → IsBalanced (tables y.1)
      → IsBalanced (tables (if b then x else y).1)
  if-keeps true x y h k = h
  if-keeps false x y h k = k

  -- A call of the quota's operations, by its arguments.
  pub data Call : Type 0 where
    reserving : Option ℕ → String → ℤ → String → ℕ → Call
    finalizing : String → StorageQuotaReservation → ℤ → Call
    releasing : String → StorageQuotaReservation → Call
    reconciling : String → ℕ → Call
    decrementing : String → ℤ → Call

  abbrev pub after : Call → Store → Store
  after (reserving quota tenant n id now) s = (reserve_storage_quota db quota tenant n id now s).1
  after (finalizing tenant r n) s = (finalize_storage_quota_reservation db tenant r n s).1
  after (releasing tenant r) s = (release_storage_quota_reservation db tenant r s).1
  after (reconciling tenant now) s = (reconcile_storage_quota_counter db tenant now s).1
  after (decrementing tenant n) s = (decrement_storage_quota_used_bytes db tenant n s).1

  abbrev pub after_all : List Call → Store → Store
  after_all [] s = s
  after_all (c ∷ cs) s = after_all cs (after c s)

  after-IsBalanced :
      (c : Call) (s : Store) → IsBalanced (tables s) → IsBalanced (tables (after c s))
  unfolding reserve_storage_quota finalize_storage_quota_reservation
      release_storage_quota_reservation reconcile_storage_quota_counter
      decrement_storage_quota_used_bytes
  after-IsBalanced (reserving quota tenant (negsuc n) id now) s b = b
  after-IsBalanced (reserving quota tenant (pos zero) id now) s b = b
  after-IsBalanced (reserving quota tenant (pos (suc n)) id now) s b =
      keeps (reserve_body quota tenant (suc n) id now)
        (reserve_body-IsBalanced quota tenant (suc n) id now) s b
  after-IsBalanced (finalizing tenant r (negsuc n)) s b = b
  after-IsBalanced (finalizing tenant r (pos n)) s b = if-keeps (is_empty r && n == 0) _ _ b (
      if-keeps (ltb_ℤ r.bytes (pos n)) _ _ b
        (keeps (finalize_body tenant r n) (finalize_body-IsBalanced tenant r n) s b))
  after-IsBalanced (releasing tenant r) s b =
      if-keeps (is_empty r) _ _ b
        (keeps (release_body tenant r) (release_body-IsBalanced tenant r) s b)
  after-IsBalanced (reconciling tenant now) s b =
      keeps (reconcile_body tenant now) (reconcile_body-IsBalanced tenant now) s b
  after-IsBalanced (decrementing tenant (negsuc n)) s b = b
  after-IsBalanced (decrementing tenant (pos zero)) s b = b
  after-IsBalanced (decrementing tenant (pos (suc n))) s b =
      keeps (decrement_body tenant (suc n)) (decrement_body-IsBalanced tenant (suc n)) s b

  -- If every tenant's counter holds the bytes of its reservations that are neither finalized
  -- nor released, and a tenant without a counter has no such bytes, then so it is after any
  -- history of reserving, finalizing, releasing, reconciling and decrementing, whatever the
  -- transactions return.
  pub after_all-IsBalanced :
      (calls : List Call) (s : Store)
      → IsBalanced (tables s)
      → IsBalanced (tables (after_all calls s))
  after_all-IsBalanced [] s b = b
  after_all-IsBalanced (c ∷ cs) s b = after_all-IsBalanced cs (after c s) (after-IsBalanced c s b)
