-- ===== src/Settings/Quota/Tests.antt =====
-- Runs of the storage quota on tables in memory, and what the theorems say of them.
use amazon_ai_product_image.Base.{
  ◌+◌, ◌≤◌, none, some, List, [], ◌∷◌, ◌==◌, string_eq, ◌≡◌, refl, arith, inl, inr, Bool-cases,
  if◌then◌else◌, ltb,
}
use amazon_ai_product_image.Base.Int.{pos}
use amazon_ai_product_image.Database.{ok, ◌>>=◌, pure}
use amazon_ai_product_image.Database.Memory.{memory}
use amazon_ai_product_image.Settings.Quota.{
  database_error, reserved, finalized, ReservationRow, Tables, StorageQuotaReservation,
  reserve_storage_quota, finalize_body, reserve_body, ensure_storage_quota_counter, exceeds,
  create_reservation, has_id, apply_storage_quota_counter_delta, delta_row, add_delta,
  reserved_or_exceeded, lock_storage_quota_reservation, find_reservation, settle_reservation,
  settle, metadata_storage_used_bytes,
}
use amazon_ai_product_image.Settings.Quota.Reserved.{IsBalanced, reserved_total}
use amazon_ai_product_image.Settings.Quota.Histories.{
  Call, reserving, finalizing, reconciling, decrementing, after_all, after_all-IsBalanced,
}
use amazon_ai_product_image.Settings.Quota.Limits.{
  accounted, exceeds-eq-ltb, reserve_storage_quota-accounted, finalize_body-again,
}
use amazon_ai_product_image.Settings.Quota.Progress.{finalize_body-total}

abbrev no_rows : Tables
no_rows = record { counters = λ k. none; reservations = []; assets = [] }

abbrev row : ReservationRow
row = record {
  id = "r1";
  tenant_id = "t1";
  bytes = 60;
  finalized_bytes = 0;
  status = reserved;
  expires_at = 86_400_000;
}

abbrev one_reserved : Tables
one_reserved = record {
  counters =
      λ k. if "t1" == k then some (record { used_bytes = 30; reserved_bytes = 60 }) else none;
  reservations = row ∷ [];
  assets = [];
}

abbrev reservation : StorageQuotaReservation
reservation = record { id = "r1"; bytes = pos 60 }

abbrev history : List (Call (memory database_error))
history =
    reserving (some 100) "t1" (pos 60) "r1" 0
    ∷ reserving (some 100) "t1" (pos 60) "r2" 0
    ∷ finalizing "t1" reservation (pos 50)
    ∷ decrementing "t1" (pos 20)
    ∷ reconciling "t1" 90_000_000
    ∷ []

after_all-IsBalanced_example : IsBalanced (after_all (memory database_error) history no_rows)
unfolding reserved_total
after_all-IsBalanced_example =
    after_all-IsBalanced (memory database_error) history no_rows (λ k. refl)

reserve_storage_quota-accounted_example :
    accounted (
      (reserve_storage_quota
          (memory database_error)
          (some 100)
          "t1"
          (pos 60)
          "r1"
          0
          no_rows).1.counters
        "t1")
    ≤ 100
unfolding reserve_storage_quota reserve_body ensure_storage_quota_counter exceeds create_reservation
    has_id apply_storage_quota_counter_delta delta_row add_delta reserved_or_exceeded ◌>>=◌ pure
    metadata_storage_used_bytes
reserve_storage_quota-accounted_example =
    reserve_storage_quota-accounted (memory database_error) 100 "t1" 59 "r1" 0 no_rows _ reservation
      refl

exceeds-eq-ltb_example :
    exceeds (some 100) (record { used_bytes = 30; reserved_bytes = 60 }) 11 ≡ ltb 100 (30 + 60 + 11)
exceeds-eq-ltb_example = exceeds-eq-ltb 100 (record { used_bytes = 30; reserved_bytes = 60 }) 11

abbrev one_finalized : Tables
one_finalized = record {
  counters = λ k.
      if "t1" == k
      then some (record { used_bytes = 80; reserved_bytes = 0 })
      else one_reserved.counters k;
  reservations = record row { status = finalized; finalized_bytes = 50 } ∷ [];
  assets = [];
}

finalize_body-again_example :
    finalize_body "t1" reservation 50 one_finalized ≡ ok (tt, one_finalized)
unfolding finalize_body ensure_storage_quota_counter lock_storage_quota_reservation find_reservation
    settle settle_reservation apply_storage_quota_counter_delta delta_row add_delta ◌>>=◌ pure
finalize_body-again_example =
    finalize_body-again "t1" reservation 50 one_reserved one_finalized refl

one_reserved-IsBalanced : IsBalanced one_reserved
unfolding reserved_total
one_reserved-IsBalanced k = elim (Bool-cases ("t1" == k)) [ inl e ↦ rw e refl | inr e ↦ rw e refl ]

finalize_body-total_example :
    (v : Tables) × (finalize_body "t1" reservation 50 one_reserved ≡ ok (tt, v))
unfolding reserved_total find_reservation
finalize_body-total_example =
    finalize_body-total "t1" reservation row 50 one_reserved one_reserved-IsBalanced refl refl refl
      refl refl (omega arith)
