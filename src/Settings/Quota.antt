-- ===== src/Settings/Quota.antt =====
-- quota.go: the bytes that a tenant has stored and reserved.
-- The byte columns are BIGINT UNSIGNED, so a row holds natural numbers; the byte arguments are int64.
-- Times are milliseconds; `id` is `idgen.New()`.
pub mod Reserved
pub mod Outcomes
pub mod Balance
pub mod Histories
pub mod Limits
pub mod Progress
pub mod Tests
use amazon_ai_product_image.Base.{
  ℕ, zero, suc, ◌+◌, ◌-◌, Bool, String, Option, none, some, List, [], ◌∷◌, ◌==◌, string_eq, nat_eq,
  not, ltb, leb, if◌then◌else◌, ◌||◌, ◌&&◌,
}
use amazon_ai_product_image.Base.Int.{ℤ, pos, negsuc, ltb_ℤ}
use amazon_ai_product_image.Database.{Result, ok, err, Tx, ◌>>=◌, ◌>>◌, pure, raise, Database}

pub data Error : Type 0 where
  validation missing_tenant_id storage_quota_exceeded : Error
  storage_quota_counter_invalid storage_quota_reservation_invalid : Error
  record_not_found database_error : Error

-- `other` is any text that is none of the three.
pub data Status : Type 0 where
  reserved finalized released other : Status

pub record ReservationRow : Type 0 where
  pub id : String
  pub tenant_id : String
  pub bytes : ℕ
  pub finalized_bytes : ℕ
  pub status : Status
  pub expires_at : ℕ

pub record Counter : Type 0 where
  pub used_bytes : ℕ
  pub reserved_bytes : ℕ

pub record AssetRow : Type 0 where
  pub tenant_id : String
  pub size_bytes : ℕ
  pub purged : Bool

-- A tenant has one counter at most: `tenant_id` is a unique key of storage_quota_counters.
pub record Tables : Type 0 where
  pub counters : String → Option Counter
  pub reservations : List ReservationRow
  pub assets : List AssetRow

pub record StorageQuotaReservation : Type 0 where
  pub id : String
  pub bytes : ℤ

abbrev pub storage_quota_reservation_ttl : ℕ
storage_quota_reservation_ttl = 86_400_000

abbrev pub set_counter : String → Counter → Tables → Tables
set_counter tenant c t = record t { counters = λ k. if tenant == k then some c else t.counters k }

-- SELECT COALESCE(SUM(size_bytes), 0) … WHERE tenant_id = ? AND purged_at IS NULL.
unfoldable pub metadata_storage_used_bytes : String → List AssetRow → ℕ
metadata_storage_used_bytes tenant [] = 0
metadata_storage_used_bytes tenant (a ∷ as') =
    (if a.tenant_id == tenant && not a.purged then a.size_bytes else 0)
    + metadata_storage_used_bytes tenant as'

abbrev pub is_reserved : Status → Bool
is_reserved reserved = Bool.true
is_reserved _ = Bool.false

-- SELECT COALESCE(SUM(bytes), 0) … WHERE tenant_id = ? AND status = 'RESERVED' AND expires_at > ?.
unfoldable pub active_storage_quota_reserved_bytes : String → ℕ → List ReservationRow → ℕ
active_storage_quota_reserved_bytes tenant now [] = 0
active_storage_quota_reserved_bytes tenant now (x ∷ xs) =
    (if x.tenant_id == tenant && is_reserved x.status && ltb now x.expires_at then x.bytes else 0)
    + active_storage_quota_reserved_bytes tenant now xs

unfoldable pub ensure_storage_quota_counter : String → Tx Tables Error Counter
ensure_storage_quota_counter tenant t =
    if tenant == "" then err missing_tenant_id else elim (t.counters tenant) [
      | some c ↦ ok (c, t)
      | none ↦
          let c : Counter = record {
            used_bytes = metadata_storage_used_bytes tenant t.assets;
            reserved_bytes = 0;
          } in
          ok (c, set_counter tenant c t)
    ]

-- `column + ?` or `column - ?`, where the WHERE clause wants `column >= ?` for the latter.
unfoldable pub add_delta : ℤ → ℕ → Option ℕ
add_delta (pos d) n = some (n + d)
add_delta (negsuc d) n = if leb (suc d) n then some (n - suc d) else none

unfoldable pub delta_row : ℤ → ℤ → Option Counter → Option Counter
delta_row used held none = none
delta_row used held (some c) = elim (add_delta used c.used_bytes) [
  | none ↦ none
  | some u ↦ elim (add_delta held c.reserved_bytes) [
    | none ↦ none
    | some h ↦ some (record { used_bytes = u; reserved_bytes = h })
  ]
]

-- No row is affected where the tenant has no counter or the WHERE clause fails.
abbrev pub affected_counter : String → Option Counter → Tx Tables Error (Unit {0})
affected_counter tenant none t = err storage_quota_counter_invalid
affected_counter tenant (some c) t = ok (tt, set_counter tenant c t)

unfoldable pub apply_storage_quota_counter_delta : String → ℤ → ℤ → Tx Tables Error (Unit {0})
apply_storage_quota_counter_delta tenant used held t =
    affected_counter tenant (delta_row used held (t.counters tenant)) t

-- `used > max || reserved > max - used || pending > max - used - reserved`.
unfoldable pub exceeds : Option ℕ → Counter → ℕ → Bool
exceeds none c pending = Bool.false
exceeds (some max) c pending =
    ltb max c.used_bytes
    || ltb (max - c.used_bytes) c.reserved_bytes
    || ltb (max - c.used_bytes - c.reserved_bytes) pending

unfoldable pub find_reservation : String → String → List ReservationRow → Option ReservationRow
find_reservation tenant id [] = none
find_reservation tenant id (x ∷ xs) =
    if x.tenant_id == tenant && x.id == id then some x else find_reservation tenant id xs

unfoldable has_id : String → List ReservationRow → Bool
has_id id [] = Bool.false
has_id id (x ∷ xs) = if x.id == id then Bool.true else has_id id xs

-- UPDATE … WHERE tenant_id = ? AND id = ? AND status = 'RESERVED'; `id` is the primary key.
unfoldable pub settle_reservation :
    String → String → (ReservationRow → ReservationRow) → List ReservationRow → List ReservationRow
settle_reservation tenant id f [] = []
settle_reservation tenant id f (x ∷ xs) =
    if x.tenant_id == tenant && x.id == id
    then (if is_reserved x.status then f x ∷ xs else x ∷ xs)
    else x ∷ settle_reservation tenant id f xs

-- A second row with the same primary key is refused by the server.
unfoldable create_reservation : ReservationRow → Tx Tables Error (Unit {0})
unfolding has_id
create_reservation x t =
    if has_id x.id t.reservations
    then err database_error
    else ok (tt, record t { reservations = x ∷ t.reservations })

-- The body of the transaction of ReserveStorageQuota; `none` is `quotaExceeded`.
unfoldable pub reserve_body :
    Option ℕ → String → ℕ → String → ℕ → Tx Tables Error (Option StorageQuotaReservation)
unfolding exceeds create_reservation
reserve_body quota tenant pending id now = do
  counter ← ensure_storage_quota_counter tenant
  if exceeds quota counter pending then pure none else do
    create_reservation (record {
      id = id;
      tenant_id = tenant;
      bytes = pending;
      finalized_bytes = 0;
      status = reserved;
      expires_at = now + storage_quota_reservation_ttl;
    })
    apply_storage_quota_counter_delta tenant (pos 0) (pos pending)
    pure (some (record { id = id; bytes = pos pending }))

unfoldable lock_storage_quota_reservation : String → String → Tx Tables Error ReservationRow
lock_storage_quota_reservation tenant id t =
    if id == ""
    then err storage_quota_reservation_invalid
    else elim (find_reservation tenant id t.reservations) [
      | none ↦ err record_not_found
      | some x ↦ ok (x, t)
    ]

-- `-record.Bytes`.
abbrev pub minus : ℕ → ℤ
minus zero = pos 0
minus (suc n) = negsuc n

abbrev pub settled_status : ℕ → Status
settled_status zero = released
settled_status (suc n) = finalized

-- The switch on `record.Status`, after the checks.
unfoldable settle : String → ReservationRow → ℕ → Status → Tx Tables Error (Unit {0})
settle tenant x n finalized =
    if x.finalized_bytes == n then pure tt else raise storage_quota_reservation_invalid
settle tenant x n released = if n == 0 then pure tt else raise storage_quota_reservation_invalid
settle tenant x n other = raise storage_quota_reservation_invalid
settle tenant x n reserved = λ t.
    apply_storage_quota_counter_delta tenant (pos n) (minus x.bytes) (record t {
      reservations =
          settle_reservation tenant x.id
            (λ y. record y { status = settled_status n; finalized_bytes = n }) t.reservations;
    })

unfoldable pub finalize_body : String → StorageQuotaReservation → ℕ → Tx Tables Error (Unit {0})
unfolding lock_storage_quota_reservation settle
finalize_body tenant reservation n = do
  counter ← ensure_storage_quota_counter tenant
  x ← lock_storage_quota_reservation tenant reservation.id
  if ltb_ℤ (pos x.bytes) reservation.bytes || ltb_ℤ reservation.bytes (pos x.bytes)
      then raise storage_quota_reservation_invalid
      else if ltb x.bytes n
      then raise validation
      else settle tenant x n x.status

unfoldable release_row : String → ReservationRow → Status → Tx Tables Error (Unit {0})
release_row tenant x finalized = pure tt
release_row tenant x released = pure tt
release_row tenant x other = pure tt
release_row tenant x reserved = λ t.
    apply_storage_quota_counter_delta tenant (pos 0) (minus x.bytes) (record t {
      reservations =
          settle_reservation tenant x.id (λ y. record y { status = released }) t.reservations;
    })

-- A row that is not there is no error of ReleaseStorageQuotaReservation.
unfoldable release_found : String → Option ReservationRow → Tx Tables Error (Unit {0})
unfolding release_row
release_found tenant none = pure tt
release_found tenant (some x) = release_row tenant x x.status

unfoldable pub release_body : String → StorageQuotaReservation → Tx Tables Error (Unit {0})
unfolding release_found
release_body tenant reservation = do
  counter ← ensure_storage_quota_counter tenant
  if reservation.id == "" then raise storage_quota_reservation_invalid else λ t.
      release_found tenant (find_reservation tenant reservation.id t.reservations) t

-- UPDATE … SET status = 'RELEASED' WHERE tenant_id = ? AND status = 'RESERVED' AND expires_at <= ?.
unfoldable pub release_stale : String → ℕ → List ReservationRow → List ReservationRow
release_stale tenant now [] = []
release_stale tenant now (x ∷ xs) =
    (if x.tenant_id == tenant && is_reserved x.status && leb x.expires_at now
      then record x { status = released }
      else x)
    ∷ release_stale tenant now xs

unfoldable pub reconcile_body : String → ℕ → Tx Tables Error Counter
reconcile_body tenant now = do
  counter ← ensure_storage_quota_counter tenant
  λ t.
      let rows = release_stale tenant now t.reservations in
      let c : Counter = record {
        used_bytes = metadata_storage_used_bytes tenant t.assets;
        reserved_bytes = active_storage_quota_reserved_bytes tenant now rows;
      } in
      ok (c, set_counter tenant c (record t { reservations = rows }))

unfoldable pub decrement_body : String → ℕ → Tx Tables Error (Unit {0})
decrement_body tenant n = do
  counter ← ensure_storage_quota_counter tenant
  if ltb counter.used_bytes n
      then raise storage_quota_counter_invalid
      else apply_storage_quota_counter_delta tenant (minus n) (pos 0)

-- The ID is empty and the bytes are 0.
is_empty : StorageQuotaReservation → Bool
is_empty x = x.id == "" && not (ltb_ℤ x.bytes (pos 0)) && not (ltb_ℤ (pos 0) x.bytes)

module _ (db : Database Tables Error database_error) where
  open db use {Store, transaction}

  reserved_or_exceeded :
      Result Error (Option StorageQuotaReservation) → Result Error StorageQuotaReservation
  reserved_or_exceeded (err e) = err e
  reserved_or_exceeded (ok none) = err storage_quota_exceeded
  reserved_or_exceeded (ok (some x)) = ok x

  -- `quota` is MaxBytes of LoadStorageQuota.
  unfoldable pub reserve_storage_quota :
      Option ℕ → String → ℤ → String → ℕ → Store → Result Error StorageQuotaReservation × Store
  unfolding reserved_or_exceeded
  reserve_storage_quota quota tenant (negsuc n) id now s = (err validation, s)
  reserve_storage_quota quota tenant (pos zero) id now s =
      (ok (record { id = ""; bytes = pos 0 }), s)
  reserve_storage_quota quota tenant (pos (suc n)) id now s =
      let (x, t) = transaction (reserve_body quota tenant (suc n) id now) s in
      (reserved_or_exceeded x, t)

  unfoldable pub finalize_storage_quota_reservation :
      String → StorageQuotaReservation → ℤ → Store → Result Error (Unit {0}) × Store
  unfolding is_empty
  finalize_storage_quota_reservation tenant x (negsuc n) s = (err validation, s)
  finalize_storage_quota_reservation tenant x (pos n) s =
      if is_empty x && n == 0
      then (ok tt, s)
      else if ltb_ℤ x.bytes (pos n)
      then (err validation, s)
      else transaction (finalize_body tenant x n) s

  unfoldable pub release_storage_quota_reservation :
      String → StorageQuotaReservation → Store → Result Error (Unit {0}) × Store
  unfolding is_empty
  release_storage_quota_reservation tenant x s =
      if is_empty x then (ok tt, s) else transaction (release_body tenant x) s

  unfoldable pub reconcile_storage_quota_counter : String → ℕ → Store → Result Error Counter × Store
  reconcile_storage_quota_counter tenant now = transaction (reconcile_body tenant now)

  unfoldable pub decrement_storage_quota_used_bytes :
      String → ℤ → Store → Result Error (Unit {0}) × Store
  decrement_storage_quota_used_bytes tenant (negsuc n) s = (err validation, s)
  decrement_storage_quota_used_bytes tenant (pos zero) s = (ok tt, s)
  decrement_storage_quota_used_bytes tenant (pos (suc n)) s =
      transaction (decrement_body tenant (suc n)) s
