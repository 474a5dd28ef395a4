-- ===== src/Settings/Quota/Limits.antt =====
-- quota.go: the limit that a reservation is checked against, and a reservation that is settled.
use text.Mathlib.TextPositions.{eq_refl}
use amazon_ai_product_image.Base.{
  ℕ, zero, suc, ◌+◌, ◌≤◌, Bool, true, false, String, Option, none, some, List, [], ◌∷◌, ◌==◌,
  string_eq, nat_eq, if◌then◌else◌, ◌≡◌, refl, sym, ap, ◌∙◌, arith, inl, inr, beq_self, subst, ltb,
}
use amazon_ai_product_image.Base.Int.{pos}
use amazon_ai_product_image.Database.{
  Result, ok, err, ◌>>=◌, pure, raise, Database, transaction-eq-ok,
}
use amazon_ai_product_image.Settings.Quota.{
  Error, database_error, Status, reserved, finalized, released, other, ReservationRow, Counter,
  Tables, StorageQuotaReservation, is_reserved, minus, ensure_storage_quota_counter,
  find_reservation, settle_reservation, reserve_body, finalize_body, exceeds,
  lock_storage_quota_reservation, settle, settled_status, reserve_storage_quota,
  reserved_or_exceeded,
}
use amazon_ai_product_image.Settings.Quota.Reserved.{ensure-eq-ok, delta-eq-ok}
use amazon_ai_product_image.Settings.Quota.Outcomes.{
  found-own, reserve_body-eq-ok, finalize_body-eq-ok, find_reservation-eq-some,
}

-- The three tests by subtraction together say that the used, the reserved and the asked bytes are
-- more than the limit.
pub exceeds-eq-ltb :
    (max : ℕ) (c : Counter) (n : ℕ)
    → exceeds (some max) c n ≡ ltb max (c.used_bytes + c.reserved_bytes + n)
unfolding exceeds
exceeds-eq-ltb max c n = ground arith

-- The bytes that a counter accounts for.
abbrev pub accounted : Option Counter → ℕ
accounted none = 0
accounted (some c) = c.used_bytes + c.reserved_bytes

module _ (db : Database Tables Error database_error) where
  open db use {Store, tables}

  reserve-eq-ok :
      (quota : Option ℕ) (tenant : String) (n : ℕ) (id : String) (now : ℕ) (s : Store) {v : Store}
      {r : StorageQuotaReservation}
      → reserve_storage_quota db quota tenant (pos (suc n)) id now s ≡ (ok r, v)
      → reserve_body quota tenant (suc n) id now (tables s) ≡ ok (some r, tables v)
  unfolding reserve_storage_quota reserved_or_exceeded
  reserve-eq-ok quota tenant n id now s {v} {r} h = go _ _ refl h
    where
      go :
          (x : Result Error (Option StorageQuotaReservation)) (w : Store)
          → db.transaction (reserve_body quota tenant (suc n) id now) s ≡ (x, w)
          → ◌≡◌ {A = Result Error StorageQuotaReservation × Store}
              (reserved_or_exceeded db x, w)
              (ok r, v)
          → reserve_body quota tenant (suc n) id now (tables s) ≡ ok (some r, tables v)
      go (ok (some y)) w e k =
          transaction-eq-ok db (λ t u. Unit {0}) (λ t. tt)
            (reserve_body quota tenant (suc n) id now) s {a = some r} {v = v} (cc (e, k))
      go (ok none) w e k = absurd (cc k)
      go (err f) w e k = absurd (cc k)

  -- A reservation of a positive number of bytes that is granted under a limit leaves the
  -- tenant's used and reserved bytes within that limit.
  pub reserve_storage_quota-accounted :
      (max : ℕ) (tenant : String) (n : ℕ) (id : String) (now : ℕ) (s v : Store)
      (r : StorageQuotaReservation)
      → reserve_storage_quota db (some max) tenant (pos (suc n)) id now s ≡ (ok r, v)
      → accounted ((tables v).counters tenant) ≤ max
  reserve_storage_quota-accounted max tenant n id now s v r h =
      let ran = reserve-eq-ok (some max) tenant n id now s h in
      let (c, u, e, k) = reserve_body-eq-ok (some max) tenant (suc n) id now (tables s) ran in
      elim k [
        | inl over ↦ absurd (cc over.1)
        | inr g ↦
            let within : ltb max (c.used_bytes + c.reserved_bytes + suc n) ≡ false =
              sym (exceeds-eq-ltb max c (suc n)) ∙ g.fits in
            rw (g.written, eq_refl) (ground (arith, within))
      ]

settle_reservation-settled :
    (tenant id : String) (f : ReservationRow → ReservationRow) (rows : List ReservationRow)
    {x : ReservationRow}
    → ((y : ReservationRow) → ((f y).tenant_id ≡ y.tenant_id) × ((f y).id ≡ y.id))
    → find_reservation tenant id rows ≡ some x
    → is_reserved x.status ≡ true
    → find_reservation tenant id (settle_reservation tenant id f rows) ≡ some (f x)
unfolding find_reservation settle_reservation
settle_reservation-settled tenant id f [] same h k = absurd (cc h)
settle_reservation-settled tenant id f (y ∷ ys) {x} same h k =
    ground (arith, settle_reservation-settled tenant id f ys {x = x} same, same y)

tested-eq-ok :
    (b : Bool) (e : Error) (t : Tables) {v : Tables}
    → (if b then pure tt else raise e) t ≡ ok (tt, v)
    → (b ≡ true) × (t ≡ v)
unfolding raise pure
tested-eq-ok true e t h = (refl, cc h)
tested-eq-ok false e t h = absurd (cc h)

settle-settled_status :
    (tenant : String) (x : ReservationRow) (n : ℕ) (v : Tables)
    → settle tenant
        (record x { status = settled_status n; finalized_bytes = n })
        n
        (settled_status n)
        v
      ≡ ok (tt, v)
unfolding settle pure
settle-settled_status tenant x zero v = refl
settle-settled_status tenant x (suc n) v = rw (beq_self (suc n)) refl

-- After a finalize, its row again names what was finalized, and settles again to the same tables.
settle-again :
    (tenant : String) (x : ReservationRow) (n : ℕ) (s : Status) (t v : Tables)
    → x.status ≡ s
    → find_reservation tenant x.id t.reservations ≡ some x
    → (c : Counter) → t.counters tenant ≡ some c
    → settle tenant x n s t ≡ ok (tt, v)
    → (d : Counter) × (y : ReservationRow) × (v.counters tenant ≡ some d)
      × (find_reservation tenant x.id v.reservations ≡ some y)
      × (y.bytes ≡ x.bytes)
      × (settle tenant y n y.status v ≡ ok (tt, v))
unfolding settle pure raise
settle-again tenant x n finalized t v e found c counted h =
    let (tested, same) = tested-eq-ok (x.finalized_bytes == n) _ t h in
    (c, x, rw (← same) counted, rw (← same) found, refl, rw (e, tested) refl)
settle-again tenant x n released t v e found c counted h =
    let (tested, same) = tested-eq-ok (n == 0) _ t h in
    (c, x, rw (← same) counted, rw (← same) found, refl, rw (e, tested) refl)
settle-again tenant x n other t v e found c counted h = absurd (cc h)
settle-again tenant x n reserved t v e found c counted h =
    let f : ReservationRow → ReservationRow =
      λ y. record y { status = settled_status n; finalized_bytes = n } in
    let (c0, d, locked, written, p, q) = delta-eq-ok tenant (pos n) (minus x.bytes) _ h in
    (
      d,
      f x,
      rw (written, eq_refl) refl,
      rw written (
          settle_reservation-settled tenant x.id f t.reservations (λ y. (refl, refl)) found
            (ap is_reserved e)),
      refl,
      settle-settled_status tenant x n v,
    )

ensure-again :
    (tenant : String) (t : Tables) {c : Counter} {u : Tables}
    → ensure_storage_quota_counter tenant t ≡ ok (c, u)
    → (d : Counter) (v : Tables) → v.counters tenant ≡ some d
    → ensure_storage_quota_counter tenant v ≡ ok (d, v)
unfolding ensure_storage_quota_counter
ensure-again tenant t h d v k = ground (arith, h, k)

lock-again :
    (tenant id : String) (v : Tables) (y : ReservationRow)
    → (id == "") ≡ false
    → find_reservation tenant id v.reservations ≡ some y
    → lock_storage_quota_reservation tenant id v ≡ ok (y, v)
unfolding lock_storage_quota_reservation
lock-again tenant id v y named found = rw (named, found) refl

-- Finalizing a reservation again, for as many bytes, succeeds and leaves the tables as the first
-- time left them.
pub finalize_body-again :
    (tenant : String) (r : StorageQuotaReservation) (n : ℕ) (t v : Tables)
    → finalize_body tenant r n t ≡ ok (tt, v)
    → finalize_body tenant r n v ≡ ok (tt, v)
unfolding finalize_body ◌>>=◌
finalize_body-again tenant r n t v h =
    let (c, u, x, e, s) = finalize_body-eq-ok tenant r n t h in
    let named = (find_reservation-eq-some tenant r.id u.reservations s.found).1 in
    let (d, y, counted, found, bytes, settled) =
      settle-again tenant x n x.status u v refl (found-own tenant r.id u.reservations s.found) c
        (ensure-eq-ok tenant t e).found s.settled in
    rw
      (
        ensure-again tenant t e d v counted,
        lock-again tenant r.id v y s.named
            (subst (λ i. find_reservation tenant i v.reservations ≡ some y) named found),
        bytes,
        s.agrees,
        s.covers,
      )
      settled
