-- ===== src/Settings/Quota/Progress.antt =====
-- quota.go: finalizing a reservation that stands.
use amazon_ai_product_image.Base.{
  ℕ, zero, suc, ◌+◌, ◌-◌, ◌≤◌, true, false, String, Option, none, some, List, [], ◌∷◌, ◌==◌,
  string_eq, nat_eq, ◌≡◌, refl, ap, arith, ltb,
}
use amazon_ai_product_image.Base.Int.{ℤ, pos, ltb_ℤ}
use amazon_ai_product_image.Database.{ok, ◌>>=◌}
use amazon_ai_product_image.Settings.Quota.{
  metadata_storage_used_bytes, reserved, ReservationRow, Counter, Tables, StorageQuotaReservation,
  is_reserved, minus, ensure_storage_quota_counter, apply_storage_quota_counter_delta,
  find_reservation, settle_reservation, finalize_body, lock_storage_quota_reservation, settle,
  settled_status, add_delta, delta_row, set_counter,
}
use amazon_ai_product_image.Settings.Quota.Reserved.{
  reserved_total, IsBalanced, reserved_bytes_of, ensure-eq-ok, IsEnsured-IsBalanced,
}

le-total :
    (tenant id : String) (rows : List ReservationRow) {x : ReservationRow}
    → find_reservation tenant id rows ≡ some x
    → is_reserved x.status ≡ true
    → x.bytes ≤ reserved_total tenant rows
unfolding reserved_total find_reservation
le-total tenant id [] h p = absurd (cc h)
le-total tenant id (y ∷ ys) {x} h p = ground (arith, le-total tenant id ys {x = x})

ensure-total :
    (tenant : String) (t : Tables)
    → (tenant == "") ≡ false
    → (c : Counter) × (u : Tables) × (ensure_storage_quota_counter tenant t ≡ ok (c, u))
unfolding ensure_storage_quota_counter
ensure-total tenant t named = go (t.counters tenant) refl
  where
    go :
        (o : Option Counter)
        → t.counters tenant ≡ o
        → (c : Counter) × (u : Tables) × (ensure_storage_quota_counter tenant t ≡ ok (c, u))
    go none e =
        let c : Counter = record {
          used_bytes = metadata_storage_used_bytes tenant t.assets;
          reserved_bytes = 0;
        } in
        (c, set_counter tenant c t, rw (named, e) refl)
    go (some c) e = (c, t, rw (named, e) refl)

add_delta-total : (b n : ℕ) → b ≤ n → (m : ℕ) × (add_delta (minus b) n ≡ some m)
unfolding add_delta
add_delta-total zero n h = (n + 0, refl)
add_delta-total (suc b) n h = (n - suc b, ground (arith, h))

add_delta_pos : (d n : ℕ) → add_delta (pos d) n ≡ some (n + d)
unfolding add_delta
add_delta_pos d n = refl

delta_row-total :
    (used held : ℤ) (c d : Counter)
    → add_delta used c.used_bytes ≡ some d.used_bytes
    → add_delta held c.reserved_bytes ≡ some d.reserved_bytes
    → delta_row used held (some c) ≡ some d
unfolding delta_row
delta_row-total used held c d h k = ground (arith, h, k)

delta-total :
    (tenant : String) (n b : ℕ) (t : Tables) (c : Counter)
    → t.counters tenant ≡ some c
    → b ≤ c.reserved_bytes
    → (v : Tables) × (apply_storage_quota_counter_delta tenant (pos n) (minus b) t ≡ ok (tt, v))
unfolding apply_storage_quota_counter_delta
delta-total tenant n b t c found h =
    let (m, e) = add_delta-total b c.reserved_bytes h in
    let d : Counter = record { used_bytes = c.used_bytes + n; reserved_bytes = m } in
    (
      set_counter tenant d t,
      rw (found, delta_row-total (pos n) (minus b) c d (add_delta_pos n c.used_bytes) e) refl,
    )

-- With counters that hold the bytes of the reservations, the transaction that finalizes a
-- reservation which stands, for no more bytes than it reserved, succeeds: the tenant and the
-- reservation have names, and the caller's bytes are those of the row.
pub finalize_body-total :
    (tenant : String) (r : StorageQuotaReservation) (x : ReservationRow) (n : ℕ) (t : Tables)
    → IsBalanced t
    → (tenant == "") ≡ false
    → (r.id == "") ≡ false
    → find_reservation tenant r.id t.reservations ≡ some x
    → x.status ≡ reserved
    → r.bytes ≡ pos x.bytes
    → n ≤ x.bytes
    → (v : Tables) × (finalize_body tenant r n t ≡ ok (tt, v))
unfolding finalize_body ◌>>=◌ lock_storage_quota_reservation settle
finalize_body-total tenant r x n t b named identified found stands agrees covered =
    let (c, u, e) = ensure-total tenant t named in
    let i = ensure-eq-ok tenant t e in
    let balanced = IsEnsured-IsBalanced tenant c t u i b in
    let found_u : find_reservation tenant r.id u.reservations ≡ some x = rw i.rows found in
    let held : x.bytes ≤ c.reserved_bytes = omega (
      arith,
      ap reserved_bytes_of i.found,
      balanced tenant,
      le-total tenant r.id u.reservations found_u (ap is_reserved stands),
    ) in
    let fits : ltb x.bytes n ≡ false = ground (arith, covered) in
    let equal : ltb_ℤ (pos x.bytes) (pos x.bytes) ≡ false = ground arith in
    let (v, d) =
      delta-total tenant n x.bytes
        (record u {
          reservations =
              settle_reservation tenant x.id
                (λ y. record y { status = settled_status n; finalized_bytes = n }) u.reservations;
        })
        c i.found held in
    (v, rw (e, identified, found_u, agrees, equal, fits, stands) d)
