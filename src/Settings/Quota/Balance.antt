-- ===== src/Settings/Quota/Balance.antt =====
-- quota.go: what each transaction does to the counters and to the reservations they stand for.
use text.Mathlib.TextPositions.{eq_refl}
use amazon_ai_product_image.Base.{
  ℕ, zero, suc, Bool, true, false, String, Option, none, some, ◌==◌, string_eq, nat_eq,
  if◌then◌else◌, ◌≡◌, refl, sym, ap, ◌∙◌, arith, Bool-cases, inl, inr, beq→eq, subst, ltb,
}
use amazon_ai_product_image.Base.Int.{ℤ, pos}
use amazon_ai_product_image.Database.{
  ok-eq-ok, pure-eq-ok, guarded-eq-ok, ok, pure, raise, >>=-eq-ok,
}
use amazon_ai_product_image.Settings.Quota.{
  storage_quota_counter_invalid, storage_quota_reservation_invalid,
  active_storage_quota_reserved_bytes, Error, Status, reserved, finalized, released, other,
  ReservationRow, set_counter, Counter, Tables, StorageQuotaReservation, is_reserved, minus,
  ensure_storage_quota_counter, apply_storage_quota_counter_delta, find_reservation,
  settle_reservation, reserve_body, finalize_body, release_body, release_stale, reconcile_body,
  decrement_body, settle, release_found, release_row, settled_status,
}
use amazon_ai_product_image.Settings.Quota.Reserved.{
  reserved_bytes_of, IsBalanced, ensure-eq-ok, IsEnsured-IsBalanced, delta-eq-ok, add_delta-minus,
  add_delta-pos, IsBalanced-after-reserve, IsBalanced-after-settle, active-release_stale,
  total-release_stale_other,
}
use amazon_ai_product_image.Settings.Quota.Outcomes.{
  new_reservation, raised, reserve_body-eq-ok, found-own, finalize_body-eq-ok,
}

ensured :
    (tenant : String) (t : Tables) {c : Counter} {u : Tables}
    → ensure_storage_quota_counter tenant t ≡ ok (c, u)
    → IsBalanced t
    → IsBalanced u
ensured tenant t {c} {u} h b = IsEnsured-IsBalanced tenant c t u (ensure-eq-ok tenant t h) b

-- A reservation raises its tenant's counter by the bytes of the row that it writes.
pub reserve_body-IsBalanced :
    (quota : Option ℕ) (tenant : String) (n : ℕ) (id : String) (now : ℕ) (t v : Tables)
    (a : Option StorageQuotaReservation)
    → reserve_body quota tenant n id now t ≡ ok (a, v)
    → IsBalanced t
    → IsBalanced v
reserve_body-IsBalanced quota tenant n id now t v a h b =
    let (c, u, e, k) = reserve_body-eq-ok quota tenant n id now t h in
    elim k [
      | inl over ↦ subst IsBalanced over.2 (ensured tenant t e b)
      | inr g ↦ subst IsBalanced (sym g.written) (
          IsBalanced-after-reserve tenant (new_reservation tenant id n now) c (raised n c) u
            (ensure-eq-ok tenant t e).found refl refl refl (ensured tenant t e b))
    ]

-- The counter falls by what the reservation held, as that reservation is settled.
settled-IsBalanced :
    (tenant : String) (used : ℤ) (f : ReservationRow → ReservationRow) (x : ReservationRow)
    (t : Tables) {v : Tables}
    → ((y : ReservationRow) → (f y).tenant_id ≡ y.tenant_id)
    → ((y : ReservationRow) → is_reserved (f y).status ≡ false)
    → find_reservation tenant x.id t.reservations ≡ some x
    → x.status ≡ reserved
    → apply_storage_quota_counter_delta tenant used
        (minus x.bytes)
        (record t { reservations = settle_reservation tenant x.id f t.reservations })
      ≡ ok (tt, v)
    → IsBalanced t
    → IsBalanced v
settled-IsBalanced tenant used f x t keeps settled found stands h b =
    let (c, d, locked, written, p, q) = delta-eq-ok tenant used (minus x.bytes) _ h in
    subst IsBalanced (sym written) (
      IsBalanced-after-settle tenant x.id f x c d t keeps settled found (ap is_reserved stands)
        locked (add_delta-minus x.bytes c.reserved_bytes q) b)

settled_status-not_reserved : (n : ℕ) → is_reserved (settled_status n) ≡ false
settled_status-not_reserved zero = refl
settled_status-not_reserved (suc n) = refl

test-IsBalanced :
    (b : Bool) (e : Error) (t : Tables) {v : Tables}
    → (if b then pure tt else raise e) t ≡ ok (tt, v)
    → IsBalanced t
    → IsBalanced v
unfolding raise
test-IsBalanced true e t h b = subst IsBalanced (pure-eq-ok tt t h).1 b
test-IsBalanced false e t h b = absurd (cc h)

settle-IsBalanced :
    (tenant : String) (x : ReservationRow) (n : ℕ) (s : Status) (t : Tables) {v : Tables}
    → x.status ≡ s
    → find_reservation tenant x.id t.reservations ≡ some x
    → settle tenant x n s t ≡ ok (tt, v)
    → IsBalanced t
    → IsBalanced v
unfolding settle raise
settle-IsBalanced tenant x n finalized t e found h b =
    test-IsBalanced (x.finalized_bytes == n) _ t h b
settle-IsBalanced tenant x n released t e found h b = test-IsBalanced (n == 0) _ t h b
settle-IsBalanced tenant x n other t e found h b = absurd (cc h)
settle-IsBalanced tenant x n reserved t e found h b =
    settled-IsBalanced tenant (pos n) _ x t (λ y. refl) (λ y. settled_status-not_reserved n) found e
      h b

pub finalize_body-IsBalanced :
    (tenant : String) (r : StorageQuotaReservation) (n : ℕ) (t v : Tables) (a : Unit {0})
    → finalize_body tenant r n t ≡ ok (a, v)
    → IsBalanced t
    → IsBalanced v
finalize_body-IsBalanced tenant r n t v a h b =
    let (c, u, x, e, s) = finalize_body-eq-ok tenant r n t h in
    settle-IsBalanced tenant x n x.status u refl (found-own tenant r.id u.reservations s.found)
      s.settled (ensured tenant t e b)

release_row-IsBalanced :
    (tenant : String) (x : ReservationRow) (s : Status) (t : Tables) {v : Tables}
    → x.status ≡ s
    → find_reservation tenant x.id t.reservations ≡ some x
    → release_row tenant x s t ≡ ok (tt, v)
    → IsBalanced t
    → IsBalanced v
unfolding release_row
release_row-IsBalanced tenant x finalized t e found h b = subst IsBalanced (pure-eq-ok tt t h).1 b
release_row-IsBalanced tenant x released t e found h b = subst IsBalanced (pure-eq-ok tt t h).1 b
release_row-IsBalanced tenant x other t e found h b = subst IsBalanced (pure-eq-ok tt t h).1 b
release_row-IsBalanced tenant x reserved t e found h b =
    settled-IsBalanced tenant (pos 0) _ x t (λ y. refl) (λ y. refl) found e h b

release_found-IsBalanced :
    (tenant id : String) (t : Tables) (o : Option ReservationRow) {v : Tables}
    → find_reservation tenant id t.reservations ≡ o
    → release_found tenant o t ≡ ok (tt, v)
    → IsBalanced t
    → IsBalanced v
unfolding release_found
release_found-IsBalanced tenant id t none e h b = subst IsBalanced (pure-eq-ok tt t h).1 b
release_found-IsBalanced tenant id t (some x) e h b =
    release_row-IsBalanced tenant x x.status t refl (found-own tenant id t.reservations e) h b

pub release_body-IsBalanced :
    (tenant : String) (r : StorageQuotaReservation) (t v : Tables) (a : Unit {0})
    → release_body tenant r t ≡ ok (a, v)
    → IsBalanced t
    → IsBalanced v
unfolding release_body
release_body-IsBalanced tenant r t v a h b =
    let (c, u, e, k) = >>=-eq-ok _ _ t h in
    let (named, k1) =
      guarded-eq-ok (r.id == "") storage_quota_reservation_invalid
        (λ t. release_found tenant (find_reservation tenant r.id t.reservations) t) u k in
    release_found-IsBalanced tenant r.id u _ refl k1 (ensured tenant t e b)

IsBalanced-after-reconcile :
    (tenant : String) (now used : ℕ) (t : Tables)
    → IsBalanced t
    → let rows = release_stale tenant now t.reservations in
      IsBalanced (
        set_counter tenant
          (record {
            used_bytes = used;
            reserved_bytes = active_storage_quota_reserved_bytes tenant now rows;
          })
          (record t { reservations = rows }))
IsBalanced-after-reconcile tenant now used t b k = elim (Bool-cases (tenant == k)) [
  | inl same ↦ rw (← beq→eq tenant k same, eq_refl) (active-release_stale tenant now t.reservations)
  | inr differs ↦
      rw differs (b k ∙ sym (total-release_stale_other tenant k now t.reservations differs))
]

IsBalanced-after-counter :
    (tenant : String) (c d : Counter) (t : Tables)
    → t.counters tenant ≡ some c
    → d.reserved_bytes ≡ c.reserved_bytes
    → IsBalanced t
    → IsBalanced (set_counter tenant d t)
IsBalanced-after-counter tenant c d t found held b k = elim (Bool-cases (tenant == k)) [
  | inl same ↦
      rw (← beq→eq tenant k same, eq_refl) (cc (held, ap reserved_bytes_of found, b tenant))
  | inr differs ↦ rw differs (b k)
]

pub reconcile_body-IsBalanced :
    (tenant : String) (now : ℕ) (t v : Tables) (a : Counter)
    → reconcile_body tenant now t ≡ ok (a, v)
    → IsBalanced t
    → IsBalanced v
unfolding reconcile_body
reconcile_body-IsBalanced tenant now t v a h b =
    let (c, u, e, k) = >>=-eq-ok _ _ t h in
    subst IsBalanced (ok-eq-ok k) (IsBalanced-after-reconcile tenant now _ u (ensured tenant t e b))

pub decrement_body-IsBalanced :
    (tenant : String) (n : ℕ) (t v : Tables) (a : Unit {0})
    → decrement_body tenant n t ≡ ok (a, v)
    → IsBalanced t
    → IsBalanced v
unfolding decrement_body
decrement_body-IsBalanced tenant n t v a h b =
    let (c, u, e, k) = >>=-eq-ok _ _ t h in
    let (enough, k1) =
      guarded-eq-ok (ltb c.used_bytes n) storage_quota_counter_invalid
        (apply_storage_quota_counter_delta tenant (minus n) (pos 0)) u k in
    let (c0, d, found, new, used, held) = delta-eq-ok tenant (minus n) (pos 0) u k1 in
    let same : d.reserved_bytes ≡ c0.reserved_bytes =
      omega (arith, add_delta-pos 0 c0.reserved_bytes held) in
    subst IsBalanced (sym new)
      (IsBalanced-after-counter tenant c0 d u found same (ensured tenant t e b))
