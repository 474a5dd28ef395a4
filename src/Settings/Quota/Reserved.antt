-- ===== src/Settings/Quota/Reserved.antt =====
-- quota.go: the reserved bytes of the counters, and the reservations that stand.
use text.Mathlib.TextEquality.{eq_iff}
use text.Mathlib.TextPositions.{eq_refl}
use amazon_ai_product_image.Base.{
  ℕ, zero, suc, ◌+◌, true, false, String, Option, none, some, List, [], ◌∷◌, ◌==◌, string_eq,
  nat_eq, if◌then◌else◌, ◌&&◌, ◌≡◌, refl, sym, ap, ◌∙◌, arith, Bool-cases, inl, inr, beq→eq,
}
use amazon_ai_product_image.Base.Int.{ℤ, pos}
use amazon_ai_product_image.Database.{ok}
use amazon_ai_product_image.Settings.Quota.{
  affected_counter, reserved, ReservationRow, Counter, Tables, is_reserved, set_counter, minus,
  active_storage_quota_reserved_bytes, ensure_storage_quota_counter, add_delta, delta_row,
  apply_storage_quota_counter_delta, find_reservation, settle_reservation, release_stale,
}

-- The bytes of a tenant's reservations that are neither finalized nor released.
unfoldable pub reserved_total : String → List ReservationRow → ℕ
reserved_total k [] = 0
reserved_total k (x ∷ xs) =
    (if x.tenant_id == k && is_reserved x.status then x.bytes else 0) + reserved_total k xs

abbrev pub reserved_bytes_of : Option Counter → ℕ
reserved_bytes_of none = 0
reserved_bytes_of (some c) = c.reserved_bytes

-- Every tenant's counter holds the bytes of its reservations; with no counter there are none.
abbrev pub IsBalanced : Tables → Type 0
IsBalanced t = (k : String) → reserved_bytes_of (t.counters k) ≡ reserved_total k t.reservations

module _ (tenant id : String) (f : ReservationRow → ReservationRow)
    (same_tenant : (x : ReservationRow) → (f x).tenant_id ≡ x.tenant_id)
    (settled : (x : ReservationRow) → is_reserved (f x).status ≡ false) where
  total-settle :
      (rows : List ReservationRow) {x : ReservationRow}
      → find_reservation tenant id rows ≡ some x
      → is_reserved x.status ≡ true
      → reserved_total tenant (settle_reservation tenant id f rows) + x.bytes
        ≡ reserved_total tenant rows
  unfolding reserved_total settle_reservation find_reservation
  total-settle [] h p = absurd (cc h)
  total-settle (y ∷ ys) {x} h p = ground (arith, total-settle ys {x = x}, settled y)

  total-settle_other :
      (k : String) (rows : List ReservationRow)
      → (tenant == k) ≡ false
      → reserved_total k (settle_reservation tenant id f rows) ≡ reserved_total k rows
  unfolding reserved_total settle_reservation
  total-settle_other k [] h = refl
  total-settle_other k (y ∷ ys) h = ground (
    arith,
    total-settle_other k ys,
    settled y,
    same_tenant y,
    eq_iff y.tenant_id tenant,
    eq_iff y.tenant_id k,
    eq_iff tenant k,
  )

-- After the stale reservations are released, those that stand are the active ones.
pub active-release_stale :
    (tenant : String) (now : ℕ) (rows : List ReservationRow)
    → active_storage_quota_reserved_bytes tenant now (release_stale tenant now rows)
      ≡ reserved_total tenant (release_stale tenant now rows)
unfolding reserved_total release_stale active_storage_quota_reserved_bytes
active-release_stale tenant now [] = refl
active-release_stale tenant now (x ∷ xs) = ground (arith, active-release_stale tenant now xs)

pub total-release_stale_other :
    (tenant k : String) (now : ℕ) (rows : List ReservationRow)
    → (tenant == k) ≡ false
    → reserved_total k (release_stale tenant now rows) ≡ reserved_total k rows
unfolding reserved_total release_stale
total-release_stale_other tenant k now [] h = refl
total-release_stale_other tenant k now (x ∷ xs) h = ground (
  arith,
  total-release_stale_other tenant k now xs,
  eq_iff x.tenant_id tenant,
  eq_iff x.tenant_id k,
  eq_iff tenant k,
)

-- What a counter that is there or made on the way says of the tables.
pub record IsEnsured (tenant : String) (c : Counter) (t u : Tables) : Type 0 where
  pub found : u.counters tenant ≡ some c
  pub others : (k : String) → (tenant == k) ≡ false → u.counters k ≡ t.counters k
  pub kept : reserved_bytes_of (u.counters tenant) ≡ reserved_bytes_of (t.counters tenant)
  pub rows : u.reservations ≡ t.reservations
  pub stored : u.assets ≡ t.assets

pub ensure-eq-ok :
    (tenant : String) (t : Tables) {c : Counter} {u : Tables}
    → ensure_storage_quota_counter tenant t ≡ ok (c, u)
    → IsEnsured tenant c t u
unfolding ensure_storage_quota_counter
ensure-eq-ok tenant t {c} {u} h = record {
  found = ground (arith, eq_refl tenant);
  others = λ k n. ground (arith, n);
  kept = ground (arith, eq_refl tenant);
  rows = ground arith;
  stored = ground arith;
}

pub IsEnsured-IsBalanced :
    (tenant : String) (c : Counter) (t u : Tables)
    → IsEnsured tenant c t u
    → IsBalanced t
    → IsBalanced u
IsEnsured-IsBalanced tenant c t u e b k = elim (Bool-cases (tenant == k)) [
  | inl same ↦ rw (← beq→eq tenant k same, e.rows) (e.kept ∙ b tenant)
  | inr differs ↦ rw (e.others k differs, e.rows) (b k)
]

delta_row-eq-some :
    (used held : ℤ) (o : Option Counter) {d : Counter}
    → delta_row used held o ≡ some d
    → (c : Counter) × (o ≡ some c)
      × (add_delta used c.used_bytes ≡ some d.used_bytes)
      × (add_delta held c.reserved_bytes ≡ some d.reserved_bytes)
unfolding delta_row
delta_row-eq-some used held none h = absurd (cc h)
delta_row-eq-some used held (some c) {d} h = (c, refl, ground arith, ground arith)

-- A change of the counter that affects a row changes the tenant's counter by the two deltas.
pub delta-eq-ok :
    (tenant : String) (used held : ℤ) (t : Tables) {v : Tables}
    → apply_storage_quota_counter_delta tenant used held t ≡ ok (tt, v)
    → (c : Counter) × (d : Counter) × (t.counters tenant ≡ some c)
      × (v ≡ set_counter tenant d t)
      × (add_delta used c.used_bytes ≡ some d.used_bytes)
      × (add_delta held c.reserved_bytes ≡ some d.reserved_bytes)
unfolding apply_storage_quota_counter_delta
delta-eq-ok tenant used held t {v} h = go (delta_row used held (t.counters tenant)) refl h
  where
    go :
        (o : Option Counter)
        → delta_row used held (t.counters tenant) ≡ o
        → affected_counter tenant o t ≡ ok (tt, v)
        → (c : Counter) × (d : Counter) × (t.counters tenant ≡ some c)
          × (v ≡ set_counter tenant d t)
          × (add_delta used c.used_bytes ≡ some d.used_bytes)
          × (add_delta held c.reserved_bytes ≡ some d.reserved_bytes)
    go none e k = absurd (cc k)
    go (some d) e k =
        let (c, found, u, r) = delta_row-eq-some used held (t.counters tenant) e in
        (c, d, found, cc k, u, r)

pub add_delta-minus : (b n : ℕ) {m : ℕ} → add_delta (minus b) n ≡ some m → m + b ≡ n
unfolding add_delta
add_delta-minus zero n h = ground arith
add_delta-minus (suc b) n h = ground arith

pub add_delta-pos : (b n : ℕ) {m : ℕ} → add_delta (pos b) n ≡ some m → m ≡ n + b
unfolding add_delta
add_delta-pos b n h = ground arith

-- A new row of a tenant's rows, and a counter raised by its bytes.
pub IsBalanced-after-reserve :
    (tenant : String) (x : ReservationRow) (c d : Counter) (t : Tables)
    → t.counters tenant ≡ some c
    → d.reserved_bytes ≡ c.reserved_bytes + x.bytes
    → x.tenant_id ≡ tenant
    → x.status ≡ reserved
    → IsBalanced t
    → IsBalanced (set_counter tenant d (record t { reservations = x ∷ t.reservations }))
unfolding reserved_total
IsBalanced-after-reserve tenant x c d t found held same stands b k = ground (
  arith,
  b k,
  b tenant,
  eq_iff tenant k,
  eq_iff x.tenant_id k,
  eq_refl tenant,
  ap is_reserved stands,
)

-- A reservation of the tenant that is settled, and a counter lowered by its bytes.
pub IsBalanced-after-settle :
    (tenant id : String) (f : ReservationRow → ReservationRow) (x : ReservationRow) (c d : Counter)
    (t : Tables)
    → ((y : ReservationRow) → (f y).tenant_id ≡ y.tenant_id)
    → ((y : ReservationRow) → is_reserved (f y).status ≡ false)
    → find_reservation tenant id t.reservations ≡ some x
    → is_reserved x.status ≡ true
    → t.counters tenant ≡ some c
    → d.reserved_bytes + x.bytes ≡ c.reserved_bytes
    → IsBalanced t
    → IsBalanced (
        set_counter tenant d
          (record t { reservations = settle_reservation tenant id f t.reservations }))
IsBalanced-after-settle tenant id f x c d t keeps settled found stands e held b k =
    elim (Bool-cases (tenant == k)) [
      | inl same ↦
          rw (← beq→eq tenant k same, eq_refl)
            (omega (
              arith,
              b tenant,
              ap reserved_bytes_of e,
              total-settle tenant id f keeps settled t.reservations found stands,
            ))
      | inr differs ↦
          rw differs
            (b k ∙ sym (total-settle_other tenant id f keeps settled k t.reservations differs))
    ]
