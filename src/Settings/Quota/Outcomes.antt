-- ===== src/Settings/Quota/Outcomes.antt =====
-- quota.go: what a transaction that ends well has found and written.
use text.Mathlib.TextEquality.{eq_iff}
use amazon_ai_product_image.Base.{
  ℕ, ◌+◌, true, false, String, Option, none, some, List, [], ◌∷◌, ◌==◌, string_eq, nat_eq, ◌||◌,
  ◌≡◌, ◌⊎◌, sym, arith, Bool-cases, inl, inr, subst, ltb,
}
use amazon_ai_product_image.Base.Int.{pos, ltb_ℤ}
use amazon_ai_product_image.Database.{pure-eq-ok, guarded-eq-ok, ok, >>=-eq-ok}
use amazon_ai_product_image.Settings.Quota.{
  reserved, ReservationRow, add_delta, set_counter, storage_quota_reservation_ttl, Counter, Tables,
  StorageQuotaReservation, ensure_storage_quota_counter, find_reservation, reserve_body,
  finalize_body, exceeds, create_reservation, lock_storage_quota_reservation, settle,
}
use amazon_ai_product_image.Settings.Quota.Reserved.{ensure-eq-ok, delta-eq-ok, add_delta-pos}

created-eq-ok :
    (x : ReservationRow) (t : Tables) {v : Tables}
    → create_reservation x t ≡ ok (tt, v)
    → v ≡ record t { reservations = x ∷ t.reservations }
unfolding create_reservation
created-eq-ok x t h = ground (arith, h)

abbrev pub new_reservation : String → String → ℕ → ℕ → ReservationRow
new_reservation tenant id n now = record {
  id = id;
  tenant_id = tenant;
  bytes = n;
  finalized_bytes = 0;
  status = reserved;
  expires_at = now + storage_quota_reservation_ttl;
}

abbrev pub raised : ℕ → Counter → Counter
raised n c = record c { reserved_bytes = c.reserved_bytes + n }

-- What a reservation that is granted writes, `c` being the counter that it locked.
pub record IsGranted (quota : Option ℕ) (tenant id : String) (n now : ℕ) (c : Counter)
    (u v : Tables) (a : Option StorageQuotaReservation) : Type 0 where
  pub fits : exceeds quota c n ≡ false
  pub granted : a ≡ some (record { id = id; bytes = pos n })
  pub written :
      v
      ≡ set_counter tenant
          (raised n c)
          (record u { reservations = new_reservation tenant id n now ∷ u.reservations })

raised-deltas :
    (n : ℕ) (c d : Counter)
    → add_delta (pos 0) c.used_bytes ≡ some d.used_bytes
    → add_delta (pos n) c.reserved_bytes ≡ some d.reserved_bytes
    → d ≡ raised n c
raised-deltas n c d h k =
    let p : d.used_bytes ≡ c.used_bytes = omega (arith, add_delta-pos 0 c.used_bytes h) in
    let q = add_delta-pos n c.reserved_bytes k in cc (p, q)

pub reserve_body-eq-ok :
    (quota : Option ℕ) (tenant : String) (n : ℕ) (id : String) (now : ℕ) (t : Tables)
    {a : Option StorageQuotaReservation} {v : Tables}
    → reserve_body quota tenant n id now t ≡ ok (a, v)
    → (c : Counter) × (u : Tables) × (ensure_storage_quota_counter tenant t ≡ ok (c, u))
      × ((exceeds quota c n ≡ true) × (a ≡ none) × (u ≡ v)
          ⊎ IsGranted quota tenant id n now c u v a)
unfolding reserve_body
reserve_body-eq-ok quota tenant n id now t {a} {v} h =
    let (c, u, e, k) = >>=-eq-ok _ _ t h in
    (
      c,
      u,
      e,
      elim (Bool-cases (exceeds quota c n)) [
        | inl over ↦ let (p, q) = pure-eq-ok none u (rw over at k) in inl (over, sym p, q)
        | inr fits ↦
            let (x, w, made, k1) = >>=-eq-ok _ _ u (rw fits at k) in
            let (y, z, counted, k2) = >>=-eq-ok _ _ w k1 in
            let (c0, d, found, new, used, held) = delta-eq-ok tenant (pos 0) (pos n) w counted in
            let row = created-eq-ok (new_reservation tenant id n now) u made in
            let same : c0 ≡ c = cc (found, row, (ensure-eq-ok tenant t e).found) in
            let (p, q) = pure-eq-ok (some (record { id = id; bytes = pos n })) z k2 in
            inr (record {
              fits = fits;
              granted = sym p;
              written = cc (q, new, row, raised-deltas n c0 d used held, same);
            })
      ],
    )

pub find_reservation-eq-some :
    (tenant id : String) (rows : List ReservationRow) {x : ReservationRow}
    → find_reservation tenant id rows ≡ some x
    → (x.tenant_id ≡ tenant) × (x.id ≡ id)
unfolding find_reservation
find_reservation-eq-some tenant id [] h = absurd (cc h)
find_reservation-eq-some tenant id (y ∷ ys) {x} h =
    let rest = find_reservation-eq-some tenant id ys {x = x} in
    (ground (arith, rest, eq_iff y.tenant_id tenant), ground (arith, rest, eq_iff y.id id))

pub found-own :
    (tenant id : String) (rows : List ReservationRow) {x : ReservationRow}
    → find_reservation tenant id rows ≡ some x
    → find_reservation tenant x.id rows ≡ some x
found-own tenant id rows {x} h =
    subst (λ i. find_reservation tenant i rows ≡ some x)
      (sym (find_reservation-eq-some tenant id rows h).1) h

lock-eq-ok :
    (tenant id : String) (t : Tables) {x : ReservationRow} {u : Tables}
    → lock_storage_quota_reservation tenant id t ≡ ok (x, u)
    → ((id == "") ≡ false) × (find_reservation tenant id t.reservations ≡ some x) × (t ≡ u)
unfolding lock_storage_quota_reservation
lock-eq-ok tenant id t {x} {u} h = (ground (arith, h), ground (arith, h), ground (arith, h))

-- What a reservation that is finalized has found: `x` is its row and `u` the tables.
pub record IsSettled (tenant : String) (r : StorageQuotaReservation) (n : ℕ) (x : ReservationRow)
    (u v : Tables) : Type 0 where
  pub named : (r.id == "") ≡ false
  pub found : find_reservation tenant r.id u.reservations ≡ some x
  pub agrees : (ltb_ℤ (pos x.bytes) r.bytes || ltb_ℤ r.bytes (pos x.bytes)) ≡ false
  pub covers : ltb x.bytes n ≡ false
  pub settled : settle tenant x n x.status u ≡ ok (tt, v)

pub finalize_body-eq-ok :
    (tenant : String) (r : StorageQuotaReservation) (n : ℕ) (t : Tables) {a : Unit {0}} {v : Tables}
    → finalize_body tenant r n t ≡ ok (a, v)
    → (c : Counter) × (u : Tables) × (x : ReservationRow) × (ensure_storage_quota_counter tenant t
        ≡ ok (c, u))
      × IsSettled tenant r n x u v
unfolding finalize_body
finalize_body-eq-ok tenant r n t {v = v} h =
    let (c, u, e, k) = >>=-eq-ok _ _ t h in
    let (x, w, l, k1) = >>=-eq-ok _ _ u k in
    let (agrees, k2) = guarded-eq-ok _ _ _ w k1 in
    let (covers, k3) = guarded-eq-ok _ _ _ w k2 in
    let (named, found, same) = lock-eq-ok tenant r.id u l in
    (
      c,
      u,
      x,
      e,
      record {
        named = named;
        found = found;
        agrees = agrees;
        covers = covers;
        settled = subst (λ w. settle tenant x n x.status w ≡ ok (tt, v)) (sym same) k3;
      },
    )
