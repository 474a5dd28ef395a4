-- ===== src/Redis/Memory.antt =====
-- A Redis store in memory, which meets the interface: `outages` says how the next calls go wrong.
use amazon_ai_product_image.Base.{
  ℕ, zero, suc, ◌≤◌, ◌≡◌, ◌⊎◌, refl, inl, inr, String, Bool, true, false, Option, none, some, List,
  [], ◌∷◌, arith, leb, leb→le, if◌then◌else◌, Bool-cases,
}
use amazon_ai_product_image.Base.Lists.{All, length}
use amazon_ai_product_image.Redis.{Redis, Contents, Reply, reply, fault, effect, score}

pub data Outage : Type 0 where
  no_outage request_lost reply_lost : Outage

pub record Memory : Type 0 where
  pub contents : Contents
  pub outages : List Outage

abbrev pub run_call : {A : Type 0} → List Outage → (Memory → A × Memory) → Memory → Reply A × Memory
run_call [] f s = let (a, t) = f s in (reply a, t)
run_call (no_outage ∷ os) f s = let (a, t) = f s in (reply a, record t { outages = os })
run_call (request_lost ∷ os) f s = (fault, record s { outages = os })
run_call (reply_lost ∷ os) f s = let (a, t) = f s in (fault, record t { outages = os })

pub run_call_cases :
    {A : Type 0} (os : List Outage) (f : Memory → A × Memory) (s : Memory)
    → ((run_call os f s).0 ≡ reply (f s).0) × ((run_call os f s).1.contents ≡ (f s).1.contents)
      ⊎ ((run_call os f s).0 ≡ fault) × ((run_call os f s).1.contents ≡ s.contents)
      ⊎ ((run_call os f s).0 ≡ fault) × ((run_call os f s).1.contents ≡ (f s).1.contents)
run_call_cases [] f s = inl (refl, refl)
run_call_cases (no_outage ∷ os) f s = inl (refl, refl)
run_call_cases (request_lost ∷ os) f s = inr (inl (refl, refl))
run_call_cases (reply_lost ∷ os) f s = inr (inr (refl, refl))

-- The members up to a limit, of the entries `ys` of the sorted set `z`.
abbrev pub is_due : ℕ → Option ℕ → Bool
is_due limit none = false
is_due limit (some t) = leb t limit

abbrev pub due_members : ℕ → List (String × ℕ) → List (String × ℕ) → ℕ → List String
due_members limit z ys zero = []
due_members limit z [] (suc n) = []
due_members limit z ((m, t) ∷ ys) (suc n) =
    if is_due limit (score m z)
    then m ∷ due_members limit z ys n
    else due_members limit z ys (suc n)

is_due→IsDue :
    (limit : ℕ) (o : Option ℕ) → is_due limit o ≡ true → (t : ℕ) × (o ≡ some t) × (t ≤ limit)
is_due→IsDue limit none h = absurd (ground arith)
is_due→IsDue limit (some t) h = (t, refl, leb→le t limit h)

pub due_members-All :
    (limit : ℕ) (z ys : List (String × ℕ)) (n : ℕ)
    → All (λ m. (t : ℕ) × (score m z ≡ some t) × (t ≤ limit)) (due_members limit z ys n)
due_members-All limit z ys zero = tt
due_members-All limit z [] (suc n) = tt
due_members-All limit z ((m, t) ∷ ys) (suc n) = elim (Bool-cases (is_due limit (score m z))) [
  | inl due ↦ rw due (is_due→IsDue limit (score m z) due, due_members-All limit z ys n)
  | inr late ↦ rw late (due_members-All limit z ys (suc n))
]

pub length-due_members :
    (limit : ℕ) (z ys : List (String × ℕ)) (n : ℕ) → length (due_members limit z ys n) ≤ n
length-due_members limit z ys zero = omega arith
length-due_members limit z [] (suc n) = omega arith
length-due_members limit z ((m, t) ∷ ys) (suc n) = elim (Bool-cases (is_due limit (score m z))) [
  | inl due ↦ rw due (omega (arith, length-due_members limit z ys n))
  | inr late ↦ rw late (length-due_members limit z ys (suc n))
]

abbrev pub memory : Redis
memory = record {
  Store = Memory;
  view = λ s. s.contents;
  exec = λ c s. record s { contents = effect c s.contents };
  view-exec = λ c s. refl;
  call = λ f s. run_call s.outages f s;
  call_cases = λ f s. run_call_cases s.outages f s;
  upto_score = λ s k limit n. due_members limit (s.contents.zsets k) (s.contents.zsets k) n;
  upto_score_due = λ s k limit n. due_members-All limit (s.contents.zsets k) (s.contents.zsets k) n;
  upto_score_few =
      λ s k limit n. length-due_members limit (s.contents.zsets k) (s.contents.zsets k) n;
}
