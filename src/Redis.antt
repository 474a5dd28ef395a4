-- ===== src/Redis.antt =====
-- The Redis server, which the repository calls and does not contain: an interface.
-- `Contents` is what a client can read; `effect` states the documented effect of each command that
-- the source sends. A hash field is kept in `counts` if the program writes integers to that hash
-- and in `texts` if it writes text; no hash holds both. Scores and times are milliseconds.
pub mod SortedSet
pub mod Memory
use amazon_ai_product_image.Base.{
  Bool, true, false, ℕ, ◌+◌, ◌≤◌, ◌≡◌, ◌⊎◌, String, Option, none, some, List, [], ◌∷◌, ◌++◌, ◌==◌,
  string_eq, ltb, if◌then◌else◌,
}
use amazon_ai_product_image.Base.Lists.{remove_first, contains, All, length}

pub record Contents : Type 0 where
  pub lists : String → List String
  pub counts : String → String → Option ℕ
  pub texts : String → String → Option String
  pub zsets : String → List (String × ℕ)
  pub sets : String → List String

-- A map with one key given anew.
abbrev pub update {ℓ} : {A : Type ℓ} → (String → A) → String → A → String → A
update m k v j = if k == j then v else m j

-- The score of a member of a sorted set.
unfoldable pub score : String → List (String × ℕ) → Option ℕ
score m [] = none
score m ((n, s) ∷ z) = if n == m then some s else score m z

-- ZSCORE gives a score.
abbrev pub is_member : String → List (String × ℕ) → Bool
is_member id z = elim (score id z) [ none ↦ false | some _ ↦ true ]

unfoldable pub z_remove : String → List (String × ℕ) → List (String × ℕ)
z_remove m [] = []
z_remove m ((n, s) ∷ z) = if n == m then z else (n, s) ∷ z_remove m z

-- A sorted set holds a member once: ZADD gives a member that is there a new score.
unfoldable pub z_put : String → ℕ → List (String × ℕ) → List (String × ℕ)
z_put m s [] = (m, s) ∷ []
z_put m s ((n, t) ∷ z) = if n == m then (m, s) ∷ z else (n, t) ∷ z_put m s z

-- The members whose score lies above a limit.
unfoldable pub z_above : ℕ → List (String × ℕ) → List (String × ℕ)
z_above limit [] = []
z_above limit ((n, s) ∷ z) = if ltb limit s then (n, s) ∷ z_above limit z else z_above limit z

-- HINCRBY takes a missing field for 0.
unfoldable pub count_or_zero : Option ℕ → ℕ
count_or_zero none = 0
count_or_zero (some n) = n

pub set_add : String → List String → List String
set_add v xs = if contains v xs then xs else v ∷ xs

pub data Command : Type 0 where
  rpush : String → String → Command
  lrem_one : String → String → Command
  lmove_left_right : String → String → Command
  hincrby_one : String → String → Command
  hset_count : String → String → ℕ → Command
  hset_text : String → String → String → Command
  hdel : String → String → Command
  zadd : String → ℕ → String → Command
  zrem : String → String → Command
  zremrange_upto : String → ℕ → Command
  pexpire : String → ℕ → Command
  sadd : String → String → Command

-- LMOVE source destination LEFT RIGHT on the two lists.
unfoldable pub move_head : String → String → List String → Contents → Contents
move_head src dst [] c = c
move_head src dst (x ∷ xs) c =
    let taken = update c.lists src xs in record c { lists = update taken dst (taken dst ++ x ∷ []) }

unfoldable pub effect : Command → Contents → Contents
unfolding move_head
effect (rpush k v) c = record c { lists = update c.lists k (c.lists k ++ v ∷ []) }
effect (lrem_one k v) c = record c { lists = update c.lists k (remove_first v (c.lists k)) }
effect (lmove_left_right src dst) c = move_head src dst (c.lists src) c
effect (hincrby_one k f) c = record c {
  counts = update c.counts k (update (c.counts k) f (some (count_or_zero (c.counts k f) + 1)));
}
effect (hset_count k f n) c = record c {
  counts = update c.counts k (update (c.counts k) f (some n));
}
effect (hset_text k f v) c = record c { texts = update c.texts k (update (c.texts k) f (some v)) }
effect (hdel k f) c = record c {
  counts = update c.counts k (update (c.counts k) f none);
  texts = update c.texts k (update (c.texts k) f none);
}
effect (zadd k s m) c = record c { zsets = update c.zsets k (z_put m s (c.zsets k)) }
effect (zrem k m) c = record c { zsets = update c.zsets k (z_remove m (c.zsets k)) }
effect (zremrange_upto k limit) c = record c {
  zsets = update c.zsets k (z_above limit (c.zsets k));
}
effect (pexpire k ttl) c = c
effect (sadd k v) c = record c { sets = update c.sets k (set_add v (c.sets k)) }

-- What a call of the client library gives: the reply, or an error of the connection or the server.
pub data Reply (A : Type 0) : Type 0 where
  reply : A → Reply A
  fault : Reply A

pub record Redis : Type 1 where
  pub Store : Type 0
  pub view : Store → Contents
  pub exec : Command → Store → Store
  pub view-exec : (c : Command) (s : Store) → view (exec c s) ≡ effect c (view s)
  -- One round trip: the server runs a command or a Lua script, which are atomic.
  pub call : {A : Type 0} → (Store → A × Store) → Store → Reply A × Store
  -- A reply means that it ran; after an error it has run or it has not.
  pub call_cases :
      {A : Type 0} (f : Store → A × Store) (s : Store)
      → ((call f s).0 ≡ reply (f s).0) × (view (call f s).1 ≡ view (f s).1)
        ⊎ ((call f s).0 ≡ fault) × (view (call f s).1 ≡ view s)
        ⊎ ((call f s).0 ≡ fault) × (view (call f s).1 ≡ view (f s).1)
  -- ZRANGEBYSCORE key -inf limit LIMIT 0 count.
  pub upto_score : Store → String → ℕ → ℕ → List String
  pub upto_score_due :
      (s : Store) (k : String) (limit n : ℕ)
      → All
          (λ m. (t : ℕ) × (score m ((view s).zsets k) ≡ some t) × (t ≤ limit))
          (upto_score s k limit n)
  pub upto_score_few : (s : Store) (k : String) (limit n : ℕ) → length (upto_score s k limit n) ≤ n
