-- ===== src/Sse/Broker/Channels.antt =====
-- broker.go: each subscriber has a bounded channel of its own.
use amazon_ai_product_image.Base.{
  ℕ, ◌+◌, ◌%◌, ◌^◌, ◌<◌, ◌≤◌, Bool, true, false, some, List, [], ◌∷◌, ◌++◌, zero, suc, ltb, ◌==◌,
  nat_eq, ◌≡◌, ◌≢◌, refl, sym, ap, ◌∙◌, arith, ne→beq, if◌then◌else◌, Bool-cases, inl, inr,
}
use amazon_ai_product_image.Base.Lists.{length, length-append, take, All}
use amazon_ai_product_image.Task.{TaskEvent}
use amazon_ai_product_image.Sse.Broker.{
  Broker, Subscription, publish_task_event, subscribe, unsubscribe, receive, offer, rest,
}

pub data Step : Type 0 where
  publishing : TaskEvent → Step
  subscribing : Step
  unsubscribing : Subscription → Step
  receiving : ℕ → Step

pub step : Step → Broker → Broker
step (publishing e) b = publish_task_event e b
step subscribing b = (subscribe b).1
step (unsubscribing s) b = (unsubscribe s b).1
step (receiving k) b = receive k b

pub run : List Step → Broker → Broker
run [] b = b
run (s ∷ ss) b = run ss (step s b)

-- A channel by itself, and what happens to it.
pub data ChannelStep : Type 0 where
  offered : TaskEvent → ChannelStep
  taken : ChannelStep

unfoldable pub run_channel : ℕ → List ChannelStep → List TaskEvent → List TaskEvent
run_channel buffer [] waiting = waiting
run_channel buffer (offered e ∷ cs) waiting =
    run_channel buffer cs (take buffer (waiting ++ (e ∷ [])))
run_channel buffer (taken ∷ cs) waiting = run_channel buffer cs (rest waiting)

-- What the steps of a broker are for the subscriber with an id.
unfoldable pub seen : ℕ → List Step → List ChannelStep
seen id [] = []
seen id (publishing e ∷ ss) = offered e ∷ seen id ss
seen id (subscribing ∷ ss) = seen id ss
seen id (unsubscribing s ∷ ss) = seen id ss
seen id (receiving k ∷ ss) = if id == k then taken ∷ seen id ss else seen id ss

unfoldable pub Keeps : ℕ → Step → Type 0
Keeps id (publishing e) = Unit
Keeps id subscribing = Unit
Keeps id (unsubscribing s) = id ≢ s.id
Keeps id (receiving k) = Unit

new_id_lem : (n : ℕ) → n + 1 < 2 ^ 64 → (n + 1) % 2 ^ 64 ≡ n + 1
new_id_lem n n_lt = omega arith

subscribers-subscribe :
    (b : Broker) (id : ℕ)
    → id ≤ b.next_id
    → b.next_id + 1 < 2 ^ 64
    → (subscribe b).1.subscribers id ≡ b.subscribers id
unfolding subscribe
subscribers-subscribe b id id_le bound =
    rw (new_id_lem b.next_id bound, ne→beq id (b.next_id + 1) (λ p. omega arith)) refl

next_id-subscribe : (b : Broker) → b.next_id + 1 < 2 ^ 64 → (subscribe b).1.next_id ≡ b.next_id + 1
unfolding subscribe
next_id-subscribe b bound = new_id_lem b.next_id bound

module _ (s : Subscription) (b : Broker) where
  buffer-unsubscribe : (unsubscribe s b).1.buffer ≡ b.buffer
  unfolding unsubscribe
  buffer-unsubscribe = elim (Bool-cases s.done) [ inl p ↦ rw p refl | inr p ↦ rw p refl ]

  next_id-unsubscribe : (unsubscribe s b).1.next_id ≡ b.next_id
  unfolding unsubscribe
  next_id-unsubscribe = elim (Bool-cases s.done) [ inl p ↦ rw p refl | inr p ↦ rw p refl ]

  subscribers-unsubscribe :
      (id : ℕ) → id ≢ s.id → (unsubscribe s b).1.subscribers id ≡ b.subscribers id
  unfolding unsubscribe
  subscribers-unsubscribe id id_ne = elim (Bool-cases s.done) [
    | inl p ↦ rw p refl
    | inr p ↦ rw (p, ne→beq id s.id id_ne) refl
  ]

take_fits : {A : Type 0} (n : ℕ) (xs : List A) → length xs ≤ n → take n xs ≡ xs
take_fits zero [] fits = refl
take_fits zero (x ∷ xs) fits = ground arith
take_fits (suc n) [] fits = refl
take_fits (suc n) (x ∷ xs) fits = ap (λ r. x ∷ r) (take_fits n xs (omega arith))

take-append : {A : Type 0} (n : ℕ) (xs ys : List A) → length xs ≡ n → take n (xs ++ ys) ≡ xs
take-append zero [] ys is = refl
take-append zero (x ∷ xs) ys is = ground arith
take-append (suc n) [] ys is = ground arith
take-append (suc n) (x ∷ xs) ys is = ap (λ r. x ∷ r) (take-append n xs ys (omega arith))

module _ (n : ℕ) (e : TaskEvent) (waiting : List TaskEvent) (fits : length waiting ≤ n) where
  room_lem : ltb (length waiting) n ≡ true → length (waiting ++ (e ∷ [])) ≤ n
  room_lem p = let k = length-append waiting (e ∷ []) in ground arith

  take-offer : offer n e waiting ≡ take n (waiting ++ (e ∷ []))
  take-offer = elim (Bool-cases (ltb (length waiting) n)) [
    | inl p ↦ rw p (sym (take_fits n (waiting ++ (e ∷ [])) (room_lem p)))
    | inr p ↦ rw p (sym (take-append n waiting (e ∷ []) (ground arith)))
  ]

  offer_fits : length (offer n e waiting) ≤ n
  offer_fits = elim (Bool-cases (ltb (length waiting) n)) [
    | inl p ↦ rw p (room_lem p)
    | inr p ↦ rw p fits
  ]

rest_fits :
    (n : ℕ) (c : Bool) (waiting : List TaskEvent)
    → length waiting ≤ n
    → length (if c then rest waiting else waiting) ≤ n
rest_fits n false waiting fits = fits
rest_fits n true [] fits = fits
rest_fits n true (w ∷ ws) fits = omega arith

module _ (b : Broker) (id : ℕ) (waiting : List TaskEvent)
    (is : b.subscribers id ≡ some waiting) where
  subscribers-publish :
      (e : TaskEvent) → (publish_task_event e b).subscribers id ≡ some (offer b.buffer e waiting)
  unfolding publish_task_event
  subscribers-publish e = rw is refl

  subscribers-receive :
      (k : ℕ) → (receive k b).subscribers id ≡ some (if id == k then rest waiting else waiting)
  unfolding receive
  subscribers-receive k = elim (Bool-cases (id == k)) [
    | inl p ↦ rw (p, is) refl
    | inr p ↦ rw (p, is) refl
  ]

run_channel_if :
    (n : ℕ) (c : Bool) (cs : List ChannelStep) (waiting : List TaskEvent)
    → run_channel n cs (if c then rest waiting else waiting)
      ≡ run_channel n (if c then taken ∷ cs else cs) waiting
unfolding run_channel
run_channel_if n true cs waiting = refl
run_channel_if n false cs waiting = refl

-- Let a subscriber have a channel with some events waiting, no more than its buffer holds. Then
-- any steps of the broker that do not end its subscription, and that are too few for an id to
-- come up again, leave in its channel what they would leave in a bounded channel by itself: one
-- that each event is added to, that keeps only the first events that fit, and that the
-- subscriber's own receives take from.
pub run-run_channel :
    (steps : List Step) (b : Broker) (id : ℕ) (waiting : List TaskEvent)
    → length waiting ≤ b.buffer
    → id ≤ b.next_id
    → b.next_id + length steps < 2 ^ 64
    → b.subscribers id ≡ some waiting
    → All (Keeps id) steps
    → (run steps b).subscribers id ≡ some (run_channel b.buffer (seen id steps) waiting)
unfolding run run_channel seen step Keeps publish_task_event subscribe receive
run-run_channel [] b id waiting fits id_le bound is keeps = is
run-run_channel (publishing e ∷ ss) b id waiting fits id_le bound is keeps =
    run-run_channel ss (publish_task_event e b) id (offer b.buffer e waiting)
      (offer_fits b.buffer e waiting fits) id_le (omega arith)
      (subscribers-publish b id waiting is e) keeps.1
    ∙ ap (λ w. some (run_channel b.buffer (seen id ss) w)) (take-offer b.buffer e waiting fits)
run-run_channel (subscribing ∷ ss) b id waiting fits id_le bound is keeps =
    let next = next_id-subscribe b (omega arith) in
    run-run_channel ss (subscribe b).1 id waiting fits (omega arith) (omega arith)
      (subscribers-subscribe b id id_le (omega arith) ∙ is) keeps.1
run-run_channel (unsubscribing s ∷ ss) b id waiting fits id_le bound is keeps =
    let next = next_id-unsubscribe s b in
    run-run_channel ss (unsubscribe s b).1 id waiting (rw (buffer-unsubscribe s b) fits)
      (omega arith) (omega arith) (subscribers-unsubscribe s b id keeps.0 ∙ is) keeps.1
    ∙ ap (λ n. some (run_channel n (seen id ss) waiting)) (buffer-unsubscribe s b)
run-run_channel (receiving k ∷ ss) b id waiting fits id_le bound is keeps =
    run-run_channel ss (receive k b) id (if id == k then rest waiting else waiting)
      (rest_fits b.buffer (id == k) waiting fits) id_le (omega arith)
      (subscribers-receive b id waiting is k) keeps.1
    ∙ ap some (run_channel_if b.buffer (id == k) (seen id ss) waiting)
