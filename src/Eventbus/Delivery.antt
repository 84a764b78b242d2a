-- ===== src/Eventbus/Delivery.antt =====
-- What the readers of MemBus (eventbus/bus.go) are given.
use huawei_api.Base.{
  ℕ, ◌≡◌, refl, ◌∙◌, sym, ap, ◌⊎◌, inl, inr, Bool, true, false, ◌==◌, ltb, if◌then◌else◌, keep,
  length, map, Bool-cases, Option, some, none, List, [], ◌∷◌, ◌++◌, arith,
}
use huawei_api.Domain.Errors.{after}
use huawei_api.Eventbus.{
  Event, type_valid, Subscriber, wants, MemBus, shut, offer, publish, with_topic, subscribe,
  at_number, cancel, take_from, receive, close, BusCall, publishes, subscribes, cancels, receives,
  closes, bus_step, bus_run, accepted, all_accepted,
}

append_assoc {ℓ} : {A : Type ℓ} (xs ys zs : List A) → (xs ++ ys) ++ zs ≡ xs ++ (ys ++ zs)
append_assoc [] ys zs = refl
append_assoc (x ∷ xs) ys zs = ap (λ l. x ∷ l) (append_assoc xs ys zs)

append_nil {ℓ} : {A : Type ℓ} (xs : List A) → xs ++ [] ≡ xs
append_nil [] = refl
append_nil (x ∷ xs) = ap (λ l. x ∷ l) (append_nil xs)

keep-append {ℓ} :
    {A : Type ℓ} (p : A → Bool) (xs ys : List A) → keep p (xs ++ ys) ≡ keep p xs ++ keep p ys
keep-append p [] ys = refl
keep-append p (x ∷ xs) ys = elim (Bool-cases (p x)) [
  | inl e ↦ rw e (ap (λ l. x ∷ l) (keep-append p xs ys))
  | inr e ↦ rw e (keep-append p xs ys)
]

-- The subscriber with a number.
abbrev pub with_number : List Subscriber → ℕ → Option Subscriber
with_number [] n = none
with_number (s ∷ ss) n = let rest = with_number ss n in if s.number == n then some s else rest

with_number-map :
    (f : Subscriber → Subscriber) (ss : List Subscriber) (n : ℕ) (s : Subscriber)
    → ((x : Subscriber) → (f x).number ≡ x.number)
    → with_number ss n ≡ some s
    → with_number (map f ss) n ≡ some (f s)
with_number-map f [] n s k h = absurd (cc)
with_number-map f (x ∷ ss) n s k h = ground (arith, k x, with_number-map f ss n s k)

with_number-append :
    (ss more : List Subscriber) (n : ℕ) (s : Subscriber)
    → with_number ss n ≡ some s
    → with_number (ss ++ more) n ≡ some s
with_number-append [] more n s h = absurd (cc)
with_number-append (x ∷ ss) more n s h = ground (arith, with_number-append ss more n s)

-- All that the channel has carried.
abbrev pub carried : Subscriber → List Event
carried s = s.received ++ s.queue

-- A subscriber is cut off, or has been given the events for its topics, in order.
abbrev pub IsServed : Subscriber → Subscriber → List Event → Type 0
IsServed s s' es =
    (s'.is_open ≡ false)
    ⊎ ((s.is_open ≡ true) × (carried s' ≡ carried s ++ keep (wants s.topics) es))

offer-IsServed : (buffer : ℕ) (e : Event) (s : Subscriber) → IsServed s (offer buffer e s) (e ∷ [])
unfolding offer
offer-IsServed buffer e s = elim (Bool-cases s.is_open) [
  | inr shut_ ↦ rw shut_ (inl refl)
  | inl open_ ↦ elim (Bool-cases (wants s.topics e)) [
    | inr unwanted ↦ rw (open_, unwanted) (inr (refl, sym (append_nil (carried s))))
    | inl wanted ↦ elim (Bool-cases (ltb (length s.queue) buffer)) [
      | inr full ↦ rw (open_, wanted, full) (inl refl)
      | inl room ↦
          rw (open_, wanted, room) (inr (refl, sym (append_assoc s.received s.queue (e ∷ []))))
    ]
  ]
]

kept-IsServed : (s : Subscriber) → IsServed s s []
kept-IsServed s = elim (Bool-cases s.is_open) [
  | inl open_ ↦ inr (open_, sym (append_nil (carried s)))
  | inr shut_ ↦ inl shut_
]

taken-IsServed : (es : List Event) (s : Subscriber) → s.queue ≡ es → IsServed s (take_from es s) []
unfolding take_from
taken-IsServed [] s h = kept-IsServed s
taken-IsServed (e ∷ es) s h = elim (Bool-cases s.is_open) [
  | inr shut_ ↦ inl shut_
  | inl open_ ↦ inr (
    open_,
    append_assoc s.received (e ∷ []) es
        ∙ ap (λ q. s.received ++ q) (sym h)
        ∙ sym (append_nil (carried s)),
  )
]

-- A subscriber after a call.
abbrev Next : MemBus → ℕ → Subscriber → List Event → Type 0
Next b n s es =
    (s' : Subscriber) × (with_number b.subs n ≡ some s') × (s'.topics ≡ s.topics) × IsServed s s' es

at_number-IsServed :
    (n : ℕ) (f : Subscriber → Subscriber) (s : Subscriber)
    → IsServed s (f s) []
    → IsServed s (at_number n f s) []
at_number-IsServed n f s h = elim (Bool-cases (s.number == n)) [
  | inl same ↦ rw same h
  | inr apart ↦ rw apart (kept-IsServed s)
]

offer-keeps :
    (buffer : ℕ) (e : Event) (s : Subscriber)
    → ((offer buffer e s).number ≡ s.number) × ((offer buffer e s).topics ≡ s.topics)
unfolding offer
offer-keeps buffer e s = (ground arith, ground arith)

take_from-keeps :
    (es : List Event) (s : Subscriber)
    → ((take_from es s).number ≡ s.number) × ((take_from es s).topics ≡ s.topics)
unfolding take_from
take_from-keeps [] s = (refl, refl)
take_from-keeps (e ∷ es) s = (refl, refl)

publish-Next :
    (b : MemBus) (e : Event) (n : ℕ) (s : Subscriber)
    → with_number b.subs n ≡ some s
    → Next (after b (publish b e)) n s (accepted b (publishes e))
unfolding publish
publish-Next b e n s h = elim (Bool-cases (type_valid e.event_type)) [
  | inr unknown ↦ rw unknown (s, h, refl, kept-IsServed s)
  | inl known ↦ elim (Bool-cases b.is_closed) [
    | inl over ↦ rw (known, over) (s, h, refl, kept-IsServed s)
    | inr running ↦
        rw (known, running)
          (
            offer b.buffer (with_topic e) s,
            with_number-map (offer b.buffer (with_topic e)) b.subs n s
                (λ x. (offer-keeps b.buffer (with_topic e) x).0) h,
            (offer-keeps b.buffer (with_topic e) s).1,
            offer-IsServed b.buffer (with_topic e) s,
          )
  ]
]

step-Next :
    (b : MemBus) (c : BusCall) (n : ℕ) (s : Subscriber)
    → with_number b.subs n ≡ some s
    → Next (bus_step b c) n s (accepted b c)
unfolding bus_step subscribe cancel receive close
step-Next b (publishes e) n s h = publish-Next b e n s h
step-Next b (subscribes m topics) n s h = elim (Bool-cases b.is_closed) [
  | inl over ↦ rw over (s, h, refl, kept-IsServed s)
  | inr running ↦ rw running (s, with_number-append b.subs _ n s h, refl, kept-IsServed s)
]
step-Next b (cancels m) n s h = (
  at_number m shut s,
  with_number-map (at_number m shut) b.subs n s (λ x. ground arith) h,
  ground arith,
  at_number-IsServed m shut s (inl refl),
)
step-Next b (receives m) n s h = (
  at_number m (λ x. take_from x.queue x) s,
  with_number-map (at_number m (λ x. take_from x.queue x)) b.subs n s
      (λ x. ground (arith, (take_from-keeps x.queue x).0)) h,
  ground (arith, (take_from-keeps s.queue s).1),
  at_number-IsServed m (λ x. take_from x.queue x) s (taken-IsServed s.queue s refl),
)
step-Next b closes n s h = elim (Bool-cases b.is_closed) [
  | inl over ↦ rw over (s, h, refl, kept-IsServed s)
  | inr running ↦ rw running (shut s, with_number-map shut b.subs n s (λ x. refl) h, refl, inl refl)
]

IsServed-then :
    (s t u : Subscriber) (es fs : List Event)
    → t.topics ≡ s.topics
    → IsServed s t es
    → IsServed t u fs
    → IsServed s u (es ++ fs)
IsServed-then s t u es fs same first (inl shut_) = inl shut_
IsServed-then s t u es fs same (inl shut_) (inr (open_, later)) = absurd (cc)
IsServed-then s t u es fs same (inr (open_s, sooner)) (inr (open_t, later)) = inr (
  open_s,
  later
      ∙ ap (λ l. l ++ keep (wants t.topics) fs) sooner
      ∙ ap (λ ts. (carried s ++ keep (wants s.topics) es) ++ keep (wants ts) fs) same
      ∙ append_assoc (carried s) (keep (wants s.topics) es) (keep (wants s.topics) fs)
      ∙ ap (λ l. carried s ++ l) (sym (keep-append (wants s.topics) es fs)),
)

-- At the end of a history of calls, a subscriber of the bus has its channel closed, or the channel has
-- carried, after what it had carried before, exactly the events that were published for its topics, in
-- the order of publication.
pub bus_run_serves :
    (b : MemBus) (cs : List BusCall) (n : ℕ) (s : Subscriber)
    → with_number b.subs n ≡ some s
    → (s' : Subscriber) × (with_number (bus_run b cs).subs n ≡ some s')
      × (s'.topics ≡ s.topics)
      × IsServed s s' (all_accepted b cs)
unfolding bus_run all_accepted
bus_run_serves b [] n s h = (s, h, refl, kept-IsServed s)
bus_run_serves b (c ∷ cs) n s h =
    let (t, found, same, served) = step-Next b c n s h in
    let (u, found', same', served') = bus_run_serves (bus_step b c) cs n t found in
    (
      u,
      found',
      same' ∙ same,
      IsServed-then s t u (accepted b c) (all_accepted (bus_step b c) cs) same served served',
    )
