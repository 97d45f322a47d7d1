-- ===== src/RateLimit/Window.antt =====
-- The promise of the limiter: no window of time holds more grants of a key than the limit.
use stage.Prelude.{
  ℕ, ◌+◌, ◌≤◌, String, List, [], ◌∷◌, ◌++◌, ◌&&◌, leb, ltb, str_eq, str_eq_iff, if◌then◌else◌, ◌≡◌,
  refl, arith, length, max,
}
use stage.RateLimit.{Events, bucket_of, put_bucket, prune, allow, run}

-- No call waits for the lock for longer than the skew while later ones overtake it: the time that it read is at
-- most so far behind the latest one before it.
abbrev pub IsTimed : ℕ → ℕ → List (String × ℕ) → Type 0
IsTimed skew latest [] = Unit
IsTimed skew latest ((key, now) ∷ calls) =
    (latest ≤ now + skew) × IsTimed skew (max latest now) calls

-- How many grants of a key fall into the window that ends at t: those a with t - window < a ≤ t.
unfoldable pub grants_in : ℕ → ℕ → String → List (String × ℕ) → ℕ
grants_in window t key [] = 0
grants_in window t key ((k, a) ∷ granted) =
    (if str_eq k key && (leb a t && ltb t (a + window)) then 1 else 0)
    + grants_in window t key granted

bucket_of-put :
    (key other : String) (bucket : List ℕ) (events : Events)
    → bucket_of other (put_bucket key bucket events)
      ≡ (if str_eq key other then bucket else bucket_of other events)
unfolding bucket_of put_bucket
bucket_of-put key other bucket [] = ground arith
bucket_of-put key other bucket ((k, old) ∷ events) = ground (
  arith,
  bucket_of-put key other bucket events,
  str_eq_iff k key,
  str_eq_iff k other,
  str_eq_iff key other,
)

module _ (window : ℕ) where
  -- The events of a bucket that a window ending at t still sees, or would see of later ones.
  live : ℕ → List ℕ → ℕ
  live t [] = 0
  live t (b ∷ bucket) = (if ltb t (b + window) then 1 else 0) + live t bucket

  live-le-length : (t : ℕ) (bucket : List ℕ) → live t bucket ≤ length bucket
  unfolding live
  live-le-length t [] = omega arith
  live-le-length t (b ∷ bucket) = ground (arith, live-le-length t bucket)

  live-prune :
      (skew now t : ℕ) (bucket : List ℕ)
      → now ≤ t + skew
      → live t (prune now (window + skew) bucket) ≡ live t bucket
  unfolding live prune
  live-prune skew now t [] h = refl
  live-prune skew now t (b ∷ bucket) h = ground (arith, live-prune skew now t bucket h)

  live-snoc :
      (t a : ℕ) (bucket : List ℕ)
      → live t (bucket ++ a ∷ []) ≡ live t bucket + (if ltb t (a + window) then 1 else 0)
  unfolding live
  live-snoc t a [] = omega arith
  live-snoc t a (b ∷ bucket) = omega (arith, live-snoc t a bucket)

module _ (max_events window skew : ℕ) where
  -- After the calls up to a time: no window holds too many grants, and what a later window can still
  -- see of the grants stands in the bucket.
  record Inv (from : ℕ) (events : Events) (granted : List (String × ℕ)) : Type 0 where
    bounded : (key : String) (t : ℕ) → grants_in window t key granted ≤ max_events
    kept :
        (key : String) (t : ℕ)
        → from ≤ t + skew
        → grants_in window t key granted ≤ live window t (bucket_of key events)

  module _ (from now : ℕ) (key : String) (events : Events) (granted : List (String × ℕ))
      (later : from ≤ now + skew) (inv : Inv from events granted) where
    abbrev pruned : List ℕ
    pruned = prune now (window + skew) (bucket_of key events)

    abbrev granted' : List (String × ℕ)
    granted' =
        if (allow now key max_events (window + skew) events).1
        then (key, now) ∷ granted
        else granted

    allow-bounded : (k : String) (t : ℕ) → grants_in window t k granted' ≤ max_events
    unfolding allow grants_in
    allow-bounded k t = ground (
      arith,
      inv.bounded k t,
      inv.kept k t,
      live-prune window skew now t (bucket_of key events),
      live-le-length window t pruned,
      str_eq_iff key k,
    )

    allow-kept :
        (k : String) (t : ℕ)
        → max from now ≤ t + skew
        → grants_in window t k granted'
          ≤ live window t (bucket_of k (allow now key max_events (window + skew) events).0)
    unfolding allow grants_in
    allow-kept k t h = ground (
      arith,
      inv.kept k t,
      live-prune window skew now t (bucket_of key events),
      live-snoc window t now pruned,
      bucket_of-put key k pruned events,
      bucket_of-put key k (pruned ++ now ∷ []) events,
      str_eq_iff key k,
    )

    allow-Inv : Inv (max from now) (allow now key max_events (window + skew) events).0 granted'
    allow-Inv = record { bounded = allow-bounded; kept = allow-kept }

  run-Inv :
      (calls : List (String × ℕ)) (from : ℕ) (events : Events) (granted : List (String × ℕ))
      → IsTimed skew from calls
      → Inv from events granted
      → (key : String) (t : ℕ)
      → grants_in window t key (run max_events (window + skew) events granted calls) ≤ max_events
  unfolding run
  run-Inv [] from events granted timed inv = inv.bounded
  run-Inv ((key, now) ∷ calls) from events granted timed inv =
      run-Inv calls (max from now) (allow now key max_events (window + skew) events).0 _ timed.1
        (allow-Inv from now key events granted timed.0 inv)

  -- However the calls of all keys are interleaved, if no call comes to the lock with a time that is behind the
  -- latest one before it by more than the skew, then every window that is shorter than the limiter's by the
  -- skew holds at most the limit of granted calls of each key; with no skew, every window of its length.
  pub run-bounded :
      (calls : List (String × ℕ)) (key : String) (t : ℕ)
      → IsTimed skew 0 calls
      → grants_in window t key (run max_events (window + skew) [] [] calls) ≤ max_events
  unfolding grants_in
  run-bounded calls key t timed =
      run-Inv calls 0 [] [] timed
        (record { bounded = λ k s. omega arith; kept = λ k s h. omega arith }) key t
