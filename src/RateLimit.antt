-- ===== src/RateLimit.antt =====
-- api/rate_limit.py: the sliding-window limiter. `time.monotonic()` is an argument, in ticks, and the
-- windows are in the same ticks. The lock makes the rest of each call one step; since the time is read
-- before the lock is taken, the times of the calls that follow one another may go back.
pub mod Window
use stage.Prelude.{
  ℕ, ◌+◌, String, List, [], ◌∷◌, ◌++◌, Bool, true, false, leb, str_eq, if◌then◌else◌, length,
}

-- `self._events`
abbrev pub Events : Type 0
Events = List (String × List ℕ)

-- `self._events.setdefault(key, deque())`, and the bucket as the call leaves it.
unfoldable pub bucket_of : String → Events → List ℕ
bucket_of key [] = []
bucket_of key ((k, bucket) ∷ rest) = if str_eq k key then bucket else bucket_of key rest

unfoldable pub put_bucket : String → List ℕ → Events → Events
put_bucket key bucket [] = (key, bucket) ∷ []
put_bucket key bucket ((k, old) ∷ rest) =
    if str_eq k key then (k, bucket) ∷ rest else (k, old) ∷ put_bucket key bucket rest

-- `while bucket and bucket[0] <= now - window_seconds: bucket.popleft()`
unfoldable pub prune : ℕ → ℕ → List ℕ → List ℕ
prune now window [] = []
prune now window (b ∷ bucket) = if leb (b + window) now then prune now window bucket else b ∷ bucket

-- What a call makes of its bucket, and its answer.
unfoldable pub allow_bucket : ℕ → ℕ → ℕ → List ℕ → List ℕ × Bool
unfolding prune
allow_bucket now max_events window bucket =
    let live = prune now window bucket in
    if leb max_events (length live) then (live, false) else (live ++ now ∷ [], true)

unfoldable pub allow : ℕ → String → ℕ → ℕ → Events → Events × Bool
unfolding allow_bucket bucket_of put_bucket
allow now key max_events window events =
    let (bucket, granted) = allow_bucket now max_events window (bucket_of key events) in
    (put_bucket key bucket events, granted)

-- The calls, each a key and the time that it read, in the order in which they take the lock; what was
-- granted, newest first.
module _ (max_events window : ℕ) where
  unfoldable pub run : Events → List (String × ℕ) → List (String × ℕ) → List (String × ℕ)
  unfolding allow
  run events granted [] = granted
  run events granted ((key, now) ∷ calls) =
      let (events', answer) = allow now key max_events window events in
      run events' (if answer then (key, now) ∷ granted else granted) calls
