-- ===== src/Workers/Log.antt =====
-- `_append_log` of workers/tasks.py: the job log, capped from its head.
use stage.Prelude.{
  ℕ, ◌+◌, ◌-◌, ◌≤◌, ◌<◌, [], ◌∷◌, ◌++◌, true, not, ltb, if◌then◌else◌, ◌≡◌, refl, arith, Text,
  length, take, drop, ap, ◌∙◌,
}
use stage.Prelude.{codes, length-append, length-drop, drop_append, take-append-drop}
use mathlib.Core.List.{append_assoc}
use stage.Workers.Redaction.{Patterns, scrub_line, starts_with}

abbrev pub log_cap : ℕ
log_cap = 200000

abbrev pub truncation_marker : Text
truncation_marker =
    10 ∷ codes "[... truncated — first bytes dropped, keeping last 200000 bytes ...]" ++ 10 ∷ []

-- s[-k:], for k above 0.
abbrev pub take_last : ℕ → Text → Text
take_last k s = drop (length s - k) s

-- The new value of `job.log`, for a cap and a marker.
unfoldable pub cap_log : ℕ → Text → Text → Text → Text
cap_log cap marker log line =
    let new_log = log ++ line ++ 10 ∷ [] in
    let kept = if not (starts_with marker log) then marker else [] in
    if ltb cap (length new_log) then kept ++ take_last (cap - length kept) new_log else new_log

unfoldable pub append_log : Patterns → Text → Text → Text
unfolding cap_log
append_log patterns log line = cap_log log_cap truncation_marker log (scrub_line patterns line)

-- Whatever the log was, it is no longer than the cap after a line, if the marker fits.
pub length-cap_log-le :
    (cap : ℕ) (marker log line : Text)
    → length marker ≤ cap
    → length (cap_log cap marker log line) ≤ cap
unfolding cap_log
length-cap_log-le cap marker log line fits =
    let new_log = log ++ line ++ 10 ∷ [] in
    let kept = if not (starts_with marker log) then marker else [] in
    ground (
      arith,
      length-append kept (take_last (cap - length kept) new_log),
      length-append [] (take_last (cap - length kept) new_log),
      length-drop (length new_log - (cap - length kept)) new_log,
    )

starts_with-append : (p s : Text) → starts_with p (p ++ s) ≡ true
unfolding starts_with
starts_with-append [] s = refl
starts_with-append (c ∷ p) s = ground (arith, starts_with-append p s)

module _ (cap : ℕ) (marker log line : Text) where
  abbrev new_log : Text
  new_log = log ++ line ++ 10 ∷ []

  -- The end of the log is what survives, and as much of it as fits: a line that fits the cap is just
  -- added; otherwise what is kept is an end of the log with the line, the marker stands before it
  -- exactly if the old log did not begin with the marker, and together they are as long as the cap.
  -- The marker has to be shorter than the cap.
  pub cap_log-keeps-end :
      length marker < cap
      → (head : Text) × (rest : Text) × (head ++ rest ≡ new_log)
        × (cap_log cap marker log line ≡ (
            if ltb cap (length new_log)
            then if starts_with marker log then rest else marker ++ rest
            else new_log))
        × (length (cap_log cap marker log line)
            ≡ (if ltb cap (length new_log) then cap else length new_log))
  unfolding cap_log
  cap_log-keeps-end fits =
      let kept = if not (starts_with marker log) then marker else [] in
      let n = length new_log - (cap - length kept) in
      (
        take n new_log,
        drop n new_log,
        take-append-drop n new_log,
        ground arith,
        ground (
          arith,
          length-append kept (take_last (cap - length kept) new_log),
          length-append [] (take_last (cap - length kept) new_log),
          length-drop n new_log,
        ),
      )

-- A full log that begins with the marker loses as much of its head as the line brings in.
full_log_step :
    (cap : ℕ) (marker rest line : Text)
    → length (marker ++ rest) ≡ cap
    → cap_log cap marker (marker ++ rest) line
      ≡ drop (length line + 1) (marker ++ rest ++ line ++ 10 ∷ [])
unfolding cap_log
full_log_step cap marker rest line full =
    let log = marker ++ rest in
    let size : length (log ++ line ++ 10 ∷ []) ≡ cap + (length line + 1) =
      omega (arith, length-append (log ++ line) (10 ∷ []), length-append log line) in
    rw starts_with-append (
      rw size (
        ground (
          arith,
          ap (λ (n : ℕ). drop n (log ++ line ++ 10 ∷ []))
              (let e : cap + (length line + 1) - (cap - 0) ≡ length line + 1 = omega arith in e),
        )))

-- The marker is lost again: once a log that begins with the marker is full, a line at least as long
-- as the marker leaves a log that is all tail, with nothing of the marker before it.
pub cap_log_loses_marker :
    (cap : ℕ) (marker rest line : Text)
    → length (marker ++ rest) ≡ cap
    → length marker ≤ length line + 1
    → cap_log cap marker (marker ++ rest) line
      ≡ drop (length line + 1 - length marker) (rest ++ line ++ 10 ∷ [])
cap_log_loses_marker cap marker rest line full long =
    full_log_step cap marker rest line full
    ∙ (simp append_assoc (drop_append (length line + 1) marker (rest ++ (line ++ 10 ∷ [])) long))
