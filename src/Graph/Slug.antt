-- ===== src/Graph/Slug.antt =====
-- `_slugify` of core/pipeline_graph.py: node ids that no earlier node of the graph has.
use stage.Prelude.{
  ℕ, zero, suc, ◌+◌, ◌≤◌, ◌<◌, List, [], ◌∷◌, ◌++◌, Bool, true, false, not, ◌||◌, ◌==◌, select,
  if◌then◌else◌, ◌≡◌, arith, inl, inr, Bool-cases, ◌≢◌, Text, length, length-append, length-select,
  ap,
}
use stage.Prelude.{
  is_space, is_lower, is_digit, is_upper, lower, strip, sub_runs, or_text, dash, codes, text_eq,
  text_eq_iff, str, str_injective,
}

-- The complement of `_ID_OK`: letters, digits, and `.` `_` `:` `@` `-`.
unfoldable pub id_char : ℕ → Bool
unfolding is_lower is_digit is_upper
id_char c =
    is_lower c || is_upper c || is_digit c || c == 46 || c == 95 || c == 58 || c == 64 || c == 45

unfoldable pub slug_base : Text → Text
unfolding id_char strip is_space lower sub_runs
slug_base name =
    or_text (strip dash (sub_runs id_char (lower (strip is_space name)))) (codes "step")

-- f"{base}-{i}"
unfoldable pub numbered : Text → ℕ → Text
unfolding str
numbered base i = base ++ (45 ∷ str i)

unfoldable pub is_taken : Text → List Text → Bool
unfolding text_eq
is_taken slug [] = false
is_taken slug (t ∷ ts) = text_eq t slug || is_taken slug ts

-- `while slug in taken`, for a number of rounds.
unfoldable pub next_free : ℕ → Text → ℕ → List Text → Text → Text
unfolding is_taken numbered
next_free zero base i taken slug = slug
next_free (suc rounds) base i taken slug =
    let later = next_free rounds base (i + 1) taken (numbered base i) in
    if is_taken slug taken then later else slug

-- The slug; `taken` then holds it too. There are as many rounds as ids taken.
unfoldable pub slugify : Text → List Text → Text
unfolding slug_base next_free
slugify name taken = next_free (length taken) (slug_base name) 2 taken (slug_base name)

append_cancel : (base s t : Text) → base ++ s ≡ base ++ t → s ≡ t
append_cancel [] s t e = e
append_cancel (c ∷ base) s t e = append_cancel base s t (cc)

numbered_injective : (base : Text) (i j : ℕ) → numbered base i ≡ numbered base j → i ≡ j
unfolding numbered
numbered_injective base i j e =
    let tails = append_cancel base (45 ∷ str i) (45 ∷ str j) e in str_injective i j (cc)

numbered-ne-base : (base : Text) (i : ℕ) → numbered base i ≢ base
unfolding numbered
numbered-ne-base base i e = omega (arith, length-append base (45 ∷ str i), ap length e)

remove : Text → List Text → List Text
remove slug = select (λ t. not (text_eq t slug))

length-remove :
    (slug : Text) (ts : List Text) → is_taken slug ts ≡ true → length (remove slug ts) < length ts
unfolding is_taken remove select
length-remove slug [] h = ground arith
length-remove slug (t ∷ ts) h =
    ground (arith, length-remove slug ts, length-select (λ t. not (text_eq t slug)) ts)

is_taken-remove :
    (slug other : Text) (ts : List Text)
    → other ≢ slug
    → is_taken other ts ≡ true
    → is_taken other (remove slug ts) ≡ true
unfolding is_taken remove select
is_taken-remove slug other [] ne h = ground arith
is_taken-remove slug other (t ∷ ts) ne h =
    ground (arith, is_taken-remove slug other ts ne, text_eq_iff t slug, text_eq_iff t other)

module _ (base : Text) (taken : List Text) where
  -- `left` holds whatever of `taken` the loop may still try, and shrinks with each round.
  next_free_lem :
      (rounds i : ℕ) (slug : Text) (left : List Text)
      → length left ≤ rounds
      → (is_taken slug taken ≡ true → is_taken slug left ≡ true)
      → ((j : ℕ)
          → i ≤ j
          → is_taken (numbered base j) taken ≡ true
          → is_taken (numbered base j) left ≡ true)
      → ((j : ℕ) → i ≤ j → numbered base j ≢ slug)
      → is_taken (next_free rounds base i taken slug) taken ≡ false
  unfolding next_free
  next_free_lem zero i slug [] few now later apart = elim (Bool-cases (is_taken slug taken)) [
    | inl used ↦ unfold is_taken in cc (now used)
    | inr unused ↦ unused
  ]
  next_free_lem zero i slug (t ∷ left) few now later apart = absurd (omega arith)
  next_free_lem (suc rounds) i slug left few now later apart =
      elim (Bool-cases (is_taken slug taken)) [
        | inl used ↦ rw used (
            next_free_lem rounds (i + 1) (numbered base i) (remove slug left)
              (omega (arith, length-remove slug left (now used)))
              (λ h.
                is_taken-remove slug (numbered base i) left (apart i (omega arith))
                  (later i (omega arith) h))
              (λ j above h.
                is_taken-remove slug (numbered base j) left (apart j (omega arith))
                  (later j (omega arith) h))
              (λ j above e. omega (arith, numbered_injective base j i e)))
        | inr unused ↦ rw unused unused
      ]

-- The loop ends within its rounds: the id that it gives is one that no earlier node has.
pub slugify-is_free :
    (name : Text) (taken : List Text) → is_taken (slugify name taken) taken ≡ false
unfolding slugify
slugify-is_free name taken =
    next_free_lem (slug_base name) taken (length taken) 2 (slug_base name) taken (omega arith)
      (λ h. h) (λ j above h. h) (λ j above. numbered-ne-base (slug_base name) j)
