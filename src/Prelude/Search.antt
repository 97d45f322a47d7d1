-- ===== src/Prelude/Search.antt =====
-- Boolean queries over lists (`any`, `all`, `filter`, `next(...)`) and the predicates that they
-- decide.
use Prim.Native.Nat.{ℕ, ◌+◌, ◌≤◌}
use mathlib.Core.Path.{◌≡◌, refl}
use mathlib.Core.Logic.{◌⊎◌, ◌≢◌, inl, inr}
use mathlib.Core.Bool.{Bool, true, false, ◌&&◌, ◌||◌, not}
use mathlib.Core.List.{List, [], ◌∷◌, ◌++◌}
use mathlib.Core.Option
use mathlib.Core.Option.{Option, none, some}
use native.Mathlib.Omega.{arith}
use stage.Prelude.Tests.{if◌then◌else◌, ◌==◌, Bool-cases}
use stage.Prelude.Lists.{length}

module _ {A : Type 0} where
  -- Membership, with the place kept.
  abbrev pub Elem : A → List A → Type 0
  Elem a [] = ⊥
  Elem a (x ∷ xs) = (a ≡ x) ⊎ Elem a xs

module _ {ℓ} {A : Type ℓ} where
  abbrev pub All {κ} : (A → Type κ) → List A → Type κ
  All P [] = Unit
  All P (x ∷ xs) = P x × All P xs

  unfoldable pub any : (A → Bool) → List A → Bool
  any p [] = false
  any p (x ∷ xs) = p x || any p xs

  unfoldable pub all : (A → Bool) → List A → Bool
  all p [] = true
  all p (x ∷ xs) = p x && all p xs

  -- The rows for which a test holds, in order.
  unfoldable pub select : (A → Bool) → List A → List A
  select p [] = []
  select p (x ∷ xs) = let rest = select p xs in if p x then x ∷ rest else rest

  -- The first row for which a test holds.
  unfoldable pub find : (A → Bool) → List A → Option A
  find p [] = none
  find p (x ∷ xs) = if p x then some x else find p xs

  -- Rewrites each row for which a test holds.
  unfoldable pub update_where : (A → Bool) → (A → A) → List A → List A
  update_where p f [] = []
  update_where p f (x ∷ xs) = (if p x then f x else x) ∷ update_where p f xs

  pub find-none : (p : A → Bool) (xs : List A) → find p xs ≡ none → All (λ a. p a ≡ false) xs
  unfolding find
  find-none p [] h = tt
  find-none p (x ∷ xs) h = ground (arith, find-none p xs)

  pub All-map {κ μ} :
      {P : A → Type κ} {Q : A → Type μ} (xs : List A) → ((a : A) → P a → Q a) → All P xs → All Q xs
  All-map [] f h = tt
  All-map (x ∷ xs) f h = (f x h.0, All-map xs f h.1)

  pub length-select : (p : A → Bool) (xs : List A) → length (select p xs) ≤ length xs
  unfolding select
  length-select p [] = omega arith
  length-select p (x ∷ xs) = ground (arith, length-select p xs)

  -- A test that implies another sees the same rows behind it.
  pub select-select :
      (q p : A → Bool) (xs : List A)
      → ((a : A) → q a ≡ true → p a ≡ true)
      → select q (select p xs) ≡ select q xs
  unfolding select
  select-select q p [] h = refl
  select-select q p (x ∷ xs) h = ground (arith, h x, select-select q p xs h)

  pub select_both :
      (q p : A → Bool) (xs : List A) → select (λ a. q a && p a) xs ≡ select q (select p xs)
  unfolding select
  select_both q p [] = refl
  select_both q p (x ∷ xs) = ground (arith, select_both q p xs)

  pub select_of_none : (p : A → Bool) (xs : List A) → find p xs ≡ none → select p xs ≡ []
  unfolding select find
  select_of_none p [] h = refl
  select_of_none p (x ∷ xs) h = ground (arith, select_of_none p xs)

  -- The rows that one test drops and the rows that it keeps make up the whole.
  pub length-select_split :
      (q p : A → Bool) (xs : List A)
      → length (select q (select (λ a. not (p a)) xs)) + length (select q (select p xs))
        ≡ length (select q xs)
  unfolding select
  length-select_split q p [] = refl
  length-select_split q p (x ∷ xs) = ground (arith, length-select_split q p xs)

  pub length-select-update_where :
      (q p : A → Bool) (f : A → A) (xs : List A)
      → length (select q (update_where p f xs))
        ≡ length (select q (select (λ a. not (p a)) xs))
          + length (select (λ a. q (f a)) (select p xs))
  unfolding select update_where
  length-select-update_where q p f [] = refl
  length-select-update_where q p f (x ∷ xs) = ground (arith, length-select-update_where q p f xs)

  pub select-snoc :
      (p : A → Bool) (xs : List A) (a : A)
      → select p (xs ++ a ∷ []) ≡ select p xs ++ select p (a ∷ [])
  unfolding select
  select-snoc p [] a = refl
  select-snoc p (x ∷ xs) a = ground (arith, select-snoc p xs a)

  pub find-snoc :
      (q : A → Bool) (xs : List A) (a : A)
      → find q (xs ++ a ∷ [])
        ≡ (elim (find q xs) [ some x ↦ some x | none ↦ if q a then some a else none ])
  unfolding find
  find-snoc q [] a = refl
  find-snoc q (x ∷ xs) a = ground (arith, find-snoc q xs a)

  pub find-select :
      (q p : A → Bool) (xs : List A)
      → ((a : A) → q a ≡ true → p a ≡ true)
      → find q (select p xs) ≡ find q xs
  unfolding select find
  find-select q p [] h = refl
  find-select q p (x ∷ xs) h = ground (arith, h x, find-select q p xs h)

  pub select_cong :
      (q p : A → Bool) (xs : List A) → ((a : A) → q a ≡ p a) → select q xs ≡ select p xs
  unfolding select
  select_cong q p [] h = refl
  select_cong q p (x ∷ xs) h = ground (arith, h x, select_cong q p xs h)

module _ {A : Type 0} where
  pub find-some :
      (p : A → Bool) (xs : List A) (a : A) → find p xs ≡ some a → (p a ≡ true) × Elem a xs
  unfolding find
  find-some p [] a h = ground arith
  find-some p (x ∷ xs) a h = ground (arith, find-some p xs a)

  pub All-Elem {κ} : (P : A → Type κ) {a : A} (xs : List A) → All P xs → Elem a xs → P a
  All-Elem P [] h m = absurd m
  All-Elem P (x ∷ xs) h (inl e) = rw e h.0
  All-Elem P (x ∷ xs) h (inr m) = All-Elem P xs h.1 m

  pub Elem-select :
      (p : A → Bool) (xs : List A) (a : A) → Elem a (select p xs) → (p a ≡ true) × Elem a xs
  unfolding select
  Elem-select p [] a m = absurd m
  Elem-select p (x ∷ xs) a m = ground (arith, Elem-select p xs a)

  pub Elem-select_of :
      (p : A → Bool) (xs : List A) (a : A) → Elem a xs → p a ≡ true → Elem a (select p xs)
  unfolding select
  Elem-select_of p [] a m h = absurd m
  Elem-select_of p (x ∷ xs) a m h = ground (arith, Elem-select_of p xs a)

-- A table with a primary key.
abbrev pub keep {ℓ} : {A : Type ℓ} → (A → Bool) → Option A → Option A
keep p none = none
keep p (some a) = if p a then some a else none

module _ {ℓ} {A : Type ℓ} (key : A → ℕ) where
  abbrev pub by_key : List A → ℕ → Option A
  by_key xs i = find (λ x. key x == i) xs

  abbrev pub IsKeyed : List A → Type ℓ
  IsKeyed [] = Unit
  IsKeyed (x ∷ xs) = (by_key xs (key x) ≡ none) × IsKeyed xs

module _ {ℓ} {A : Type ℓ} (key : A → ℕ) (p : A → Bool) (i : ℕ) where
  by_key-select-none : (xs : List A) → by_key key xs i ≡ none → by_key key (select p xs) i ≡ none
  unfolding find select
  by_key-select-none [] h = refl
  by_key-select-none (x ∷ xs) h = ground (arith, by_key-select-none xs)

  pub by_key-select :
      (xs : List A) → IsKeyed key xs → by_key key (select p xs) i ≡ keep p (by_key key xs i)
  unfolding find select
  by_key-select [] h = refl
  by_key-select (x ∷ xs) h = elim (Bool-cases (key x == i)) [
    | inl here ↦ ground (arith, by_key-select-none xs)
    | inr other ↦ ground (arith, by_key-select xs h.1)
  ]

-- A rewrite that a test does not notice.
abbrev pub rewritten {ℓ} : {A : Type ℓ} → (A → Bool) → (A → A) → Option A → Option A
rewritten p f none = none
rewritten p f (some a) = some (if p a then f a else a)

module _ {ℓ} {A : Type ℓ} (q p : A → Bool) (f : A → A) (same : (a : A) → q (f a) ≡ q a) where
  pub find-update_where : (xs : List A) → find q (update_where p f xs) ≡ rewritten p f (find q xs)
  unfolding find update_where
  find-update_where [] = refl
  find-update_where (x ∷ xs) = ground (arith, same x, find-update_where xs)

module _ {A : Type 0} (key : A → ℕ) where
  by_key_fresh : (xs : List A) (a : A) (i : ℕ) → by_key key xs i ≡ none → Elem a xs → key a ≢ i
  unfolding find
  by_key_fresh [] a i h m e = absurd m
  by_key_fresh (x ∷ xs) a i h m e = ground (arith, by_key_fresh xs a i)

  -- The row that a key finds is the only one with that key.
  pub by_key-Elem :
      (xs : List A) (a : A) → IsKeyed key xs → Elem a xs → by_key key xs (key a) ≡ some a
  unfolding find
  by_key-Elem [] a h m = absurd m
  by_key-Elem (x ∷ xs) a h (inl e) = ground (arith)
  by_key-Elem (x ∷ xs) a h (inr m) =
      ground (arith, by_key-Elem xs a h.1 m, by_key_fresh xs a (key x) h.0 m)

module _ {ℓ} {A : Type ℓ} (key : A → ℕ) (i : ℕ) where
  pub by_key-key : (xs : List A) (a : A) → by_key key xs i ≡ some a → key a ≡ i
  unfolding find
  by_key-key [] a h = absurd (ground arith)
  by_key-key (x ∷ xs) a h = ground (arith, by_key-key xs a)

-- A rewrite of the row with a key, which keeps the key.
module _ {ℓ} {A : Type ℓ} (key : A → ℕ) (i : ℕ) (f : A → A)
    (same : (a : A) → key a ≡ i → key (f a) ≡ i) where
  pub by_key-update :
      (xs : List A) (a : A)
      → by_key key xs i ≡ some a
      → by_key key (update_where (λ x. key x == i) f xs) i ≡ some (f a)
  unfolding find update_where
  by_key-update [] a h = absurd (ground arith)
  by_key-update (x ∷ xs) a h = ground (arith, same x, by_key-update xs a)

module _ {ℓ} {A : Type ℓ} (key : A → ℕ) (i : ℕ) (f : A → A)
    (same : (a : A) → key (f a) ≡ key a) where
  pub by_key-update_map :
      (xs : List A)
      → by_key key (update_where (λ x. key x == i) f xs) i ≡ Option.map f (by_key key xs i)
  unfolding find update_where
  by_key-update_map [] = refl
  by_key-update_map (x ∷ xs) = ground (arith, same x, by_key-update_map xs)

module _ {ℓ} {A : Type ℓ} (key : A → ℕ) (p : A → Bool) where
  pub select-IsKeyed : (xs : List A) → IsKeyed key xs → IsKeyed key (select p xs)
  unfolding select
  select-IsKeyed [] h = tt
  select-IsKeyed (x ∷ xs) h = ground (arith, by_key-select-none key p (key x) xs, select-IsKeyed xs)

module _ {ℓ} {A : Type ℓ} (key : A → ℕ) (p : A → Bool) (f : A → A)
    (same : (a : A) → key (f a) ≡ key a) where
  by_key-update_where-none :
      (xs : List A) (i : ℕ) → by_key key xs i ≡ none → by_key key (update_where p f xs) i ≡ none
  unfolding find update_where
  by_key-update_where-none [] i h = refl
  by_key-update_where-none (x ∷ xs) i h = ground (arith, same x, by_key-update_where-none xs i)

  pub update_where-IsKeyed : (xs : List A) → IsKeyed key xs → IsKeyed key (update_where p f xs)
  unfolding update_where
  update_where-IsKeyed [] h = tt
  update_where-IsKeyed (x ∷ xs) h =
      ground (arith, same x, by_key-update_where-none xs (key x), update_where-IsKeyed xs)
