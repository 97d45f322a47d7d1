-- ===== src/Pool/Locks.antt =====
-- Locks and rows of the pool: what a release leaves, and what a commit keeps.
use stage.Prelude.{
  ℕ, List, [], ◌∷◌, none, some, Bool, true, false, not, ◌==◌, ◌≤◌, leb, select, update_where, ◌≡◌,
  arith, Elem, IsKeyed, update_where-IsKeyed, Option-cases, Bool-cases, sym, subst, inl, inr,
}
use stage.Pool.{PooledCluster, is_held, is_held_by, oldest, release_locks}

-- No cluster is locked twice.
abbrev pub AreApart : List (ℕ × ℕ) → Type 0
AreApart [] = Unit
AreApart ((i, p) ∷ held) = (is_held i held ≡ false) × AreApart held

pub oldest-Elem : (cs : List PooledCluster) (c : PooledCluster) → oldest cs ≡ some c → Elem c cs
unfolding oldest
oldest-Elem [] c e = ground arith
oldest-Elem (x ∷ cs) c e = elim (Option-cases (oldest cs)) [
  | inl absent ↦ inl (ground arith)
  | inr (d, found) ↦
      let rest = oldest-Elem cs d found in
      elim (Bool-cases (leb x.created_at d.created_at)) [
        | inl first ↦ inl (ground arith)
        | inr later ↦
            let same : c ≡ d = ground arith in inr (subst (λ z. Elem z cs) (sym same) rest)
      ]
]

pub is_held-release :
    (project id : ℕ) (held : List (ℕ × ℕ))
    → is_held id (release_locks project held) ≡ true
    → is_held id held ≡ true
unfolding is_held select
is_held-release project id [] h = h
is_held-release project id ((i, p) ∷ held) h = ground (arith, is_held-release project id held)

pub AreApart-release :
    (project : ℕ) (held : List (ℕ × ℕ)) → AreApart held → AreApart (release_locks project held)
unfolding is_held select
AreApart-release project [] h = tt
AreApart-release project ((i, p) ∷ held) h = elim (Bool-cases (not (p == project))) [
  | inl kept ↦
      rw kept (ground (arith, is_held-release project i held), AreApart-release project held h.1)
  | inr dropped ↦ rw dropped (AreApart-release project held h.1)
]

pub is_held_by-is_held :
    (project id : ℕ) (held : List (ℕ × ℕ))
    → is_held_by project id held ≡ true
    → is_held id held ≡ true
unfolding is_held is_held_by
is_held_by-is_held project id [] h = h
is_held_by-is_held project id ((i, p) ∷ held) h = ground (arith, is_held_by-is_held project id held)

-- The owner's release unlocks the row.
pub is_held_by-release :
    (project id : ℕ) (held : List (ℕ × ℕ))
    → AreApart held
    → is_held_by project id held ≡ true
    → is_held id (release_locks project held) ≡ false
unfolding is_held is_held_by select
is_held_by-release project id [] h e = ground arith
is_held_by-release project id ((i, p) ∷ held) h e = ground (
  arith,
  is_held_by-release project id held h.1,
  is_held_by-is_held project id held,
  is_held-release project id held,
)

pub some_injective : {a b : PooledCluster} → some a ≡ some b → a ≡ b
some_injective e = cc

pub IsKeyed-writes :
    (p : PooledCluster → Bool) (f : PooledCluster → PooledCluster) (clusters : List PooledCluster)
    → ((c : PooledCluster) → (f c).id ≡ c.id)
    → IsKeyed (λ (c : PooledCluster). c.id) clusters
    → IsKeyed (λ (c : PooledCluster). c.id) (update_where p f clusters)
IsKeyed-writes p f clusters same h =
    update_where-IsKeyed (λ (c : PooledCluster). c.id) p f same clusters h

pub oldest-none : (cs : List PooledCluster) (y : PooledCluster) → oldest cs ≡ none → Elem y cs → ⊥
unfolding oldest
oldest-none [] y e there = there
oldest-none (c ∷ cs) y e there = elim (Option-cases (oldest cs)) [
  | inl absent ↦ ground arith
  | inr (d, found) ↦ elim (Bool-cases (leb c.created_at d.created_at)) [
    | inl first ↦ ground arith
    | inr later ↦ ground arith
  ]
]

pub oldest-le :
    (cs : List PooledCluster) (c y : PooledCluster)
    → oldest cs ≡ some c
    → Elem y cs
    → c.created_at ≤ y.created_at
unfolding oldest
oldest-le [] c y e there = absurd there
oldest-le (x ∷ cs) c y e there = elim (Option-cases (oldest cs)) [
  | inl absent ↦
      let same : x ≡ c = some_injective (ground arith) in
      elim there [
        | inl here ↦
            subst (λ (z : PooledCluster). z.created_at ≤ y.created_at) same
              (subst (λ (z : PooledCluster). z.created_at ≤ y.created_at) here (omega arith))
        | inr rest ↦ absurd (oldest-none cs y absent rest)
      ]
  | inr (d, found) ↦ elim (Bool-cases (leb x.created_at d.created_at)) [
    | inl first ↦
        let same : x ≡ c = some_injective (ground arith) in
        subst (λ (z : PooledCluster). z.created_at ≤ y.created_at) same
          (elim there [
            | inl here ↦
                subst (λ (z : PooledCluster). z.created_at ≤ y.created_at) here (omega arith)
            | inr rest ↦ ground (arith, oldest-le cs d y found rest)
          ])
    | inr later ↦
        let same : d ≡ c = some_injective (ground arith) in
        subst (λ (z : PooledCluster). z.created_at ≤ y.created_at) same
          (elim there [
            | inl here ↦
                subst (λ (z : PooledCluster). d.created_at ≤ z.created_at) (sym here) (ground arith)
            | inr rest ↦ oldest-le cs d y found rest
          ])
  ]
]
