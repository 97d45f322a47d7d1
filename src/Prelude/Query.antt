-- ===== src/Prelude/Query.antt =====
-- What a `select(...)` statement asks of a table's rows: `order_by(column.desc())`, and one page of
-- the rows (`paginate` of repositories/base.py).
use Prim.Native.Nat.{ℕ, ◌-◌, ◌*◌}
use mathlib.Core.Path.{◌≡◌, refl}
use mathlib.Core.List.{List, [], ◌∷◌}
use mathlib.Core.Option.{Option, none, some}
use native.Mathlib.Omega.{arith}
use stage.Prelude.Tests.{leb, if◌then◌else◌}
use stage.Prelude.Lists.{length, take, drop}
use stage.Prelude.Search.{Elem}
use mathlib.Core.Logic.{◌⊎◌, ◌≢◌}

module _ {ℓ} {A : Type ℓ} where
  unfoldable pub insert_desc : (A → ℕ) → A → List A → List A
  insert_desc key a [] = a ∷ []
  insert_desc key a (x ∷ xs) = if leb (key x) (key a) then a ∷ x ∷ xs else x ∷ insert_desc key a xs

  -- Rows in falling order of a column; rows that tie stay in the table's order.
  unfoldable pub order_desc : (A → ℕ) → List A → List A
  unfolding insert_desc
  order_desc key [] = []
  order_desc key (x ∷ xs) = insert_desc key x (order_desc key xs)

  -- LIMIT and OFFSET, with the number of all rows. Pages count from 1.
  unfoldable pub paginate : List A → ℕ → ℕ → List A × ℕ
  paginate rows page page_size = (take page_size (drop ((page - 1) * page_size) rows), length rows)

  -- The last element, `xs[-1]`.
  unfoldable pub last : List A → Option A
  last [] = none
  last (x ∷ []) = some x
  last (x ∷ y ∷ ys) = last (y ∷ ys)

  insert_desc-ne-nil : (key : A → ℕ) (a : A) (xs : List A) → insert_desc key a xs ≢ []
  unfolding insert_desc
  insert_desc-ne-nil key a [] e = ground arith
  insert_desc-ne-nil key a (x ∷ xs) e = ground arith

  pub order_desc-ne-nil : (key : A → ℕ) (xs : List A) → xs ≢ [] → order_desc key xs ≢ []
  unfolding order_desc
  order_desc-ne-nil key [] h e = h refl
  order_desc-ne-nil key (x ∷ xs) h e = insert_desc-ne-nil key x (order_desc key xs) e

module _ {A : Type 0} (key : A → ℕ) where
  Elem-insert_desc : (a b : A) (xs : List A) → Elem b (insert_desc key a xs) → (b ≡ a) ⊎ Elem b xs
  unfolding insert_desc
  Elem-insert_desc a b [] m = m
  Elem-insert_desc a b (x ∷ xs) m = ground (arith, Elem-insert_desc a b xs)

  pub Elem-order_desc : (a : A) (xs : List A) → Elem a (order_desc key xs) → Elem a xs
  unfolding order_desc
  Elem-order_desc a [] m = m
  Elem-order_desc a (x ∷ xs) m =
      ground (arith, Elem-insert_desc x a (order_desc key xs), Elem-order_desc a xs)
