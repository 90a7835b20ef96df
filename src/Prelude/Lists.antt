-- ===== src/Prelude/Lists.antt =====
-- Lists over the native numbers, the tables of SQL statements, and predicates on their rows.
use Prim.Native.Nat.{ℕ, suc, ◌+◌}
use mathlib.Core.Path.{◌≡◌, refl}
use mathlib.Core.Bool.{Bool, false, ◌||◌}
use mathlib.Core.List.{List, [], ◌∷◌, ◌++◌}
use mathlib.Core.Option.{Option, none, some}
use native.Mathlib.Omega.{arith}
use fineract_ai_backend.Prelude.Tests.{if◌then◌else◌}

module _ {ℓ} {A : Type ℓ} where
  abbrev pub length : List A → ℕ
  length [] = 0
  length (x ∷ xs) = suc (length xs)

  abbrev pub any : (A → Bool) → List A → Bool
  any test [] = false
  any test (x ∷ xs) = test x || any test xs

  -- The rows that a WHERE clause selects.
  abbrev pub where_rows : (A → Bool) → List A → List A
  where_rows test [] = []
  where_rows test (x ∷ xs) = if test x then x ∷ where_rows test xs else where_rows test xs

  -- `UPDATE … SET … WHERE test`.
  abbrev pub update_where : (A → Bool) → (A → A) → List A → List A
  update_where test set [] = []
  update_where test set (x ∷ xs) = (if test x then set x else x) ∷ update_where test set xs

  -- `rows_affected()` of such an update.
  abbrev pub count_where : (A → Bool) → List A → ℕ
  count_where test [] = 0
  count_where test (x ∷ xs) = let rest = count_where test xs in if test x then suc rest else rest

  -- `fetch_optional` of a SELECT with a WHERE clause.
  abbrev pub find_where : (A → Bool) → List A → Option A
  find_where test [] = none
  find_where test (x ∷ xs) = if test x then some x else find_where test xs

  pub length-append : (xs ys : List A) → length (xs ++ ys) ≡ length xs + length ys
  length-append [] ys = omega arith
  length-append (x ∷ xs) ys = omega (arith, length-append xs ys)

  pub count_where-append :
      (test : A → Bool) (xs : List A) (x : A)
      → count_where test (xs ++ x ∷ []) ≡ count_where test xs + (if test x then 1 else 0)
  count_where-append test [] x = ground arith
  count_where-append test (y ∷ xs) x = ground (arith, count_where-append test xs x)

  pub none-count_where :
      (test : A → Bool) (xs : List A) → any test xs ≡ false → count_where test xs ≡ 0
  none-count_where test [] h = refl
  none-count_where test (x ∷ xs) h = ground (arith, none-count_where test xs)

module _ {ℓ κ} {A : Type ℓ} (P : A → Type κ) where
  abbrev pub All : List A → Type κ
  All [] = Unit
  All (x ∷ xs) = P x × All xs

  pub All-append : (xs ys : List A) → All xs → All ys → All (xs ++ ys)
  All-append [] ys hx hy = hy
  All-append (x ∷ xs) ys hx hy = (hx.0, All-append xs ys hx.1 hy)
