-- ===== src/Base/Unique.antt =====
-- Queries by a unique column: what they find is decided by the one row that has the key.
use Prim.Native.Nat.{◌≤◌}
use mathlib.Core.Path.{◌≡◌, refl}
use mathlib.Core.Bool.{Bool, true, ◌&&◌}
use mathlib.Core.Logic.{inl, inr}
use mathlib.Core.Option.{none, some}
use mathlib.Core.List.{List, [], ◌∷◌}
use native.Mathlib.Omega.{arith}
use package.multi_channel_ai_gateway.Base.Tests.{if◌then◌else◌, Bool-cases}
use package.multi_channel_ai_gateway.Base.Table.{find, count_where, update_where}

module _ {ℓ} {A : Type ℓ} (key : A → Bool) where
  pub count-and_of_count-zero :
      (r : A → Bool) (xs : List A) → count_where key xs ≡ 0 → count_where (λ a. key a && r a) xs ≡ 0
  unfolding count_where
  count-and_of_count-zero r [] h = refl
  count-and_of_count-zero r (x ∷ xs) h = ground (arith, count-and_of_count-zero r xs)

  pub count_of_unique :
      (r : A → Bool) (xs : List A) {t : A}
      → find key xs ≡ some t
      → count_where key xs ≤ 1
      → count_where (λ a. key a && r a) xs ≡ (if r t then 1 else 0)
  unfolding find count_where
  count_of_unique r [] h c = cc
  count_of_unique r (x ∷ xs) {t} h c = elim (Bool-cases (key x)) [
    | inl k ↦
        let same : x ≡ t = ground (arith, k) in
        let none_left : count_where key xs ≡ 0 = ground (arith, k) in
        rw (k, count-and_of_count-zero r xs none_left, same) (ground arith)
    | inr k ↦ ground (arith, k, count_of_unique r xs {t = t})
  ]

  pub find-and_of_count-zero :
      (r : A → Bool) (xs : List A) → count_where key xs ≡ 0 → find (λ a. key a && r a) xs ≡ none
  unfolding find count_where
  find-and_of_count-zero r [] e = refl
  find-and_of_count-zero r (y ∷ ys) e = ground (arith, find-and_of_count-zero r ys)

  pub find_of_unique :
      (r : A → Bool) (xs : List A) {t : A}
      → find key xs ≡ some t
      → count_where key xs ≤ 1
      → find (λ a. key a && r a) xs ≡ (if r t then some t else none)
  unfolding find count_where
  find_of_unique r [] h c = cc
  find_of_unique r (x ∷ xs) {t} h c = elim (Bool-cases (key x)) [
    | inl k ↦
        let same : x ≡ t = ground (arith, k) in
        let none_left : count_where key xs ≡ 0 = ground (arith, k) in
        rw (k, find-and_of_count-zero r xs none_left, same) (ground arith)
    | inr k ↦ ground (arith, k, find_of_unique r xs {t = t})
  ]

  -- The row with the key after an update of rows that have the key and meet `r`.
  pub find-update_unique :
      (r : A → Bool) (f : A → A) (xs : List A) {t : A}
      → ((a : A) → key a ≡ true → key (f a) ≡ true)
      → find key xs ≡ some t
      → find key (update_where (λ a. key a && r a) f xs) ≡ some (if r t then f t else t)
  unfolding find update_where
  find-update_unique r f [] keep h = cc
  find-update_unique r f (x ∷ xs) {t} keep h = elim (Bool-cases (key x)) [
    | inl k ↦ ground (arith, k, keep x)
    | inr k ↦ ground (arith, k, find-update_unique r f xs {t = t} keep)
  ]
