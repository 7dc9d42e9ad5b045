-- ===== src/Base/Table.antt =====
-- A database table as the list of its rows, in the order in which a query reads them.
-- `find` is `db.scalar(select(...).where(p))`, and `update_where`, `delete_where` and `count_where`
-- are the statements of those names.
use Prim.Native.Nat.{ℕ, suc, ◌+◌, ◌≤◌}
use mathlib.Core.Path.{◌≡◌, refl, ap}
use mathlib.Core.Logic.{◌⊎◌, inl, inr}
use mathlib.Core.Bool.{Bool, true, false}
use mathlib.Core.Option.{Option, none, some}
use mathlib.Core.List.{List, [], ◌∷◌, ◌++◌}
use native.Mathlib.Omega.{arith}
use package.multi_channel_ai_gateway.Base.Tests.{if◌then◌else◌, Bool-cases}
use package.multi_channel_ai_gateway.Base.Lists.{All, length}

module _ {ℓ} {A : Type ℓ} where
  unfoldable pub find : (A → Bool) → List A → Option A
  find p [] = none
  find p (x ∷ xs) = let rest = find p xs in if p x then some x else rest

  unfoldable pub select_where : (A → Bool) → List A → List A
  select_where p [] = []
  select_where p (x ∷ xs) = let rest = select_where p xs in if p x then x ∷ rest else rest

  unfoldable pub delete_where : (A → Bool) → List A → List A
  delete_where p [] = []
  delete_where p (x ∷ xs) = let rest = delete_where p xs in if p x then rest else x ∷ rest

  unfoldable pub update_where : (A → Bool) → (A → A) → List A → List A
  update_where p f [] = []
  update_where p f (x ∷ xs) = (if p x then f x else x) ∷ update_where p f xs

  unfoldable pub count_where : (A → Bool) → List A → ℕ
  count_where p [] = 0
  count_where p (x ∷ xs) = let rest = count_where p xs in if p x then suc rest else rest

  -- Inserting goes to the end: rows are read in the order of their creation.
  abbrev pub insert_row : A → List A → List A
  insert_row a xs = xs ++ a ∷ []

  pub find_sound : (p : A → Bool) (xs : List A) {a : A} → find p xs ≡ some a → p a ≡ true
  unfolding find
  find_sound p [] h = elim (none-some h) [ ]
    where
      none-some : {a : A} → none ≡ some a → ⊥
      none-some e = cc
  find_sound p (x ∷ xs) h = elim (Bool-cases (p x)) [
    | inl t ↦ ground (arith, t)
    | inr f ↦ find_sound p xs (ground (arith, f))
  ]

  pub find-append_none :
      (p : A → Bool) (xs ys : List A) → find p xs ≡ none → find p (xs ++ ys) ≡ find p ys
  unfolding find
  find-append_none p [] ys h = refl
  find-append_none p (x ∷ xs) ys h = ground (arith, find-append_none p xs ys)

  pub find-append_some :
      (p : A → Bool) (xs ys : List A) {a : A} → find p xs ≡ some a → find p (xs ++ ys) ≡ some a
  unfolding find
  find-append_some p [] ys h = cc
  find-append_some p (x ∷ xs) ys {a} h = ground (arith, find-append_some p xs ys {a = a})

  -- After a delete no row meets the condition, and every row that is left was there.
  pub count-delete_self : (p : A → Bool) (xs : List A) → count_where p (delete_where p xs) ≡ 0
  unfolding count_where delete_where
  count-delete_self p [] = refl
  count-delete_self p (x ∷ xs) = ground (arith, count-delete_self p xs)

  pub find-delete_self : (p : A → Bool) (xs : List A) → find p (delete_where p xs) ≡ none
  unfolding find delete_where
  find-delete_self p [] = refl
  find-delete_self p (x ∷ xs) = ground (arith, find-delete_self p xs)

  -- A delete of other rows changes no count and no search.
  pub count-delete_disjoint :
      (p q : A → Bool) (xs : List A)
      → ((a : A) → p a ≡ true → q a ≡ false)
      → count_where q (delete_where p xs) ≡ count_where q xs
  unfolding count_where delete_where
  count-delete_disjoint p q [] d = refl
  count-delete_disjoint p q (x ∷ xs) d = ground (arith, d x, count-delete_disjoint p q xs d)

  pub find-delete_disjoint :
      (p q : A → Bool) (xs : List A)
      → ((a : A) → p a ≡ true → q a ≡ false)
      → find q (delete_where p xs) ≡ find q xs
  unfolding find delete_where
  find-delete_disjoint p q [] d = refl
  find-delete_disjoint p q (x ∷ xs) d = ground (arith, d x, find-delete_disjoint p q xs d)

  pub count-delete-le :
      (p q : A → Bool) (xs : List A) → count_where q (delete_where p xs) ≤ count_where q xs
  unfolding count_where delete_where
  count-delete-le p q [] = omega arith
  count-delete-le p q (x ∷ xs) = ground (arith, count-delete-le p q xs)

  -- An update that keeps a condition changes no count of it.
  pub count-update_same :
      (p q : A → Bool) (f : A → A) (xs : List A)
      → ((a : A) → p a ≡ true → q (f a) ≡ q a)
      → count_where q (update_where p f xs) ≡ count_where q xs
  unfolding count_where update_where
  count-update_same p q f [] d = refl
  count-update_same p q f (x ∷ xs) d = ground (arith, d x, count-update_same p q f xs d)

  pub length-update :
      (p : A → Bool) (f : A → A) (xs : List A) → length (update_where p f xs) ≡ length xs
  unfolding update_where
  length-update p f [] = refl
  length-update p f (x ∷ xs) = ap suc (length-update p f xs)

  -- A search by a condition that the update keeps finds the updated row.
  pub find-update :
      (p q : A → Bool) (f : A → A) (xs : List A)
      → ((a : A) → p a ≡ true → q (f a) ≡ q a)
      → find q (update_where p f xs)
        ≡ elim (find q xs) [ none ↦ none | some a ↦ some (if p a then f a else a) ]
  unfolding find update_where
  find-update p q f [] d = refl
  find-update p q f (x ∷ xs) d = ground (arith, d x, find-update p q f xs d)

  pub count-append :
      (p : A → Bool) (xs ys : List A)
      → count_where p (xs ++ ys) ≡ count_where p xs + count_where p ys
  unfolding count_where
  count-append p [] ys = omega arith
  count-append p (x ∷ xs) ys = ground (arith, count-append p xs ys)

  pub find-none_of_count : (p : A → Bool) (xs : List A) → count_where p xs ≡ 0 → find p xs ≡ none
  unfolding find count_where
  find-none_of_count p [] h = refl
  find-none_of_count p (x ∷ xs) h = ground (arith, find-none_of_count p xs)

  pub count_of_find-none : (p : A → Bool) (xs : List A) → find p xs ≡ none → count_where p xs ≡ 0
  unfolding find count_where
  count_of_find-none p [] h = refl
  count_of_find-none p (x ∷ xs) h = ground (arith, count_of_find-none p xs)

module _ {ℓ κ} {A : Type ℓ} (P : A → Type κ) where
  pub All-update :
      (p : A → Bool) (f : A → A) (xs : List A)
      → ((a : A) → p a ≡ true → P a → P (f a))
      → All P xs
      → All P (update_where p f xs)
  unfolding update_where
  All-update p f [] k h = tt
  All-update p f (x ∷ xs) k (hx, h) = (one (Bool-cases (p x)), All-update p f xs k h)
    where
      one : ((p x ≡ true) ⊎ (p x ≡ false)) → P (if p x then f x else x)
      one (inl t) = rw t (k x t hx)
      one (inr t) = rw t hx

  pub All-delete : (p : A → Bool) (xs : List A) → All P xs → All P (delete_where p xs)
  unfolding delete_where
  All-delete p [] h = tt
  All-delete p (x ∷ xs) (hx, h) = elim (Bool-cases (p x)) [
    | inl t ↦ rw t (All-delete p xs h)
    | inr t ↦ rw t (hx, All-delete p xs h)
  ]

  pub find-All : (p : A → Bool) (xs : List A) {a : A} → All P xs → find p xs ≡ some a → P a
  unfolding find
  find-All p [] h e = absurd (cc e)
  find-All p (x ∷ xs) {a} (hx, h) e = elim (Bool-cases (p x)) [
    | inl t ↦ let same : x ≡ a = ground (arith, t) in rw (← same) hx
    | inr t ↦ find-All p xs h (ground (arith, t))
  ]

-- Writing one row back, where `key` matches one row at most.
module _ {ℓ} {A : Type ℓ} (key : A → Bool) where
  pub update_of_count-zero :
      (f : A → A) (xs : List A) → count_where key xs ≡ 0 → update_where key f xs ≡ xs
  unfolding count_where update_where
  update_of_count-zero f [] h = refl
  update_of_count-zero f (x ∷ xs) h = ground (arith, update_of_count-zero f xs)

  pub count-pos_of_find :
      (p : A → Bool) (xs : List A) {a : A}
      → find p xs ≡ some a
      → key a ≡ true
      → 1 ≤ count_where key xs
  unfolding find count_where
  count-pos_of_find p [] h k = cc
  count-pos_of_find p (x ∷ xs) {a} h k = elim (Bool-cases (p x)) [
    | inl t ↦ let same : x ≡ a = ground (arith, t) in rw (same, k) (omega arith)
    | inr t ↦ let ih = count-pos_of_find p xs {a = a} (ground (arith, t)) k in ground (arith, ih)
  ]

  pub count-save :
      (p q : A → Bool) (b : A) (xs : List A) {a : A}
      → find p xs ≡ some a
      → key a ≡ true
      → count_where key xs ≤ 1
      → q b ≡ q a
      → count_where q (update_where key (λ _. b) xs) ≡ count_where q xs
  unfolding find count_where update_where
  count-save p q b [] h k c e = cc
  count-save p q b (x ∷ xs) {a} h k c e = elim (Bool-cases (p x)) [
    | inl t ↦
        let same : x ≡ a = ground (arith, t) in
        let kx : key x ≡ true = rw same k in
        let none_left : count_where key xs ≡ 0 = ground (arith, kx) in
        rw (kx, update_of_count-zero (λ _. b) xs none_left, e, same)
    | inr t ↦
        let found : find p xs ≡ some a = ground (arith, t) in
        let later = count-pos_of_find p xs found k in
        let kx : key x ≡ false = ground (arith, later) in
        ground (arith, kx, count-save p q b xs found k)
  ]
