-- ===== src/Retention/Removal.antt =====
-- What one block of `cleanup_expired_data` of retention.py deletes by the identifiers it has read.
use multi_channel_ai_gateway.Base.{
  ℕ, ◌≤◌, String, Bool, true, false, not, ◌&&◌, List, [], ◌∷◌, ◌==◌, ◌≡◌, refl, ap, if◌then◌else◌,
  delete_where, select_where, count_where, length, arith, inl, inr, Bool-cases, ==-refl, eq_iff,
  ◌∙◌, sym, ◌+◌,
}
use multi_channel_ai_gateway.Retention.{among, ids_where, delete_ids}

module _ {A : Type 0} (id_of : A → String) where
  abbrev pub UniqueIds : List A → Type 0
  UniqueIds rows = (k : String) → count_where (λ a. id_of a == k) rows ≤ 1

  among-absent :
      (p : A → Bool) (k : String) (xs : List A)
      → count_where (λ a. id_of a == k) xs ≡ 0
      → among (ids_where id_of p xs) k ≡ false
  unfolding count_where ids_where among
  among-absent p k [] h = refl
  among-absent p k (x ∷ xs) h =
      ground (arith, among-absent p k xs, eq_iff (id_of x) k, eq_iff k (id_of x))

  delete-absent :
      (k : String) (ids : List String) (xs : List A)
      → count_where (λ a. id_of a == k) xs ≡ 0
      → delete_where (λ a. among (k ∷ ids) (id_of a)) xs
        ≡ delete_where (λ a. among ids (id_of a)) xs
  unfolding count_where delete_where among
  delete-absent k ids [] h = refl
  delete-absent k ids (x ∷ xs) h = elim (Bool-cases (id_of x == k)) [
    | inl y ↦ absurd (ground (arith, y))
    | inr f ↦ ground (arith, f, delete-absent k ids xs)
  ]

  alone : (x : A) (xs : List A) → UniqueIds (x ∷ xs) → count_where (λ a. id_of a == id_of x) xs ≡ 0
  unfolding count_where
  alone x xs u = ground (arith, u (id_of x), ==-refl (id_of x))

  rest-UniqueIds : (x : A) (xs : List A) → UniqueIds (x ∷ xs) → UniqueIds xs
  unfolding count_where
  rest-UniqueIds x xs u = λ k. ground (arith, u k)

  ids_where-listed :
      (p : A → Bool) (x : A) (xs : List A)
      → p x ≡ true
      → ids_where id_of p (x ∷ xs) ≡ id_of x ∷ ids_where id_of p xs
  unfolding ids_where
  ids_where-listed p x xs y = rw y refl

  ids_where-skipped :
      (p : A → Bool) (x : A) (xs : List A)
      → p x ≡ false
      → ids_where id_of p (x ∷ xs) ≡ ids_where id_of p xs
  unfolding ids_where
  ids_where-skipped p x xs f = rw f refl

  abbrev without : List A → List String → List A
  without xs ids = delete_where (λ a. among ids (id_of a)) xs

  delete-ids_where :
      (p : A → Bool) (xs : List A)
      → UniqueIds xs
      → without xs (ids_where id_of p xs) ≡ select_where (λ a. not (p a)) xs
  unfolding delete_where select_where among
  delete-ids_where p [] u = refl
  delete-ids_where p (x ∷ xs) u = elim (Bool-cases (p x)) [
    | inl y ↦
        ap (without (x ∷ xs)) (ids_where-listed p x xs y)
        ∙ rw (y, ==-refl (id_of x))
            (delete-absent (id_of x) (ids_where id_of p xs) xs (alone x xs u)
              ∙ delete-ids_where p xs (rest-UniqueIds x xs u))
    | inr f ↦
        ap (without (x ∷ xs)) (ids_where-skipped p x xs f)
        ∙ rw (f, among-absent p (id_of x) xs (alone x xs u))
            (ap (◌∷◌ x) (delete-ids_where p xs (rest-UniqueIds x xs u)))
  ]

  length-ids_where : (p : A → Bool) (xs : List A) → length (ids_where id_of p xs) ≡ count_where p xs
  unfolding ids_where count_where
  length-ids_where p [] = refl
  length-ids_where p (x ∷ xs) = ground (arith, length-ids_where p xs)

  without-none : (xs : List A) → without xs [] ≡ xs
  unfolding delete_where among
  without-none [] = refl
  without-none (x ∷ xs) = ap (◌∷◌ x) (without-none xs)

  delete_ids-without : (ids : List String) (xs : List A) → delete_ids id_of ids xs ≡ without xs ids
  unfolding delete_ids
  delete_ids-without [] xs = sym (without-none xs)
  delete_ids-without (i ∷ ids) xs = refl

  select-all : (xs : List A) → select_where (λ a. true) xs ≡ xs
  unfolding select_where
  select-all [] = refl
  select-all (x ∷ xs) = ap (◌∷◌ x) (select-all xs)

  length-select-not :
      (p : A → Bool) (xs : List A)
      → length (select_where (λ a. not (p a)) xs) + count_where p xs ≡ length xs
  unfolding select_where count_where
  length-select-not p [] = omega arith
  length-select-not p (x ∷ xs) = ground (arith, length-select-not p xs)

  abbrev purged : Bool → (A → Bool) → List A → List A × ℕ
  purged on old rows =
      let ids = ids_where id_of old rows in
      if on then (delete_ids id_of ids rows, length ids) else (rows, 0)

  pub purged-stays :
      (on : Bool) (old : A → Bool) (rows : List A)
      → UniqueIds rows
      → (purged on old rows).0 ≡ select_where (λ a. not (on && old a)) rows
  purged-stays true old rows u =
      delete_ids-without (ids_where id_of old rows) rows ∙ delete-ids_where old rows u
  purged-stays false old rows u = sym (select-all rows)

  pub purged-count :
      (on : Bool) (old : A → Bool) (rows : List A)
      → UniqueIds rows
      → length (purged on old rows).0 + (purged on old rows).1 ≡ length rows
  purged-count true old rows u =
      rw (purged-stays true old rows u, length-ids_where old rows) (length-select-not old rows)
  purged-count false old rows u = omega arith
