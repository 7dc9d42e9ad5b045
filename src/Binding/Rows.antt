-- ===== src/Binding/Rows.antt =====
-- Handing over rows whose key is unique for each user, as `_merge_into` does.
use multi_channel_ai_gateway.Base.{
  ◌+◌, ◌≤◌, String, Bool, true, false, ◌&&◌, List, [], ◌∷◌, ◌≡◌, refl, ◌∙◌, inl, inr, arith, ◌<◌,
  ◌⊎◌, ltb, ltb→lt, update_where, find, count_where, Bool-cases, Option-cases, count_of_find-none,
}
use multi_channel_ai_gateway.Binding.Merge.{clashes, handed_over}

module _ {ℓ} {A : Type ℓ} (owns : String → A → Bool) (same : A → A → Bool) (give : String → A → A)
    (source target : String) (apart : (r : A) → owns source (give target r) ≡ false) where
  -- Nothing is left to the source.
  pub handed_over-source :
      (all rows : List A)
      → count_where (owns source) (handed_over owns same give source target all rows) ≡ 0
  unfolding handed_over count_where
  handed_over-source all [] = refl
  handed_over-source all (r ∷ rs) = elim (Bool-cases (owns source r)) [
    | inr f ↦ rw (f) (rw f (handed_over-source all rs))
    | inl y ↦ elim (Bool-cases (clashes owns same give target all r)) [
      | inl c ↦ rw (y, c) (handed_over-source all rs)
      | inr n ↦ rw (y, n) (rw (apart r) (handed_over-source all rs))
    ]
  ]

module _ {ℓ} {A : Type ℓ} where
  find-agree : (p q : A → Bool) (xs : List A) → ((a : A) → p a ≡ q a) → find p xs ≡ find q xs
  unfolding find
  find-agree p q [] h = refl
  find-agree p q (x ∷ xs) h = rw (h x, find-agree p q xs h) refl

  -- Rows that are changed so that they no longer meet the condition.
  pub count-update_away :
      (p : A → Bool) (f : A → A) (xs : List A)
      → ((a : A) → p (f a) ≡ false)
      → count_where p (update_where p f xs) ≡ 0
  unfolding count_where update_where
  count-update_away p f [] h = refl
  count-update_away p f (x ∷ xs) h = elim (Bool-cases (p x)) [
    | inl y ↦ rw y (rw (h x) (count-update_away p f xs h))
    | inr n ↦ rw n (rw n (count-update_away p f xs h))
  ]

  -- Rows that meet `p` are changed into rows that meet `q`.
  pub count-update_gain :
      (p q : A → Bool) (f : A → A) (xs : List A)
      → ((a : A) → p a ≡ true → q a ≡ false)
      → ((a : A) → q (f a) ≡ true)
      → count_where q (update_where p f xs) ≡ count_where q xs + count_where p xs
  unfolding count_where update_where
  count-update_gain p q f [] d g = refl
  count-update_gain p q f (x ∷ xs) d g = elim (Bool-cases (p x)) [
    | inl y ↦ rw y (rw (g x, d x y) (omega (arith, count-update_gain p q f xs d g)))
    | inr n ↦ elim (Bool-cases (q x)) [
      | inl z ↦ rw n (rw z (omega (arith, count-update_gain p q f xs d g)))
      | inr z ↦ rw n (rw z (count-update_gain p q f xs d g))
    ]
  ]

-- One key, which `has` recognises.
module _ {ℓ} {A : Type ℓ} (owns : String → A → Bool) (same : A → A → Bool) (give : String → A → A)
    (source target : String) (has : A → Bool) (agree : (t r : A) → has r ≡ true → same t r ≡ has t)
    (gives : (r : A) → (owns target (give target r) ≡ true) × (has (give target r) ≡ has r)) where
  abbrev keyed : String → A → Bool
  keyed user r = owns user r && has r

  key_clashes :
      (all : List A) (r : A)
      → has r ≡ true
      → (clashes owns same give target all r ≡ true) ⊎ (count_where (keyed target) all ≡ 0)
  unfolding clashes
  key_clashes all r h =
      let alike =
        find-agree (λ t. owns target t && same t r) (keyed target) all
          (λ t. rw (agree t r h) refl) in
      elim (Option-cases (find (keyed target) all)) [
        | inl n ↦ inr (count_of_find-none (keyed target) all n)
        | inr (t, e) ↦ inl (rw (alike, e) refl)
      ]

  -- The rows with this key that the target has afterwards.
  handed_over-bound :
      (all rows : List A)
      → (count_where (keyed target) (handed_over owns same give source target all rows)
          ≤ count_where (keyed target) rows + count_where (keyed source) rows)
        × (0 < count_where (keyed target) all
            → count_where (keyed target) (handed_over owns same give source target all rows)
              ≤ count_where (keyed target) rows)
  unfolding handed_over count_where
  handed_over-bound all [] = (omega arith, λ _. omega arith)
  handed_over-bound all (r ∷ rs) =
      let (free, full) = handed_over-bound all rs in
      elim (Bool-cases (owns source r)) [
        | inr f ↦ elim (Bool-cases (keyed target r)) [
          | inl k ↦ rw (f, k) (omega (arith, free), λ many. omega (arith, full many))
          | inr k ↦ rw (f, k) (omega (arith, free), λ many. omega (arith, full many))
        ]
        | inl y ↦ elim (Bool-cases (has r)) [
          | inr n ↦ elim (Bool-cases (clashes owns same give target all r)) [
            | inl c ↦ rw (y, n, c) (grind (arith, free), λ many. grind (arith, full many))
            | inr c ↦
                rw (y, n, c)
                  (rw ((gives r).1 ∙ n) (grind (arith, free), λ many. grind (arith, full many)))
          ]
          | inl h ↦ elim (Bool-cases (clashes owns same give target all r)) [
            | inl c ↦ rw (y, h, c) (grind (arith, free), λ many. grind (arith, full many))
            | inr c ↦
                rw (y, h, c)
                  (rw ((gives r).0, (gives r).1 ∙ h)
                    (
                      grind (arith, free),
                      λ many. elim (key_clashes all r h) [
                        | inl d ↦ absurd (cc (c, d))
                        | inr z ↦ absurd (omega (arith, many, z))
                      ],
                    ))
          ]
        ]
      ]

  -- A key that is unique for the source and for the target is unique for the target afterwards.
  pub handed_over_unique :
      (rows : List A)
      → count_where (keyed target) rows ≤ 1
      → count_where (keyed source) rows ≤ 1
      → count_where (keyed target) (handed_over owns same give source target rows rows) ≤ 1
  handed_over_unique rows one_target one_source =
      let (free, full) = handed_over-bound rows rows in
      elim (Bool-cases (ltb 0 (count_where (keyed target) rows))) [
        | inl some_there ↦ omega (arith, full (ltb→lt _ _ some_there))
        | inr none_there ↦ ground (arith, free, none_there)
      ]
