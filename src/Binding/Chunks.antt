-- ===== src/Binding/Chunks.antt =====
-- The chunks of the documents that `_merge_into` of binding.py hands over.
use multi_channel_ai_gateway.Base.{
  suc, ap, ◌∙◌, ℕ, Bool, [], ◌∷◌, arith, is_some, delete_where, count-delete-le, String, true,
  false, ◌&&◌, List, ◌≡◌, refl, inl, inr, ◌==◌, find, count_where, Bool-cases, ==-refl, ==-eq,
  count-delete_self,
}
use multi_channel_ai_gateway.Binding.Tables.{Named, KnowledgeChunk}
use multi_channel_ai_gateway.Binding.Merge.{chunk_owned_by, has_item, give_chunks, give_chunk}

-- A delete after another leaves nothing of what the first one deleted.
pub count-delete_twice {ℓ} :
    {A : Type ℓ} (p q : A → Bool) (xs : List A)
    → count_where p (delete_where q (delete_where p xs)) ≡ 0
count-delete_twice p q xs =
    omega (arith, count-delete-le q p (delete_where p xs), count-delete_self p xs)

-- How many chunks an item has.
abbrev pub chunks_of_item : String → List KnowledgeChunk → ℕ
chunks_of_item id = count_where (λ c. c.item_id == id)

-- Whether an item with the id is in a list of items.
abbrev pub lists_id : String → List Named → Bool
lists_id id items = is_some (find (λ i. i.id == id) items)

module _ {ℓ} {A : Type ℓ} (p q r : A → Bool) (x : A) (xs : List A) where
  count-delete_kept :
      p x ≡ true
      → q x ≡ false
      → r x ≡ false
      → count_where p (delete_where r (delete_where q (x ∷ xs)))
        ≡ suc (count_where p (delete_where r (delete_where q xs)))
  unfolding count_where delete_where
  count-delete_kept px qx rx = rw qx (rw rx (rw px refl))

  count-delete_other :
      p x ≡ false
      → count_where p (delete_where r (delete_where q (x ∷ xs)))
        ≡ count_where p (delete_where r (delete_where q xs))
  unfolding count_where delete_where
  count-delete_other px = elim (Bool-cases (q x)) [
    | inl y ↦ rw y refl
    | inr n ↦ elim (Bool-cases (r x)) [
      | inl y ↦ rw n (rw y refl)
      | inr m ↦ rw n (rw m (rw px refl))
    ]
  ]

give_chunk-item :
    (target : String) (moved : List Named) (c : KnowledgeChunk)
    → (give_chunk target moved c).item_id ≡ c.item_id
give_chunk-item target moved c = elim (Bool-cases (has_item moved c)) [
  | inl y ↦ rw y refl
  | inr n ↦ rw n refl
]

pub given_chunks :
    (source target id : String) (moved dropped : List Named)
    → (target == source) ≡ false
    → lists_id id moved ≡ true
    → lists_id id dropped ≡ false
    → (cs : List KnowledgeChunk)
    → count_where
        (λ c. (c.item_id == id) && chunk_owned_by target c)
        (delete_where
          (chunk_owned_by source)
          (delete_where (has_item dropped) (give_chunks target moved cs)))
      ≡ chunks_of_item id cs
unfolding count_where delete_where give_chunks
given_chunks source target id moved dropped apart m d [] = refl
given_chunks source target id moved dropped apart m d (c ∷ cs) =
    let g = give_chunk target moved c in
    let gs = give_chunks target moved cs in
    let counted = λ (x : KnowledgeChunk). (x.item_id == id) && chunk_owned_by target x in
    let same_item = give_chunk-item target moved c in
    let rest = given_chunks source target id moved dropped apart m d cs in
    elim (Bool-cases (c.item_id == id)) [
      | inl y ↦
          let is_id : c.item_id ≡ id = ==-eq c.item_id id y in
          let moves : has_item moved c ≡ true = rw is_id m in
          let gone : has_item dropped c ≡ false = rw is_id d in
          let given : g ≡ record c { user_id = target } = rw moves refl in
          count-delete_kept counted (has_item dropped) (chunk_owned_by source) g gs
            (rw given (rw y (==-refl target))) (rw given gone) (rw given apart)
          ∙ rw y (ap suc rest)
      | inr n ↦
          count-delete_other counted (has_item dropped) (chunk_owned_by source) g gs
            (rw (same_item, n) refl)
          ∙ rw n rest
    ]
