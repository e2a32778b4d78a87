-- ===== src/Core/Content/Sound.antt =====
-- What `validateDocumentContent` of services/core-api/src/document-content.ts has shown where it passes.
use push_be.Prelude.{
  String, ◌==◌, eq_iff, ◌≡◌, ◌≢◌, refl, sym, ap, subst, ◌∙◌, true, false, none, some, List, [], ◌∷◌,
  elem, arith, Bool-cases, Option-cases, inl, inr, ◌⊎◌,
}
use push_be.Core.Content.{
  Node, Error, Result, ok, err, Texts, text_at, walk, Block, block_error, see_blocks, unseen_error,
  is_doc, validate_document_content,
}
use push_be.Core.Content.Walk.{block_texts, Distinct, walk-Adds}

abbrev pub block_pairs : List Block → Texts
block_pairs [] = []
block_pairs (b ∷ bs) = (b.id, b.text) ∷ block_pairs bs

-- What the loop has found of the blocks: their ids, added to those that were seen, and their texts.
record Seen (ts : Texts) (seen : List String) (bs : List Block) (out : List String) : Type 0 where
  same_texts : (id t : String) → text_at id (block_pairs bs) ≡ some t → text_at id ts ≡ some t
  new_ids : (id : String) → elem id seen ≡ true → text_at id (block_pairs bs) ≡ none
  all_ids :
      (id : String)
      → elem id out ≡ true
      → (elem id seen ≡ true) ⊎ (text_at id (block_pairs bs) ≢ none)
  distinct : Distinct (block_pairs bs)

block_error-none :
    (ts : Texts) (seen : List String) (b : Block)
    → block_error ts seen b ≡ none
    → (elem b.id seen ≡ false) × (text_at b.id ts ≡ some b.text) × (b.id ≢ "")
block_error-none ts seen b h = elim (Option-cases (text_at b.id ts)) [
  | inl e ↦ absurd (ground (arith, e))
  | inr (t, e) ↦
      let same = eq_iff t b.text in
      let empty = eq_iff b.id "" in
      (ground (arith, e), ground (arith, e, same), λ k. absurd (ground (arith, e, empty, k)))
]

is_same : (a b : String) → (a == b) ≡ true → a ≡ b
is_same a b h = (eq_iff a b).0 h

-- A block that passes, in front of the blocks that do.
Seen-more :
    (ts : Texts) (seen : List String) (b : Block) (bs : List Block) (out : List String)
    → block_error ts seen b ≡ none
    → Seen ts (b.id ∷ seen) bs out
    → Seen ts seen (b ∷ bs) out
unfolding text_at Distinct
Seen-more ts seen b bs out e s =
    let (fresh, there, named) = block_error-none ts seen b e in
    record {
      same_texts = λ id t h. elim (Bool-cases (b.id == id)) [
        | inr k ↦ s.same_texts id t (ground (arith, k))
        | inl k ↦
            let text : b.text ≡ t = ground (arith, k) in rw (← is_same b.id id k, ← text) there
      ];
      new_ids = λ id h. elim (Bool-cases (b.id == id)) [
        | inr k ↦ rw k (s.new_ids id (ground (arith, k)))
        | inl k ↦ absurd (ground (arith, fresh, ap (λ x. elem x seen) (is_same b.id id k)))
      ];
      all_ids = λ id h. elim (Bool-cases (b.id == id)) [
        | inl k ↦ inr (λ n. absurd (ground (arith, k, n)))
        | inr k ↦ elim (s.all_ids id h) [
          | inl x ↦ inl (ground (arith, x, k))
          | inr x ↦ inr (λ n. x (ground (arith, k, n)))
        ]
      ];
      distinct = (s.new_ids b.id (ground (arith, eq_iff b.id b.id)), s.distinct);
    }

see_blocks-Seen :
    (ts : Texts) (seen : List String) (bs : List Block) (out : List String)
    → see_blocks ts seen bs ≡ ok out
    → Seen ts seen bs out
unfolding see_blocks text_at Distinct
see_blocks-Seen ts seen [] out h =
    let same : seen ≡ out = ground arith in
    record {
      same_texts = λ id t k. cc;
      new_ids = λ id k. refl;
      all_ids = λ id k. inl (rw same k);
      distinct = tt;
    }
see_blocks-Seen ts seen (b ∷ bs) out h = elim (Option-cases (block_error ts seen b)) [
  | inr (e, k) ↦ absurd (ground (arith, k))
  | inl k ↦
      Seen-more ts seen b bs out k (see_blocks-Seen ts (b.id ∷ seen) bs out (ground (arith, k)))
]

unseen_error-none :
    (seen : List String) (ts : Texts) (id t : String)
    → unseen_error seen ts ≡ none
    → text_at id ts ≡ some t
    → elem id seen ≡ true
unfolding unseen_error text_at
unseen_error-none seen [] id t h k = cc
unseen_error-none seen ((i, u) ∷ ts) id t h k = elim (Bool-cases (elem i seen)) [
  | inr e ↦ absurd (ground (arith, e))
  | inl e ↦ elim (Bool-cases (i == id)) [
    | inl f ↦ rw (← is_same i id f) e
    | inr f ↦ unseen_error-none seen ts id t (ground (arith, e)) (ground (arith, f))
  ]
]

Seen-all :
    (ts : Texts) (bs : List Block) (out : List String) (id : String)
    → Seen ts [] bs out
    → unseen_error out ts ≡ none
    → text_at id (block_pairs bs) ≡ text_at id ts
Seen-all ts bs out id s h = elim (Option-cases (text_at id (block_pairs bs))) [
  | inr (t, e) ↦ e ∙ sym (s.same_texts id t e)
  | inl e ↦ elim (Option-cases (text_at id ts)) [
    | inl f ↦ e ∙ sym f
    | inr (t, f) ↦ elim (s.all_ids id (unseen_error-none out ts id t h f)) [
      | inl x ↦ absurd (ground (arith, x))
      | inr x ↦ absurd (x e)
    ]
  ]
]

validated :
    (n : Node) (bs : List Block)
    → validate_document_content (some n) bs ≡ none
    → (ts : Texts) × (out : List String) × (walk n [] ≡ ok ts)
      × (see_blocks ts [] bs ≡ ok out)
      × (unseen_error out ts ≡ none)
      × (is_doc n ≡ true)
unfolding validate_document_content
validated n bs h = elim (Bool-cases (is_doc n)) [
  | inr e ↦ absurd (ground (arith, e))
  | inl e ↦ elim (walked (walk n [])) [
    | inl (f, w) ↦ absurd (ground (arith, e, w))
    | inr (ts, w) ↦ elim (looped (see_blocks ts [] bs)) [
      | inl (f, s) ↦ absurd (ground (arith, e, w, s))
      | inr (out, s) ↦ (ts, out, w, s, ground (arith, e, w, s), e)
    ]
  ]
]
  where
    walked : (r : Result Texts) → ((e : Error) × (r ≡ err e)) ⊎ ((us : Texts) × (r ≡ ok us))
    walked (ok us) = inr (us, refl)
    walked (err e) = inl (e, refl)

    looped :
        (r : Result (List String))
        → ((e : Error) × (r ≡ err e)) ⊎ ((us : List String) × (r ≡ ok us))
    looped (ok us) = inr (us, refl)
    looped (err e) = inl (e, refl)

-- A document that is accepted and its blocks say the same: each id has the same text in the block nodes
-- of the tree as in the blocks, or is in neither, and no id is in either twice.
pub validate_document_content_sound :
    (n : Node) (bs : List Block)
    → validate_document_content (some n) bs ≡ none
    → ((id : String) → text_at id (block_pairs bs) ≡ text_at id (block_texts n))
      × Distinct (block_texts n)
      × Distinct (block_pairs bs)
unfolding Distinct
validate_document_content_sound n bs h =
    let (ts, out, w, s, u, root) = validated n bs h in
    let (found, apart) = walk-Adds n [] ts w in
    let seen = see_blocks-Seen ts [] bs out s in
    (
      λ id. Seen-all ts bs out id seen u ∙ ap (text_at id) found,
      subst Distinct found (apart tt),
      seen.distinct,
    )
