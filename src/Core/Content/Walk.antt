-- ===== src/Core/Content/Walk.antt =====
-- What `walk` of services/core-api/src/document-content.ts collects.
use Prim.Native.String
use push_be.Prelude.{
  String, ◌==◌, eq_iff, ◌≡◌, refl, sym, ap, ◌∙◌, false, Option, none, some, [], ◌∷◌, ◌++◌,
  append_assoc, append-nil, arith, Bool-cases, Option-cases, inl, inr, ◌⊎◌, if◌then◌else◌,
}
use push_be.Core.Content.{
  Kind, is_block, Node, node, Nodes, nil, more, Error, Result, ok, err, nodes_text, marks_error,
  Texts, text_at, enter_node, walk, walk_all,
}

abbrev own_text : Kind → Option String → String → Texts
own_text kind none text = []
own_text kind (some id) text = if is_block kind then (id, text) ∷ [] else []

-- The block nodes of a document with their texts, from the top.
unfoldable mutual
  pub block_texts : Node → Texts
  block_texts (node none id marks text kids) = []
  block_texts (node (some kind) id marks text kids) =
      own_text kind id (String.◌++◌ text (nodes_text kids)) ++ all_texts kids

  pub all_texts : Nodes → Texts
  all_texts nil = []
  all_texts (more n ns) = block_texts n ++ all_texts ns

-- No id is there twice.
unfoldable pub Distinct : Texts → Type 0
Distinct [] = Unit
Distinct ((i, t) ∷ ts) = (text_at i ts ≡ none) × Distinct ts

pub text_at-append :
    (id : String) (ts us : Texts)
    → text_at id (ts ++ us) ≡ elim (text_at id ts) [ none ↦ text_at id us | some t ↦ some t ]
unfolding text_at
text_at-append id [] us = refl
text_at-append id ((i, t) ∷ ts) us = ground (arith, text_at-append id ts us)

Distinct-last :
    (id text : String) (ts : Texts)
    → text_at id ts ≡ none
    → Distinct ts
    → Distinct (ts ++ (id, text) ∷ [])
unfolding Distinct text_at
Distinct-last id text [] h d = (refl, tt)
Distinct-last id text ((i, t) ∷ ts) h (p, d) = elim (Bool-cases (i == id)) [
  | inl e ↦ absurd (ground (arith, e))
  | inr e ↦
      let later : text_at id ts ≡ none = ground (arith, e) in
      let other : (id == i) ≡ false = ground (arith, e, eq_iff i id, eq_iff id i) in
      (text_at-append i ts ((id, text) ∷ []) ∙ rw (p, other) refl, Distinct-last id text ts later d)
]

-- The step of one node: what it adds keeps the ids apart.
abbrev Adds : Texts → Texts → Texts → Type 0
Adds ts new us = (us ≡ ts ++ new) × (Distinct ts → Distinct us)

Adds-none : (ts : Texts) → Adds ts [] ts
Adds-none ts = (sym (append-nil ts), λ d. d)

Adds-trans :
    (ts us vs new more_new : Texts)
    → Adds ts new us
    → Adds us more_new vs
    → Adds ts (new ++ more_new) vs
Adds-trans ts us vs new more_new (e, d) (f, g) =
    (f ∙ (ap (λ x. x ++ more_new) e ∙ append_assoc ts new more_new), λ h. g (d h))

result_cases : (r : Result Texts) → ((e : Error) × (r ≡ err e)) ⊎ ((us : Texts) × (r ≡ ok us))
result_cases (ok us) = inr (us, refl)
result_cases (err e) = inl (e, refl)

ok_part : (us vs : Texts) → ◌≡◌ {A = Result Texts} (ok us) (ok vs) → us ≡ vs
ok_part us vs h = ground arith

enter_node-Adds :
    (kind : Kind) (id : Option String) (text : String) (ts us : Texts)
    → enter_node kind id text ts ≡ ok us
    → Adds ts (own_text kind id text) us
enter_node-Adds kind none text ts us h = elim (Bool-cases (is_block kind)) [
  | inl e ↦ absurd (ground (arith, e))
  | inr e ↦ let same : ts ≡ us = ground (arith, e) in rw (← same) (Adds-none ts)
]
enter_node-Adds kind (some id) text ts us h = elim (Bool-cases (is_block kind)) [
  | inr e ↦ let same : ts ≡ us = ground (arith, e) in rw (e, ← same) (Adds-none ts)
  | inl e ↦ elim (Option-cases (text_at id ts)) [
    | inr (t, k) ↦ absurd (ground (arith, e, k))
    | inl k ↦
        let same : ts ++ (id, text) ∷ [] ≡ us = ground (arith, e, k) in
        rw (e, ← same) (refl, Distinct-last id text ts k)
  ]
]

-- Where the walk does not throw, it has added the block nodes in order, and no id twice.
mutual
  unfolding walk block_texts

  pub walk-Adds : (n : Node) (ts us : Texts) → walk n ts ≡ ok us → Adds ts (block_texts n) us
  walk-Adds (node none id marks text kids) ts us h = cc
  walk-Adds (node (some kind) id marks text kids) ts us h =
      elim (Option-cases (marks_error marks)) [
        | inr (e, m) ↦ absurd (ground (arith, m))
        | inl m ↦ elim (result_cases (enter_node kind id (String.◌++◌ text (nodes_text kids)) ts)) [
          | inl (e, w) ↦ absurd (ground (arith, m, w))
          | inr (vs, w) ↦
              let own = enter_node-Adds kind id (String.◌++◌ text (nodes_text kids)) ts vs w in
              let below : walk_all kids vs ≡ ok us = ground (arith, m, w) in
              Adds-trans ts vs us _ _ own (walk_all-Adds kids vs us below)
        ]
      ]

  walk_all-Adds : (ns : Nodes) (ts us : Texts) → walk_all ns ts ≡ ok us → Adds ts (all_texts ns) us
  walk_all-Adds nil ts us h = rw (← ok_part ts us h) (Adds-none ts)
  walk_all-Adds (more n ns) ts us h = elim (result_cases (walk n ts)) [
    | inl (e, w) ↦ absurd (ground (arith, w))
    | inr (vs, w) ↦
        let rest_of : walk_all ns vs ≡ ok us = ground (arith, w) in
        Adds-trans ts vs us _ _ (walk-Adds n ts vs w) (walk_all-Adds ns vs us rest_of)
  ]
