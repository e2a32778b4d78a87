-- ===== src/Core/Content.antt =====
-- services/core-api/src/document-content.ts: the tree of a TipTap document, the blocks that are
-- kept beside it, and the checks that the two say the same. Of an attribute, only the ones that the checks
-- read are kept. A block id is String(attrs.blockId), and none where that value is falsy, as the empty text
-- is, or `attrs` is no object; an `href` that is no string is none.
pub mod Url
pub mod Walk
pub mod Sound
mod Examples
use Prim.Native.String
use push_be.Prelude.{
  ℕ, suc, ◌+◌, ◌-◌, ◌*◌, ◌/◌, String, ◌==◌, Bool, true, false, not, ◌&&◌, ◌||◌, Option, none, some,
  List, [], ◌∷◌, ◌++◌, elem, eqb, length, if◌then◌else◌,
}
use push_be.Core.Content.Url.{is_url}

-- ALLOWED
pub data Kind : Type 0 where
  doc paragraph heading bullet_list ordered_list list_item text_node : Kind

-- BLOCK_NODES
abbrev pub is_block : Kind → Bool
is_block paragraph = true
is_block heading = true
is_block list_item = true
is_block _ = false

pub record Mark : Type 0 where
  pub is_link : Bool
  pub href : Option String

-- A node with its type (none where it is not allowed), its block id, its marks, its text and its children.
mutual
  pub data Node : Type 0 where
    node : Option Kind → Option String → List Mark → String → Nodes → Node

  pub data Nodes : Type 0 where
    nil : Nodes
    more : Node → Nodes → Nodes

pub data Error : Type 0 where
  unsupported_node unsupported_mark no_href bad_url no_block_id duplicate_node : Error
  no_object no_doc no_id duplicate_block no_node other_text no_block : Error

pub data Result {ℓ} (A : Type ℓ) : Type ℓ where
  ok : A → Result A
  err : Error → Result A

unfoldable mutual
  pub node_text : Node → String
  node_text (node kind id marks text kids) = String.◌++◌ text (nodes_text kids)

  pub nodes_text : Nodes → String
  nodes_text nil = ""
  nodes_text (more n ns) = String.◌++◌ (node_text n) (nodes_text ns)

abbrev pub mark_error : Mark → Option Error
mark_error m = if not m.is_link then some unsupported_mark else elim m.href [
  | none ↦ some no_href
  | some h ↦ if h == "" then some no_href else if is_url h then none else some bad_url
]

unfoldable pub marks_error : List Mark → Option Error
marks_error [] = none
marks_error (m ∷ ms) = elim (mark_error m) [ some e ↦ some e | none ↦ marks_error ms ]

-- Ids with their texts, in the order of `order`.
abbrev pub Texts : Type 0
Texts = List (String × String)

unfoldable pub text_at : String → Texts → Option String
text_at id [] = none
text_at id ((i, t) ∷ ts) = if i == id then some t else text_at id ts

abbrev pub is_in : String → Texts → Bool
is_in id ts = elim (text_at id ts) [ none ↦ false | some t ↦ true ]

-- The entry of a block node.
abbrev pub enter_block : Option String → String → Texts → Result Texts
enter_block none text ts = err no_block_id
enter_block (some id) text ts =
    if is_in id ts then err duplicate_node else ok (ts ++ (id, text) ∷ [])

abbrev pub enter_node : Kind → Option String → String → Texts → Result Texts
enter_node kind id text ts = if is_block kind then enter_block id text ts else ok ts

unfoldable mutual
  pub walk : Node → Texts → Result Texts
  walk (node none id marks text kids) ts = err unsupported_node
  walk (node (some kind) id marks text kids) ts = elim (marks_error marks) [
    | some e ↦ err e
    | none ↦ elim (enter_node kind id (String.◌++◌ text (nodes_text kids)) ts) [
      | err e ↦ err e
      | ok us ↦ walk_all kids us
    ]
  ]

  pub walk_all : Nodes → Texts → Result Texts
  walk_all nil ts = ok ts
  walk_all (more n ns) ts = elim (walk n ts) [ err e ↦ err e | ok us ↦ walk_all ns us ]

pub record Block : Type 0 where
  pub id : String
  pub text : String
  pub claim : String

abbrev pub block_error : Texts → List String → Block → Option Error
block_error ts seen b =
    if b.id == ""
    then some no_id
    else if elem b.id seen
    then some duplicate_block
    else elim (text_at b.id ts) [
      | none ↦ some no_node
      | some t ↦ if t == b.text then none else some other_text
    ]

-- The loop over the blocks, and the ids that it has seen.
unfoldable pub see_blocks : Texts → List String → List Block → Result (List String)
see_blocks ts seen [] = ok seen
see_blocks ts seen (b ∷ bs) = elim (block_error ts seen b) [
  | some e ↦ err e
  | none ↦ see_blocks ts (b.id ∷ seen) bs
]

unfoldable pub unseen_error : List String → Texts → Option Error
unseen_error seen [] = none
unseen_error seen ((i, t) ∷ ts) = if elem i seen then unseen_error seen ts else some no_block

abbrev pub is_doc : Node → Bool
is_doc (node (some doc) id marks text kids) = true
is_doc _ = false

unfoldable pub validate_document_content : Option Node → List Block → Option Error
validate_document_content none bs = some no_object
validate_document_content (some n) bs = if not (is_doc n) then some no_doc else elim (walk n []) [
  | err e ↦ some e
  | ok ts ↦ elim (see_blocks ts [] bs) [ err e ↦ some e | ok seen ↦ unseen_error seen ts ]
]

-- `unsupported` of `computeQuality`
unfoldable pub unsupported : List Block → ℕ
unsupported [] = 0
unsupported (b ∷ bs) =
    let others = unsupported bs in if b.claim == "UNSUPPORTED" then suc others else others

-- `evidenceFidelity` of `computeQuality`
unfoldable pub fidelity : List Block → Option ℕ
fidelity [] = none
fidelity (b ∷ bs) = some ((length (b ∷ bs) - unsupported (b ∷ bs)) * 100 / length (b ∷ bs))
