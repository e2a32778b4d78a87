-- ===== src/Core/Content/Url.antt =====
-- `validateUrl` of services/core-api/src/document-content.ts, over the codes of the text.
use Prim.Native.Char.{code}
use push_be.Prelude.{
  ℕ, ◌+◌, String, Bool, true, false, not, ◌&&◌, ◌||◌, Option, none, some, List, [], ◌∷◌, eqb, leb,
  if◌then◌else◌,
}

abbrev codes : String → List ℕ
codes String.[] = []
codes (String.◌∷◌ c s) = code c ∷ codes s

abbrev same : List ℕ → List ℕ → Bool
same [] [] = true
same (a ∷ as') (b ∷ bs) = eqb a b && same as' bs
same _ _ = false

abbrev lower : List ℕ → List ℕ
lower [] = []
lower (c ∷ cs) = (if leb b'A' c && leb c b'Z' then c + 32 else c) ∷ lower cs

abbrev is_empty : List ℕ → Bool
is_empty [] = true
is_empty _ = false

-- The parts before and after the first of the character.
unfoldable pub cut : ℕ → List ℕ → Option (List ℕ × List ℕ)
cut c [] = none
cut c (d ∷ ds) =
    let others = cut c ds in
    if eqb d c then some ([], ds) else elim others [ none ↦ none | some (a, b) ↦ some (d ∷ a, b) ]

-- The parts before and after the last of it.
unfoldable pub cut_last : ℕ → List ℕ → Option (List ℕ × List ℕ)
cut_last c [] = none
cut_last c (d ∷ ds) = elim (cut_last c ds) [
  | some (a, b) ↦ some (d ∷ a, b)
  | none ↦ if eqb d c then some ([], ds) else none
]

-- `split(/[/?#]/, 1)[0]`
unfoldable pub authority : List ℕ → List ℕ
authority [] = []
authority (c ∷ cs) =
    let others = authority cs in if eqb c b'/' || eqb c b'?' || eqb c b'#' then [] else c ∷ others

abbrev pub netloc : List ℕ → List ℕ
netloc (a ∷ b ∷ cs) = if eqb a b'/' && eqb b b'/' then authority cs else []
netloc _ = []

-- `user || pass.join(":")` is empty.
abbrev pub no_credentials : List ℕ → Bool
no_credentials [] = true
no_credentials (c ∷ cs) = eqb c b':' && is_empty cs

abbrev pub without_last : List ℕ → List ℕ
without_last [] = []
without_last (c ∷ []) = []
without_last (c ∷ d ∷ cs) = c ∷ without_last (d ∷ cs)

abbrev pub before : ℕ → List ℕ → List ℕ
before c cs = elim (cut c cs) [ none ↦ cs | some (a, b) ↦ a ]

-- The part of the host in a part of the form host, or host and port.
abbrev pub host_of : List ℕ → List ℕ
host_of [] = []
host_of (c ∷ cs) =
    if eqb c b'['
    then elim (cut b']' cs) [ none ↦ without_last cs | some (a, b) ↦ a ]
    else before b':' (c ∷ cs)

abbrev pub has_host : List ℕ → Bool
has_host n = elim (cut_last b'@' n) [
  | none ↦ not (is_empty (host_of n))
  | some (info, host) ↦ no_credentials info && not (is_empty (host_of host))
]

abbrev http : List ℕ
http = b'h' ∷ b't' ∷ b't' ∷ b'p' ∷ []

abbrev https : List ℕ
https = b'h' ∷ b't' ∷ b't' ∷ b'p' ∷ b's' ∷ []

-- Whether `validateUrl` does not throw.
unfoldable pub is_url : String → Bool
is_url raw = elim (cut b':' (codes raw)) [
  | none ↦ false
  | some (scheme, others) ↦
      (same (lower scheme) http || same (lower scheme) https) && has_host (netloc others)
]
