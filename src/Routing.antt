-- ===== src/Routing.antt =====
-- How both workers test a URL path: the tests `path === "/a/b"`, `path.startsWith("/a/b/")` and the
-- anchored expressions such as /^\/a\/[^/]+\/(x|y)$/ of services/gateway/src/routes/owner.ts and
-- services/core-api/src/internal-auth.ts, over the parts of the path between its slashes.
pub mod Symbolic
pub mod Chosen
pub mod Pruned
use Prim.Native.Char.{Char, code}
use Prim.Native.String
use push_be.Prelude.{
  String, Bool, true, false, not, ◌&&◌, ◌||◌, List, [], ◌∷◌, Option, none, some, eqb, elem, any_of,
  if◌then◌else◌, ◌==◌,
}

-- `lit` is literal text, `any` is `[^/]+`, `one_of` is `(a|b|c)`, and `rest` stands last for
-- whatever follows a prefix: `path === p || path.startsWith(p + "/")` is `p` followed by `rest`.
pub data Seg : Type 0 where
  lit : String → Seg
  any : Seg
  one_of : List String → Seg
  rest : Seg

abbrev cons_char : Char → List String → List String
cons_char c [] = String.◌∷◌ c String.[] ∷ []
cons_char c (p ∷ ps) = String.◌∷◌ c p ∷ ps

-- The parts of a path between its slashes.
unfoldable pub split_slash : String → List String
split_slash String.[] = "" ∷ []
split_slash (String.◌∷◌ c s) =
    let parts = split_slash s in if eqb (code c) b'/' then "" ∷ parts else cons_char c parts

abbrev pub fits : Seg → String → Bool
fits (lit t) s = t == s
fits any s = not ("" == s)
fits (one_of ts) s = elem s ts
fits rest s = true

unfoldable pub matches : List Seg → List String → Bool
matches [] [] = true
matches [] (_ ∷ _) = false
matches (rest ∷ _) parts = true
matches (p ∷ ps) (s ∷ parts) = fits p s && matches ps parts
matches (_ ∷ _) [] = false

-- One line of a routing function. `allow` is `if (method ok && path ok) return true`, `gate` is
-- `if (path ok) return method ok`, `open` is `if (path ok) return true`, and `except` is a gate
-- that also wants the path not to be the second pattern.
pub data Rule : Type 0 where
  allow gate : List String → List Seg → Rule
  open_to : List Seg → Rule
  except : List String → List Seg → List Seg → Rule

-- `none` means that no line returned.
unfoldable pub decide : String → List String → List Rule → Option Bool
unfolding matches
decide method parts [] = none
decide method parts (allow ms p ∷ rules) =
    if elem method ms && matches p parts then some true else decide method parts rules
decide method parts (gate ms p ∷ rules) =
    if matches p parts then some (elem method ms) else decide method parts rules
decide method parts (open_to p ∷ rules) =
    if matches p parts then some true else decide method parts rules
decide method parts (except ms p q ∷ rules) =
    if matches p parts
    then some (elem method ms && not (matches q parts))
    else decide method parts rules
