-- ===== src/Gateway/Owner.antt =====
-- services/gateway/src/routes/owner.ts: which worker answers a path that the gateway does not
-- handle itself. Each line of `isPython`, `isCore` and `isRecruiting` is a rule of Routing.
pub mod Rules
pub mod Laws
use Prim.Native.Char.{code}
use Prim.Native.Nat.{ℕ}
use Prim.Native.String
use push_be.Prelude.{
  String, Bool, true, false, ◌||◌, ◌&&◌, List, [], ◌∷◌, Option, none, some, eqb, if◌then◌else◌,
}
use push_be.Routing.{Seg, lit, rest, split_slash, matches, decide}
use Rules.{python_rules, core_rules, recruiting_rules}

pub data Owner : Type 0 where
  core python deny : Owner

abbrev codes : String → List ℕ
codes String.[] = []
codes (String.◌∷◌ c s) = code c ∷ codes s

-- `path.includes("//")`
double_slash : List ℕ → Bool
double_slash [] = false
double_slash (a ∷ []) = false
double_slash (a ∷ b ∷ s) = eqb a b'/' && eqb b b'/' || double_slash (b ∷ s)

-- `/%2f|%5c/i.test(path)`
encoded_slash : List ℕ → Bool
encoded_slash [] = false
encoded_slash (a ∷ []) = false
encoded_slash (a ∷ b ∷ []) = false
encoded_slash (a ∷ b ∷ c ∷ s) =
    eqb a b'%'
      && (eqb b b'2' && (eqb c b'f' || eqb c b'F') || eqb b b'5' && (eqb c b'c' || eqb c b'C'))
    || encoded_slash (b ∷ c ∷ s)

unfoldable pub ambiguous : String → Bool
unfolding double_slash encoded_slash
ambiguous path = double_slash (codes path) || encoded_slash (codes path)

-- `path === "/internal" || path.startsWith("/internal/")`
abbrev pub internal : List Seg
internal = lit "" ∷ lit "internal" ∷ rest ∷ []

abbrev pub get_or : Option Bool → Bool → Bool
get_or none b = b
get_or (some a) b = a

unfoldable pub is_python : String → List String → Bool
is_python method parts = get_or (decide method parts python_rules) false

unfoldable pub is_recruiting : List String → Bool
is_recruiting parts = get_or (decide "" parts recruiting_rules) false

-- `isRecruiting` is asked where no earlier line of `isCore` has returned.
unfoldable pub is_core : String → List String → Bool
is_core method parts = get_or (decide method parts core_rules) (is_recruiting parts)

unfoldable pub owner_of : String → String → Owner
owner_of method path =
    if ambiguous path
    then deny
    else let parts = split_slash path in
      if matches internal parts
      then deny
      else if is_python method parts
      then python
      else if is_core method parts
      then core
      else deny
