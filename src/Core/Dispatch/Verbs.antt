-- ===== src/Core/Dispatch/Verbs.antt =====
-- The lines of a dispatcher of services/core-api/src: `if (method === "GET" && path === ...)`.
use push_be.Prelude.{List, [], ◌∷◌}
use push_be.Routing.{Seg, lit, Rule, allow}

abbrev pub v1 : List Seg → List Seg
v1 p = lit "" ∷ lit "api" ∷ lit "v1" ∷ p

abbrev pub get : List Seg → Rule
get p = allow ("GET" ∷ []) (v1 p)

abbrev pub post : List Seg → Rule
post p = allow ("POST" ∷ []) (v1 p)

abbrev pub patch : List Seg → Rule
patch p = allow ("PATCH" ∷ []) (v1 p)

abbrev pub delete : List Seg → Rule
delete p = allow ("DELETE" ∷ []) (v1 p)

abbrev pub put : List Seg → Rule
put p = allow ("PUT" ∷ []) (v1 p)
