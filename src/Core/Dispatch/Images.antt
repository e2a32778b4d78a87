-- ===== src/Core/Dispatch/Images.antt =====
-- `isImageRead` of services/core-api/src/routes/images.ts: the reads that `dispatchImages` answers for
-- every path below /api/v1/uploads/images/, of any number of parts.
use Prim.Native.Char.{code}
use push_be.Prelude.{ℕ, String, ◌==◌, Bool, false, not, ◌&&◌, ◌||◌, List, [], ◌∷◌, eqb}
use push_be.Routing.{Seg, lit, any, rest, matches, split_slash}
use push_be.Core.Dispatch.Verbs.{v1}

abbrev pub codes : String → List ℕ
codes String.[] = []
codes (String.◌∷◌ c s) = code c ∷ codes s

-- `path.includes("..")`
unfoldable pub has_dots : List ℕ → Bool
has_dots [] = false
has_dots (a ∷ []) = false
has_dots (a ∷ b ∷ s) = eqb a b'.' && eqb b b'.' || has_dots (b ∷ s)

abbrev images : List Seg
images = v1 (lit "uploads" ∷ lit "images" ∷ [])

abbrev below_images : List Seg
below_images = v1 (lit "uploads" ∷ lit "images" ∷ rest ∷ [])

-- A read whose name has one part.
abbrev pub one_image : List Seg
one_image = v1 (lit "uploads" ∷ lit "images" ∷ any ∷ [])

-- `path.startsWith("/api/v1/uploads/images/")` is `below_images` without `images` itself.
unfoldable pub is_image_read : String → String → Bool
is_image_read method path =
    method == "GET"
    && (matches below_images (split_slash path)
        && (not (matches images (split_slash path)) && not (has_dots (codes path))))
