-- ===== src/Core/Entry/Sound.antt =====
-- Who is served: `handle` of services/core-api/src/handler.ts.
use Prim.Native.String.{len, slice}
use text.Mathlib.Text.{starts_with}
use push_be.Prelude.{ℕ, String, ◌≡◌, ◌≢◌, ◌⊎◌, Bool, true, false, none, some}
use push_be.Core.ActAs
use push_be.Core.ActAs.{act_as_allowed}
use push_be.Core.Sessions
use push_be.Core.Sessions.{resolve_user}
use push_be.Core.Entry.{
  is_guest_read, is_public, is_keyed, Request, Who, acting, guest, anonymous, signed_in, World,
}

-- What a request has shown that is served as one user, by the kind of the user.
abbrev pub Entitled : World → Request → Bool → Who → Type 0
Entitled w r keyed (acting u c) =
    (r.secret ≡ some w.internal_secret)
    × (w.internal_secret ≢ "")
    × (act_as_allowed r.method r.path ≡ true)
    × (id : String) × (r.act_as ≡ some id)
    × (w.parse id ≡ some u)
    × ((c ≡ none)
        ⊎ ((d : ℕ) × (name : String) × (r.company ≡ some name)
            × (w.parse name ≡ some d)
            × (c ≡ some d)
            × (w.member u d ≡ true)))
    × (w.has_user u ≡ true)
    × (w.allow_user u ≡ true)
    × (keyed ≡ is_keyed r.method r.path)
Entitled w r keyed (signed_in u) =
    (starts_with r.authz "Bearer " ≡ true)
    × (resolve_user w.digest w.env w.now (slice r.authz 7 (len r.authz)) w.sessions ≡ Sessions.ok u)
    × (w.allow_user u ≡ true)
    × (keyed ≡ is_keyed r.method r.path)
Entitled w r keyed guest =
    (is_guest_read r.method r.path ≡ true) × (w.allow_ip r.ip ≡ true) × (keyed ≡ false)
Entitled w r keyed anonymous =
    (is_public r.method r.path r.authz ≡ true) × (w.allow_ip r.ip ≡ true) × (keyed ≡ false)
