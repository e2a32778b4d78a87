-- ===== src/Core/Entry.antt =====
-- `handle` of services/core-api/src/handler.ts: who a request is served as, before `dispatch`. `parse` is
-- parseUuid, `member` the rows of company_members, `has_user` whether userForActAs finds the row, and
-- `allow_user` and `allow_ip` the answers of ratelimit.ts. The key that withApprovalAnswerKey adds is left out.
pub mod Sound
mod Examples
use Prim.Native.Char.{code}
use Prim.Native.String
use Prim.Native.String.{len, slice}
use text.Mathlib.Text.{starts_with}
use push_be.Prelude.{
  ℕ, zero, suc, ◌+◌, String, ◌==◌, Bool, true, false, not, ◌&&◌, ◌||◌, Option, none, some, List, [],
  ◌∷◌, eqb, leb, elem, if◌then◌else◌,
}
use push_be.Routing.{Seg, lit, any, one_of, matches, split_slash, Rule, allow, open_to, decide}
use push_be.Core.ActAs
use push_be.Core.ActAs.{act_as_of}
use push_be.Core.Dispatch.{said_yes}
use push_be.Core.Dispatch.Images.{codes, is_image_read}
use push_be.Core.Dispatch.Verbs.{v1, get, post}
use push_be.Core.Dispatch.Tables.Accounts.{notification_job_rules}
use push_be.Core.Sessions
use push_be.Core.Sessions.{Db, CoreEnv, resolve_user}

abbrev is_hex : ℕ → Bool
is_hex c = leb b'0' c && leb c b'9' || leb b'a' c && leb c b'f' || leb b'A' c && leb c b'F'

-- What follows that many hexadecimal digits.
unfoldable pub skip_hex : ℕ → List ℕ → Option (List ℕ)
skip_hex zero s = some s
skip_hex (suc n) [] = none
skip_hex (suc n) (c ∷ s) = let others = skip_hex n s in if is_hex c then others else none

-- The groups of digits of a UUID with a dash between two of them.
unfoldable pub is_groups : ℕ → List ℕ → List ℕ → Bool
is_groups n [] s = elim (skip_hex n s) [ some [] ↦ true | some (_ ∷ _) ↦ false | none ↦ false ]
is_groups n (m ∷ ms) s = elim (skip_hex n s) [
  | none ↦ false
  | some [] ↦ false
  | some (c ∷ more) ↦ eqb c b'-' && is_groups m ms more
]

abbrev pub is_uuid : String → Bool
is_uuid s = is_groups 8 (4 ∷ 4 ∷ 4 ∷ 12 ∷ []) (codes s)

abbrev folded : ℕ → ℕ
folded c = if leb b'A' c && leb c b'Z' then c + 32 else c

abbrev same_letters : List ℕ → List ℕ → Bool
same_letters [] [] = true
same_letters (a ∷ as') (b ∷ bs) = eqb (folded a) (folded b) && same_letters as' bs
same_letters _ _ = false

-- The word in letters of either case, as the flag i has it.
abbrev is_word : String → String → Bool
is_word a b = same_letters (codes a) (codes b)

abbrev is_posting_end : List String → Bool
is_posting_end [] = true
is_posting_end (w ∷ []) = is_word "applicant-counts" w
is_posting_end _ = false

-- POSTING_UUID and APPLICANT_COUNTS, on the parts of the path
abbrev pub is_posting : List String → Bool
is_posting (a ∷ b ∷ c ∷ d ∷ id ∷ more) =
    a == ""
    && (is_word "api" b
        && (is_word "v1" c && (is_word "postings" d && (is_uuid id && is_posting_end more))))
is_posting _ = false

-- The lines of `isGuestRead`, but the last two.
unfoldable pub guest_rules : List Rule
guest_rules =
    get (lit "postings" ∷ [])
    ∷ get (lit "postings" ∷ lit "locations" ∷ [])
    ∷ get (lit "postings" ∷ lit "facets" ∷ [])
    ∷ get (lit "skills" ∷ [])
    ∷ get (lit "search" ∷ [])
    ∷ get (lit "search" ∷ lit "counts" ∷ [])
    ∷ get (lit "search" ∷ lit "trending" ∷ [])
    ∷ []

unfoldable pub is_guest_read : String → String → Bool
is_guest_read method path =
    let parts = split_slash path in
    said_yes (decide method parts guest_rules) || method == "GET" && is_posting parts

-- PUBLIC, EMAIL_PUBLIC, PHONE_PUBLIC and the lines of `isPublic` but the reads of images and of guests
unfoldable pub public_rules : List Rule
public_rules =
    open_to (v1 (lit "auth" ∷ one_of ("exchange" ∷ "refresh" ∷ "logout" ∷ []) ∷ []))
    ∷ open_to (v1 (lit "billing" ∷ lit "webhook" ∷ []))
    ∷ open_to (v1 (lit "billing" ∷ lit "webhook" ∷ one_of ("app-store" ∷ "google-play" ∷ []) ∷ []))
    ∷ post (
        lit "auth"
        ∷ lit "email"
        ∷ one_of ("signup" ∷ "verify" ∷ "login" ∷ "password-reset" ∷ [])
        ∷ [])
    ∷ post (lit "auth" ∷ lit "email" ∷ lit "password-reset" ∷ lit "confirm" ∷ [])
    ∷ post (lit "auth" ∷ lit "phone" ∷ one_of ("send" ∷ "verify" ∷ []) ∷ [])
    ∷ post (lit "auth" ∷ lit "apple" ∷ one_of ("callback" ∷ "native" ∷ []) ∷ [])
    ∷ get (lit "auth" ∷ any ∷ one_of ("start" ∷ "callback" ∷ []) ∷ [])
    ∷ get (lit "companies" ∷ lit "invites" ∷ any ∷ [])
    ∷ get (lit "integrations" ∷ lit "google" ∷ lit "callback" ∷ [])
    ∷ get (lit "documents" ∷ lit "shared" ∷ any ∷ [])
    ∷ []

unfoldable pub is_public : String → String → String → Bool
is_public method path authz =
    said_yes (decide method (split_slash path) public_rules)
    || is_image_read method path
    || authz == "" && is_guest_read method path

-- `path.endsWith("/stream")`, of the parts of the path
abbrev pub ends_in : String → List String → Bool
ends_in last [] = false
ends_in last (_ ∷ []) = false
ends_in last (_ ∷ b ∷ []) = b == last
ends_in last (_ ∷ b ∷ c ∷ ps) = ends_in last (b ∷ c ∷ ps)

-- Whether `idempotent` is asked, and not `dispatch` at once.
unfoldable pub is_keyed : String → String → Bool
is_keyed method path = method == "POST" && not (ends_in "stream" (split_slash path))

pub record Request : Type 0 where
  pub method : String
  pub path : String
  pub authz : String
  pub secret : Option String
  pub act_as : Option String
  pub company : Option String
  pub ip : String

-- The user of the context.
pub data Who : Type 0 where
  acting : ℕ → Option ℕ → Who
  guest anonymous : Who
  signed_in : ℕ → Who

pub data Outcome : Type 0 where
  notified : Outcome
  refused : (status : ℕ) → Outcome
  served : Who → (keyed : Bool) → Outcome

pub record World : Type 0 where
  pub internal_secret : String
  pub parse : String → Option ℕ
  pub member : ℕ → ℕ → Bool
  pub has_user : ℕ → Bool
  pub digest : String → String
  pub env : CoreEnv
  pub now : ℕ
  pub sessions : Db
  pub allow_user : ℕ → Bool
  pub allow_ip : String → Bool

abbrev pub limited : Bool → Who → Bool → Outcome
limited allowed who keyed = if allowed then served who keyed else refused 429

abbrev pub refusal : ActAs.Error → ℕ
refusal ActAs.unauthorized = 401
refusal ActAs.not_available = 403
refusal ActAs.not_a_member = 403

-- The request by its token.
unfoldable pub serve_signed_in : World → Request → Outcome
serve_signed_in w r =
    if not (starts_with r.authz "Bearer ")
    then refused 401
    else elim (resolve_user w.digest w.env w.now (slice r.authz 7 (len r.authz)) w.sessions) [
      | Sessions.err e ↦ refused 401
      | Sessions.ok u ↦ limited (w.allow_user u) (signed_in u) (is_keyed r.method r.path)
    ]

-- A request that is no act-as call.
unfoldable pub serve_other : World → Request → Outcome
serve_other w r =
    if is_public r.method r.path r.authz
    then limited (w.allow_ip r.ip) (if is_guest_read r.method r.path then guest else anonymous)
        false
    else serve_signed_in w r

abbrev pub is_notification_job : Request → Bool
is_notification_job r =
    r.method == "POST"
    && (starts_with r.path "/api/v1/internal/notifications/"
        && said_yes (decide r.method (split_slash r.path) notification_job_rules))

abbrev pub act_as_part : Request → ActAs.Request
act_as_part r = record {
  method = r.method;
  path = r.path;
  secret = r.secret;
  act_as = r.act_as;
  company = r.company;
}

unfoldable pub handle : World → Request → Outcome
handle w r =
    if is_notification_job r
    then notified
    else elim (act_as_of w.parse w.member w.internal_secret (act_as_part r)) [
      | ActAs.err e ↦ refused (refusal e)
      | ActAs.ok none ↦ serve_other w r
      | ActAs.ok (some (u, c)) ↦
          if not (w.has_user u)
          then refused 401
          else limited (w.allow_user u) (acting u c) (is_keyed r.method r.path)
    ]
