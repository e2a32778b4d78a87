-- ===== src/Core/ActAs.antt =====
-- services/core-api/src/internal-auth.ts: what the AI worker may do in the name of a user.
-- A UUID is a value here: `parse_uuid` of http.ts is the argument `parse`, which gives `none` where
-- the text is no UUID. The trimmed INTERNAL_API_SECRET is the argument `expected`, "" where it is unset.
pub mod Laws
use push_be.Prelude.{
  ℕ, String, Bool, true, false, not, ◌&&◌, ◌||◌, List, [], ◌∷◌, Option, none, some, if◌then◌else◌,
  ◌==◌,
}
use push_be.Routing.{Seg, lit, any, one_of, split_slash, Rule, allow, decide}

abbrev v1 : List Seg → List Seg
v1 p = lit "" ∷ lit "api" ∷ lit "v1" ∷ p

unfoldable pub act_as_routes : List Rule
act_as_routes =
    allow ("GET" ∷ "POST" ∷ []) (v1 (lit "postings" ∷ []))
    ∷ allow ("GET" ∷ "PATCH" ∷ []) (v1 (lit "postings" ∷ any ∷ []))
    ∷ allow ("POST" ∷ "DELETE" ∷ []) (v1 (lit "postings" ∷ any ∷ lit "bookmark" ∷ []))
    ∷ allow ("POST" ∷ []) (v1 (lit "postings" ∷ any ∷ one_of ("apply" ∷ "close" ∷ []) ∷ []))
    ∷ allow ("GET" ∷ [])
        (v1 (lit "postings" ∷ any ∷ one_of ("applicants" ∷ "applicant-counts" ∷ []) ∷ []))
    ∷ allow ("GET" ∷ "PATCH" ∷ []) (v1 (lit "postings" ∷ any ∷ lit "applicants" ∷ any ∷ []))
    ∷ allow ("GET" ∷ []) (v1 (lit "me" ∷ one_of ("bookmarks" ∷ "offers" ∷ []) ∷ []))
    ∷ allow ("GET" ∷ []) (v1 (lit "me" ∷ lit "offers" ∷ any ∷ []))
    ∷ allow ("POST" ∷ [])
        (v1 (lit "me" ∷ lit "offers" ∷ any ∷ one_of ("accept" ∷ "decline" ∷ "messages" ∷ []) ∷ []))
    ∷ allow ("GET" ∷ "PATCH" ∷ []) (v1 (lit "me" ∷ lit "profile" ∷ []))
    ∷ allow ("GET" ∷ "POST" ∷ []) (v1 (lit "calendar" ∷ lit "events" ∷ []))
    ∷ allow ("PATCH" ∷ "DELETE" ∷ []) (v1 (lit "calendar" ∷ lit "events" ∷ any ∷ []))
    ∷ allow ("GET" ∷ "POST" ∷ []) (v1 (lit "posts" ∷ []))
    ∷ allow ("POST" ∷ []) (v1 (lit "posts" ∷ any ∷ lit "comments" ∷ []))
    ∷ allow ("POST" ∷ []) (v1 (lit "users" ∷ any ∷ lit "follow" ∷ []))
    ∷ allow ("GET" ∷ []) (v1 (lit "companies" ∷ lit "me" ∷ []))
    ∷ allow ("GET" ∷ []) (v1 (lit "companies" ∷ lit "me" ∷ lit "postings" ∷ []))
    ∷ allow ("GET" ∷ []) (v1 (lit "profiles" ∷ []))
    ∷ allow ("GET" ∷ []) (v1 (lit "profiles" ∷ any ∷ []))
    ∷ allow ("POST" ∷ []) (v1 (lit "profiles" ∷ any ∷ lit "offer" ∷ []))
    ∷ allow ("POST" ∷ []) (v1 (lit "documents" ∷ any ∷ lit "edits" ∷ []))
    ∷ []

-- `ACT_AS_ROUTES.some(([pattern, methods]) => methods.has(method) && pattern.test(path))`
abbrev said_yes : Option Bool → Bool
said_yes (some true) = true
said_yes _ = false

unfoldable pub act_as_allowed : String → String → Bool
act_as_allowed method path = said_yes (decide method (split_slash path) act_as_routes)

-- What `actAs` reads of a request: the three headers, `none` where one is absent.
pub record Request : Type 0 where
  pub method : String
  pub path : String
  pub secret : Option String
  pub act_as : Option String
  pub company : Option String

pub data Error : Type 0 where
  unauthorized not_available not_a_member : Error

pub data Result {ℓ} (A : Type ℓ) : Type ℓ where
  ok : A → Result A
  err : Error → Result A

abbrev pub or_empty : Option String → String
or_empty none = ""
or_empty (some s) = s

abbrev is_some {ℓ} : {A : Type ℓ} → Option A → Bool
is_some none = false
is_some (some a) = true

-- The bytes are compared in constant time; the outcome is equality.
unfoldable pub secret_matches : String → String → Bool
secret_matches presented expected = presented == expected

-- `parse` is parseUuid, `member` the rows of company_members.
module _ {User : Type 0} (parse : String → Option User) (member : User → User → Bool) where
  -- The last step: the company that is named must be one of the user's.
  unfoldable pub with_company : User → Option String → Result (Option (User × Option User))
  with_company user header =
      if "" == or_empty header then ok (some (user, none)) else elim (parse (or_empty header)) [
        | none ↦ err unauthorized
        | some company ↦
            if member user company then ok (some (user, some company)) else err not_a_member
      ]

  -- `ok none` means that the request is no act-as call.
  unfoldable pub act_as_of : String → Request → Result (Option (User × Option User))
  act_as_of expected r =
      if not (is_some r.secret) && not (is_some r.act_as) && not (is_some r.company)
      then ok none
      else if "" == expected || not (secret_matches (or_empty r.secret) expected)
      then err unauthorized
      else if not (is_some r.act_as)
      then ok none
      else if not (act_as_allowed r.method r.path)
      then err not_available
      else elim (parse (or_empty r.act_as)) [
        | none ↦ err unauthorized
        | some user ↦ with_company user r.company
      ]
