-- ===== src/Core/Requests.antt =====
-- `idempotent` of services/core-api/src/handler.ts: a POST with an idempotency key, around the route
-- that answers it. The code awaits that route, so the function is two: `begin` up to the call, and
-- `finish`, one statement, after it. A digest, a body and a UUID are texts; the names of headers are in lower case, as
-- Headers gives them. `ids` are the row ids that the attempts draw. The insert of the key does not
-- fail, and the key is a UUID, which is tested before.
pub mod Laws
pub mod Runs
pub mod Keys
mod Examples
use push_be.Prelude.Dict.{Dict, set}
use push_be.Gateway.Cache.{string_eq}
use push_be.Prelude.{
  ℕ, ◌+◌, String, ◌==◌, Bool, true, false, not, ◌&&◌, ◌||◌, Option, none, some, List, [], ◌∷◌, ◌++◌,
  eqb, ltb, leb, if◌then◌else◌, any_of,
}

-- A body that is null is "".
pub record Response : Type 0 where
  pub status : ℕ
  pub headers : List (String × String)
  pub body : String

-- idempotency_keys; the method is always POST.
pub record Row : Type 0 where
  pub id : ℕ
  pub user : ℕ
  pub path : String
  pub key : String
  pub hash : String
  pub response : Option Response
  pub created : ℕ

pub record Ask : Type 0 where
  pub user : ℕ
  pub path : String
  pub key : String
  pub hash : String

-- `exhausted` is where no id is left to draw, `missing` the 500 where the row is gone when it is read.
pub data Begun : Type 0 where
  run : ℕ → Begun
  answer : Response → Begun
  conflict missing exhausted : Begun

abbrev pub pending_ms : ℕ
pending_ms = 300000

abbrev pub is_pending : Row → Bool
is_pending r = elim r.response [ none ↦ true | some a ↦ false ]

abbrev pub is_stale : ℕ → Row → Bool
is_stale now r = is_pending r && ltb (r.created + pending_ms) now

abbrev pub is_at : (user : ℕ) → (path key : String) → Row → Bool
is_at user path key r = eqb r.user user && (r.path == path && r.key == key)

unfoldable pub find : (user : ℕ) → (path key : String) → List Row → Option Row
find user path key [] = none
find user path key (r ∷ rs) = if is_at user path key r then some r else find user path key rs

-- DELETE FROM idempotency_keys WHERE id = $1 AND response_status IS NULL
unfoldable pub discard : ℕ → List Row → List Row
discard id [] = []
discard id (r ∷ rs) =
    let others = discard id rs in if eqb r.id id && is_pending r then others else r ∷ others

-- UPDATE idempotency_keys SET response_status = $2, ... WHERE id = $1
unfoldable pub store : ℕ → Response → List Row → List Row
store id a [] = []
store id a (r ∷ rs) = (if eqb r.id id then record r { response = some a } else r) ∷ store id a rs

abbrev pub has_no_body : ℕ → Bool
has_no_body status = eqb status 204 || eqb status 205 || eqb status 304

abbrev pub without_body : Response → Response
without_body a = if has_no_body a.status then record a { body = "" } else a

-- `headers.set`, for each stored header: the last value of a name stays.
unfoldable pub set_headers : List (String × String) → Dict String String → Dict String String
set_headers [] headers = headers
set_headers ((name, value) ∷ more) headers = set_headers more (set name value headers)

-- The answer that is given from a row, with a content type where it has none.
unfoldable pub replay : Response → Response
replay a =
    let headers = set_headers a.headers [] in
    without_body (record a {
      headers =
          if any_of (λ h. h.0 == "content-type") headers
          then headers
          else set "content-type" "application/json; charset=utf-8" headers;
    })

abbrev pub new_row : ℕ → ℕ → Ask → Row
new_row id now a = record {
  id = id;
  user = a.user;
  path = a.path;
  key = a.key;
  hash = a.hash;
  response = none;
  created = now;
}

-- A row that is there and not stale.
abbrev pub answer_of : Ask → Row → Begun
answer_of a r =
    if not (r.hash == a.hash)
    then conflict
    else elim r.response [ none ↦ conflict | some old ↦ answer (replay old) ]

-- INSERT INTO idempotency_keys ... ON CONFLICT (user_id, method, path, key) DO NOTHING, none where it
-- returns no row
unfoldable pub insert_key : ℕ → ℕ → Ask → List Row → Option (List Row)
insert_key id now a t = elim (find a.user a.path a.key t) [
  | none ↦ some (new_row id now a ∷ t)
  | some r ↦ none
]

-- The insert, the read, the deletion of a stale row and the next attempt are statements of their own;
-- `meanwhile` is what other requests do between two of them.
unfoldable pub begin : (List Row → List Row) → List ℕ → ℕ → Ask → List Row → List Row × Begun
begin meanwhile [] now a t = (t, exhausted)
begin meanwhile (id ∷ ids) now a t = elim (insert_key id now a t) [
  | some tried ↦ (tried, run id)
  | none ↦
      let seen = meanwhile t in
      elim (find a.user a.path a.key seen) [
        | none ↦ (seen, missing)
        | some r ↦
            let again = begin meanwhile ids now a (meanwhile (discard r.id (meanwhile seen))) in
            if is_stale now r then again else (seen, answer_of a r)
      ]
]

-- The route's answer, none where it throws; `saved` is whether the update went through.
unfoldable pub finish : ℕ → Bool → Option Response → List Row → List Row × Option Response
finish id saved none t = (discard id t, none)
finish id saved (some a) t =
    if ltb a.status 200 || leb 300 a.status
    then (discard id t, some a)
    else (if saved then store id (without_body a) t else t, some (without_body a))
