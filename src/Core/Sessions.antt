-- ===== src/Core/Sessions.antt =====
-- The tokens of services/core-api/src/routes/auth.ts: `issue`, `resolveUser`, `refresh` and `logout` over
-- the tables refresh_tokens and access_tokens. `digest` is sha256Hex; ids, new tokens and the time, in
-- milliseconds, are arguments. What other requests do between the two statements of `refresh` is the
-- argument `meanwhile`. The body of a request is its token, and a user is an id.
pub mod Rows
pub mod Reuse
pub mod Once
mod Examples
use push_be.Prelude.{
  ℕ, ◌+◌, String, ◌==◌, Bool, true, false, not, ◌&&◌, ◌||◌, Option, none, some, List, [], ◌∷◌, eqb,
  ltb, any_of, if◌then◌else◌,
}

-- refresh_tokens
pub record Refresh : Type 0 where
  pub id : ℕ
  pub user : ℕ
  pub hash : String
  pub expires_at : ℕ
  pub revoked_at : Option ℕ

-- access_tokens
pub record Access : Type 0 where
  pub user : ℕ
  pub hash : String
  pub refresh_id : ℕ
  pub expires_at : ℕ

pub record Db : Type 0 where
  pub refreshes : List Refresh
  pub accesses : List Access

-- REFRESH_MS
abbrev pub refresh_ms : ℕ
refresh_ms = 2592000000

-- ACCESS_TTL * 1000
abbrev pub access_ms : ℕ
access_ms = 900000

abbrev pub is_open : Refresh → Bool
is_open r = elim r.revoked_at [ none ↦ true | some t ↦ false ]

unfoldable pub find_refresh : String → List Refresh → Option Refresh
find_refresh hash [] = none
find_refresh hash (r ∷ rs) = if r.hash == hash then some r else find_refresh hash rs

unfoldable pub find_access : String → List Access → Option Access
find_access hash [] = none
find_access hash (a ∷ as') = if a.hash == hash then some a else find_access hash as'

-- `SET revoked_at = $2 WHERE ... AND revoked_at IS NULL`
abbrev pub revoke_row : ℕ → (Refresh → Bool) → Refresh → Refresh
revoke_row now where_row r =
    if where_row r && is_open r then record r { revoked_at = some now } else r

unfoldable pub revoke : ℕ → (Refresh → Bool) → List Refresh → List Refresh
revoke now where_row [] = []
revoke now where_row (r ∷ rs) = revoke_row now where_row r ∷ revoke now where_row rs

-- `UPDATE access_tokens SET expires_at = $2 WHERE ...`
unfoldable pub expire : ℕ → (Access → Bool) → List Access → List Access
expire now where_row [] = []
expire now where_row (a ∷ as') =
    (if where_row a then record a { expires_at = now } else a) ∷ expire now where_row as'

-- REVOKE_ALL
unfoldable pub revoke_all : (now user : ℕ) → Db → Db
revoke_all now user db = record {
  refreshes = revoke now (λ r. eqb r.user user) db.refreshes;
  accesses = expire now (λ a. eqb a.user user) db.accesses;
}

-- ROTATE_REFRESH, and whether it returns a row
unfoldable pub rotate : (now id : ℕ) → Db → Db × Bool
rotate now id db =
    if any_of (λ r. eqb r.id id && is_open r) db.refreshes
    then (
      record {
        refreshes = revoke now (λ r. eqb r.id id) db.refreshes;
        accesses = expire now (λ a. eqb a.refresh_id id) db.accesses;
      },
      true,
    )
    else (db, false)

-- The tokens that a sign-in makes.
pub record Pair : Type 0 where
  pub id : ℕ
  pub refresh : String
  pub access : String

unfoldable pub issue : (String → String) → (now user : ℕ) → Pair → Db → Db
issue digest now user p db = record {
  refreshes =
      record {
        id = p.id;
        user = user;
        hash = digest p.refresh;
        expires_at = now + refresh_ms;
        revoked_at = none;
      }
      ∷ db.refreshes;
  accesses =
      record {
        user = user;
        hash = digest p.access;
        refresh_id = p.id;
        expires_at = now + access_ms;
      }
      ∷ db.accesses;
}

pub data Error : Type 0 where
  unauthenticated token_expired : Error

pub data Result {ℓ} (A : Type ℓ) : Type ℓ where
  ok : A → Result A
  err : Error → Result A

pub record CoreEnv : Type 0 where
  pub development : Bool
  pub dev_token : String
  pub dev_user : Option ℕ

abbrev pub is_dev_token : CoreEnv → String → Bool
is_dev_token env token = env.development && not (env.dev_token == "") && token == env.dev_token

-- `dev_user` is none where the user of DEV_USER_ID is not seeded.
unfoldable pub resolve_user : (String → String) → CoreEnv → ℕ → String → Db → Result ℕ
resolve_user digest env now token db =
    if is_dev_token env token
    then elim env.dev_user [ none ↦ err unauthenticated | some u ↦ ok u ]
    else elim (find_access (digest token) db.accesses) [
      | none ↦ err unauthenticated
      | some a ↦ if ltb a.expires_at now then err token_expired else ok a.user
    ]

-- The statement that rotates the token, and what follows.
unfoldable pub exchange_token : (String → String) → ℕ → Pair → Refresh → Db → Db × Result ℕ
exchange_token digest now p r db =
    let (rotated, found) = rotate now r.id db in
    if found
    then (issue digest now r.user p rotated, ok r.user)
    else (revoke_all now r.user rotated, err unauthenticated)

unfoldable pub refresh_token :
    (String → String) → (Db → Db) → ℕ → Pair → String → Db → Db × Result ℕ
refresh_token digest meanwhile now p token db = elim (find_refresh (digest token) db.refreshes) [
  | none ↦ (db, err unauthenticated)
  | some r ↦
      if not (is_open r)
      then (revoke_all now r.user (meanwhile db), err unauthenticated)
      else if ltb r.expires_at now
      then (db, err token_expired)
      else exchange_token digest now p r (meanwhile db)
]

-- LOGOUT, where there is a token
unfoldable pub logout : (String → String) → ℕ → String → Db → Db
logout digest now token db = if token == "" then db else record {
  refreshes = revoke now (λ r. r.hash == digest token) db.refreshes;
  accesses =
      expire now (λ a. any_of (λ r. r.hash == digest token && eqb r.id a.refresh_id) db.refreshes)
        db.accesses;
}
