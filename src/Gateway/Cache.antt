-- ===== src/Gateway/Cache.antt =====
-- services/gateway/src/middleware/cache.ts: the auth cache of one isolate, `createIsolateCache`.
-- The key is the token's hash; what is cached of the user is the type `U`.
pub mod Laws
use push_be.Prelude.{
  ℕ, ◌+◌, String, ◌==◌, eq_iff, Bool, Option, none, some, List, [], ◌∷◌, ◌++◌, ltb, leb,
  if◌then◌else◌, length,
}
use push_be.Prelude.Dict.{Eq, Dict, get, set, delete}

instance abbrev pub string_eq : Eq String
string_eq = record { beq = ◌==◌; beq_iff = eq_iff }

pub record Hit (U : Type 0) : Type 0 where
  pub user : U
  pub until : ℕ

abbrev pub Cache : Type 0 → Type 0
Cache U = Dict String (Hit U)

abbrev pub auth_cap : ℕ
auth_cap = 1024

module _ {U : Type 0} where
  -- An entry past its time is dropped when it is read.
  unfoldable pub get_auth : String → ℕ → Cache U → Cache U × Option U
  get_auth hash now auth = elim (get hash auth) [
    | none ↦ (auth, none)
    | some hit ↦ if leb hit.until now then (delete hash auth, none) else (auth, some hit.user)
  ]

  -- `while (auth.size > AUTH_CAP)`: the oldest entry, the first, is deleted.
  unfoldable pub evict : Cache U → Cache U
  evict [] = []
  evict (oldest ∷ others) =
      let fewer = evict others in
      if ltb auth_cap (length (oldest ∷ others)) then fewer else oldest ∷ others

  -- The entry is deleted first, so that it is written as the newest.
  unfoldable pub put_auth : String → U → (now ttl : ℕ) → Cache U → Cache U
  put_auth hash user now ttl auth =
      evict (set hash (record { user = user; until = now + ttl }) (delete hash auth))

  unfoldable pub drop_auth : String → Cache U → Cache U
  drop_auth hash auth = delete hash auth
