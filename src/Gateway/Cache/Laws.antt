-- ===== src/Gateway/Cache/Laws.antt =====
-- The size and the entries of the auth cache of services/gateway/src/middleware/cache.ts.
use push_be.Prelude.{
  ℕ, ◌+◌, ◌≤◌, String, ◌≡◌, refl, none, some, [], ◌∷◌, ◌++◌, arith, ltb, leb, if◌then◌else◌, length,
  Bool-cases, inl, inr, ◌∙◌, ap, ◌==◌,
}
use push_be.Prelude.Dict.{
  get, set, delete, Fresh, Fresh_delete_self, set_of_Fresh, get_last, get-delete,
}
use push_be.Gateway.Cache.{Hit, Cache, auth_cap, string_eq, get_auth, evict, put_auth, drop_auth}

module _ {U : Type 0} where
  length-evict-le : (m : Cache U) → length (evict m) ≤ auth_cap
  unfolding evict
  length-evict-le [] = omega arith
  length-evict-le (x ∷ m) = ground (arith, length-evict-le m)

  evict_small : (m : Cache U) → length m ≤ auth_cap → evict m ≡ m
  unfolding evict
  evict_small [] h = refl
  evict_small (x ∷ m) h = ground arith

  -- The newest entry is never the one that is evicted.
  evict-newest :
      (k : String) (h : Hit U) (m : Cache U)
      → Fresh k m
      → (kept : Cache U) × (evict (m ++ (k, h) ∷ []) ≡ kept ++ (k, h) ∷ []) × Fresh k kept
  unfolding evict
  evict-newest k h [] f = ([], refl, tt)
  evict-newest k h (y ∷ m) f = elim (Bool-cases (ltb auth_cap (length (y ∷ m ++ (k, h) ∷ [])))) [
    | inl e ↦ let (kept, same, fresh) = evict-newest k h m f.1 in (kept, rw e same, fresh)
    | inr e ↦ (y ∷ m, rw e refl, f)
  ]

-- However many tokens an isolate sees, the cache holds 1024 entries at most.
pub length-put_auth-le :
    {U : Type 0} (hash : String) (user : U) (now ttl : ℕ) (auth : Cache U)
    → length (put_auth hash user now ttl auth) ≤ auth_cap
unfolding put_auth
length-put_auth-le hash user now ttl auth = length-evict-le _

-- A user that was cached is given back until the time to live is over, when asked for before any other put or
-- drop; also where older entries had to make room.
pub get_auth-put_auth :
    {U : Type 0} (hash : String) (user : U) (now ttl later : ℕ) (auth : Cache U)
    → (get_auth hash later (put_auth hash user now ttl auth)).1
      ≡ (if leb (now + ttl) later then none else some user)
unfolding get_auth put_auth
get_auth-put_auth hash user now ttl later auth =
    let hit : Hit _ = record { user = user; until = now + ttl } in
    let fresh = Fresh_delete_self hash auth in
    let (kept, same, fresh_kept) = evict-newest hash hit (delete hash auth) fresh in
    let read : get hash (evict (set hash hit (delete hash auth))) ≡ some hit =
      ap (λ m. get hash (evict m)) (set_of_Fresh hash hit (delete hash auth) fresh)
      ∙ (ap (get hash) same ∙ get_last hash hit kept fresh_kept) in
    ground (arith, read)

-- After a logout on this isolate the token is not answered from the cache, and every other token is
-- answered as before.
pub get_auth-drop_auth :
    {U : Type 0} (hash other : String) (later : ℕ) (auth : Cache U)
    → (get_auth other later (drop_auth hash auth)).1
      ≡ (if hash == other then none else (get_auth other later auth).1)
unfolding get_auth drop_auth
get_auth-drop_auth hash other later auth = ground (arith, get-delete hash other auth)
