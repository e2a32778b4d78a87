-- ===== src/Core/Sessions/Reuse.antt =====
-- A refresh token that is used twice: services/core-api/src/routes/auth.ts.
use push_be.Prelude.{
  ℕ, ◌<◌, ◌⊎◌, String, ◌==◌, ◌≡◌, ◌≢◌, refl, inl, inr, Bool, true, false, not, ◌&&◌, Option, none,
  some, List, [], ◌∷◌, arith, eqb, eqb_iff, ltb, any_of, All, Bool-cases, Option-cases,
}
use push_be.Core.Sessions.{
  Refresh, Access, Db, is_open, find_refresh, find_access, revoke_all, rotate, Pair,
  unauthenticated, ok, err, CoreEnv, resolve_user, exchange_token, refresh_token,
}
use push_be.Core.Sessions.Rows.{
  Ended, revoke_user-All, expire_user-All, find_access-All, find_refresh-All,
}

-- The token is there and is revoked.
abbrev pub is_spent : String → Db → Bool
is_spent hash db = elim (find_refresh hash db.refreshes) [ none ↦ false | some r ↦ not (is_open r) ]

-- Other requests keep the id of a token and never open it again.
abbrev pub Kept : Option Refresh → Option Refresh → Type 0
Kept none b = Unit
Kept (some r) none = ⊥
Kept (some r) (some s) = (s.id ≡ r.id) × (is_open r ≡ false → is_open s ≡ false)

-- No id twice: the primary key.
abbrev pub Unique : List Refresh → Type 0
Unique [] = Unit
Unique (r ∷ rs) = All (λ s. s.id ≢ r.id) rs × Unique rs

abbrev pub HasEnded : (user now : ℕ) → Db → Type 0
HasEnded user now db = Ended user now db.refreshes db.accesses

revoke_all-HasEnded : (now user : ℕ) (db : Db) → HasEnded user now (revoke_all now user db)
unfolding revoke_all
revoke_all-HasEnded now user db =
    (revoke_user-All user now db.refreshes, expire_user-All user now db.accesses)

pub spent_row :
    (hash : String) (db : Db)
    → is_spent hash db ≡ true
    → (r : Refresh) × (find_refresh hash db.refreshes ≡ some r) × (is_open r ≡ false)
spent_row hash db h = elim (Option-cases (find_refresh hash db.refreshes)) [
  | inl e ↦ absurd (ground (arith, e))
  | inr (r, e) ↦ (r, e, ground (arith, e))
]

closed_elsewhere :
    (id : ℕ) (rs : List Refresh)
    → All (λ s. s.id ≢ id) rs
    → any_of (λ s. eqb s.id id && is_open s) rs ≡ false
closed_elsewhere id [] h = refl
closed_elsewhere id (s ∷ rs) (p, h) =
    let other : eqb s.id id ≡ false = ground (arith, p, eqb_iff s.id id) in
    rw other (closed_elsewhere id rs h)

-- The row with the id of a closed one is closed.
closed_id :
    (hash : String) (id : ℕ) (rs : List Refresh) (s : Refresh)
    → Unique rs
    → find_refresh hash rs ≡ some s
    → s.id ≡ id
    → is_open s ≡ false
    → any_of (λ r. eqb r.id id && is_open r) rs ≡ false
unfolding find_refresh
closed_id hash id [] s u f e c = cc
closed_id hash id (r ∷ rs) s (p, u) f e c = elim (Bool-cases (r.hash == hash)) [
  | inl k ↦
      let same : r ≡ s = ground (arith, k) in
      let closed : is_open r ≡ false = rw same c in
      let at : r.id ≡ id = rw same e in ground (arith, closed, closed_elsewhere id rs (rw (← at) p))
  | inr k ↦
      let there : find_refresh hash rs ≡ some s = ground (arith, k) in
      let other : s.id ≢ r.id = find_refresh-All (λ t. t.id ≢ r.id) hash rs s p there in
      let apart : eqb r.id id ≡ false = ground (arith, other, e, eqb_iff r.id id) in
      ground (arith, apart, closed_id hash id rs s u there e c)
]

exchange_token_lost :
    (digest : String → String) (now : ℕ) (p : Pair) (r : Refresh) (db : Db)
    → any_of (λ s. eqb s.id r.id && is_open s) db.refreshes ≡ false
    → exchange_token digest now p r db ≡ (revoke_all now r.user db, err unauthenticated)
unfolding exchange_token rotate
exchange_token_lost digest now p r db e = rw (exchange_token, rotate, e) refl

pub Kept-row :
    (o o' : Option Refresh) (r s : Refresh)
    → o ≡ some r
    → o' ≡ some s
    → Kept o o'
    → (s.id ≡ r.id) × (is_open r ≡ false → is_open s ≡ false)
Kept-row none o' r s e f k = cc
Kept-row (some x) none r s e f k = cc
Kept-row (some x) (some y) r s e f (i, k) =
    let a : x ≡ r = cc in let b : y ≡ s = cc in (rw (← a, ← b) i, rw (← a, ← b) k)

-- Of two refreshes with one token, the one whose token the other has used by the time it writes is
-- refused, and every token of the user is then revoked or expired.
pub refresh_token_race :
    (digest : String → String) (meanwhile : Db → Db) (now : ℕ) (p : Pair) (token : String) (db : Db)
    (r : Refresh)
    → find_refresh (digest token) db.refreshes ≡ some r
    → (r.expires_at < now → ⊥)
    → Kept
        (find_refresh (digest token) db.refreshes)
        (find_refresh (digest token) (meanwhile db).refreshes)
    → Unique (meanwhile db).refreshes
    → is_spent (digest token) (meanwhile db) ≡ true
    → ((refresh_token digest meanwhile now p token db).1 ≡ err unauthenticated)
      × HasEnded r.user now (refresh_token digest meanwhile now p token db).0
unfolding refresh_token
refresh_token_race digest meanwhile now p token db r found in_time kept unique spent =
    elim (Bool-cases (is_open r)) [
      | inr e ↦ rw (refresh_token, found, e) (refl, revoke_all-HasEnded now r.user (meanwhile db))
      | inl e ↦
          let (s, there, closed) = spent_row (digest token) (meanwhile db) spent in
          let (same_id, shut) =
            Kept-row (find_refresh (digest token) db.refreshes)
              (find_refresh (digest token) (meanwhile db).refreshes) r s found there kept in
          let none_open =
            closed_id (digest token) r.id (meanwhile db).refreshes s unique there same_id closed in
          let late : ltb r.expires_at now ≡ false = ground (arith, in_time) in
          rw
            (
              refresh_token,
              found,
              e,
              late,
              exchange_token_lost digest now p r (meanwhile db) none_open,
            )
            (refl, revoke_all-HasEnded now r.user (meanwhile db))
    ]

-- No token of the user is good at the time: each refresh token is revoked or has run out, and each access
-- token has run out.
abbrev pub IsOut : (user at : ℕ) → Db → Type 0
IsOut user at db =
    All (λ r. (r.user ≡ user) → (is_open r ≡ false) ⊎ (r.expires_at < at)) db.refreshes
    × All (λ a. (a.user ≡ user) → a.expires_at < at) db.accesses

refreshes_out :
    (user at : ℕ) (rs : List Refresh)
    → All (λ r. (r.user ≡ user) → is_open r ≡ false) rs
    → All (λ r. (r.user ≡ user) → (is_open r ≡ false) ⊎ (r.expires_at < at)) rs
refreshes_out user at [] h = tt
refreshes_out user at (r ∷ rs) (p, h) = (λ e. inl (p e), refreshes_out user at rs h)

accesses_out :
    (user now at : ℕ) (as' : List Access)
    → now < at
    → All (λ a. (a.user ≡ user) → a.expires_at ≡ now) as'
    → All (λ a. (a.user ≡ user) → a.expires_at < at) as'
accesses_out user now at [] l h = tt
accesses_out user now at (a ∷ as') l (p, h) =
    (λ e. let ended = p e in omega (arith, ended, l), accesses_out user now at as' l h)

-- After everything of a user is revoked.
pub HasEnded-IsOut :
    (user now at : ℕ) (db : Db) → HasEnded user now db → now < at → IsOut user at db
HasEnded-IsOut user now at db (rs, as') l =
    (refreshes_out user at db.refreshes rs, accesses_out user now at db.accesses l as')

-- Where each refresh token of a user is revoked or has run out, and each access token has run out, no request
-- outside development is one of the user's: no access token signs the user in, and no refresh token
-- is exchanged, whatever comes between its read and its write.
pub signed_out :
    (digest : String → String) (env : CoreEnv) (user later : ℕ) (db : Db)
    → IsOut user later db
    → env.development ≡ false
    → ((token : String) → resolve_user digest env later token db ≢ ok user)
      × ((meanwhile : Db → Db) (p : Pair) (token : String)
          → (refresh_token digest meanwhile later p token db).1 ≢ ok user)
unfolding resolve_user refresh_token exchange_token
signed_out digest env user later db (rs, as') dev = (no_access, no_refresh)
  where
    no_access : (token : String) → resolve_user digest env later token db ≢ ok user
    no_access token h = elim (Option-cases (find_access (digest token) db.accesses)) [
      | inl e ↦ absurd (ground (arith, e))
      | inr (a, e) ↦ elim (Bool-cases (ltb a.expires_at later)) [
        | inl x ↦ absurd (ground (arith, e, x))
        | inr x ↦
            let mine : a.user ≡ user = ground (arith, e, x) in
            let ended =
              find_access-All (λ b. (b.user ≡ user) → b.expires_at < later) (digest token)
                db.accesses a as' e in
            absurd (ground (arith, ended mine, x))
      ]
    ]

    no_refresh :
        (meanwhile : Db → Db) (p : Pair) (token : String)
        → (refresh_token digest meanwhile later p token db).1 ≢ ok user
    no_refresh meanwhile p token h =
        elim (Option-cases (find_refresh (digest token) db.refreshes)) [
          | inl e ↦ absurd (ground (arith, e))
          | inr (r, e) ↦ elim (Bool-cases (is_open r)) [
            | inr x ↦ absurd (ground (arith, e, x))
            | inl x ↦ elim (Bool-cases (ltb r.expires_at later)) [
              | inl y ↦ absurd (ground (arith, e, x, y))
              | inr y ↦ elim (Bool-cases (rotate later r.id (meanwhile db)).1) [
                | inr z ↦ absurd (ground (arith, e, x, y, z))
                | inl z ↦
                    let mine : r.user ≡ user = ground (arith, e, x, y, z) in
                    let ended =
                      find_refresh-All
                        (λ b. (b.user ≡ user) → (is_open b ≡ false) ⊎ (b.expires_at < later))
                        (digest token) db.refreshes r rs e in
                    absurd (ground (arith, ended mine, x, y))
              ]
            ]
          ]
        ]
