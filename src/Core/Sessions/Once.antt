-- ===== src/Core/Sessions/Once.antt =====
-- Refreshes with one token, and logouts: services/core-api/src/routes/auth.ts.
use push_be.Prelude.{
  ℕ, String, ◌==◌, ◌≡◌, ◌≢◌, refl, sym, ap, ◌∙◌, true, false, ◌&&◌, Option, none, some, List, [],
  ◌∷◌, arith, eqb, eqb_iff, ltb, any_of, Bool-cases, Option-cases, inl, inr,
}
use push_be.Core.Sessions.{
  Refresh, Db, is_open, find_refresh, revoke, rotate, Pair, issue, Result, ok, exchange_token,
  refresh_token, logout,
}
use push_be.Core.Sessions.Rows.{find_refresh-revoke, revoke_row-closed}
use push_be.Core.Sessions.Reuse.{is_spent, spent_row, Kept}

exchange_token-ok :
    (digest : String → String) (now : ℕ) (p : Pair) (r : Refresh) (db : Db) (u : ℕ)
    → (exchange_token digest now p r db).1 ≡ ok u
    → (exchange_token digest now p r db
        ≡ (issue digest now r.user p (rotate now r.id db).0, ok r.user))
      × ((rotate now r.id db).0.refreshes ≡ revoke now (λ s. eqb s.id r.id) db.refreshes)
unfolding exchange_token rotate
exchange_token-ok digest now p r db u h =
    elim (Bool-cases (any_of (λ s. eqb s.id r.id && is_open s) db.refreshes)) [
      | inr e ↦ absurd (ground (arith, e))
      | inl e ↦ (rw (exchange_token, rotate, e) refl, rw (rotate, e) refl)
    ]

is_spent-issue :
    (digest : String → String) (now user : ℕ) (p : Pair) (hash : String) (db : Db)
    → (digest p.refresh == hash) ≡ false
    → is_spent hash db ≡ true
    → is_spent hash (issue digest now user p db) ≡ true
unfolding issue find_refresh
is_spent-issue digest now user p hash db fresh h = rw (is_spent, fresh) h

spent_by_rotation :
    (now id : ℕ) (hash : String) (db after : Db) (s : Refresh)
    → find_refresh hash db.refreshes ≡ some s
    → s.id ≡ id
    → after.refreshes ≡ revoke now (λ t. eqb t.id id) db.refreshes
    → is_spent hash after ≡ true
spent_by_rotation now id hash db after s there same h =
    let at : eqb s.id id ≡ true = ground (arith, same, eqb_iff s.id id) in
    let closed = revoke_row-closed now (λ t. eqb t.id id) s at in
    let found = find_refresh-revoke now (λ t. eqb t.id id) hash db.refreshes in
    rw (is_spent, h, found, there, closed) refl

-- A refresh that succeeds uses up its token, which was open and in time: the token is there and revoked
-- after it, if the new token is another one and the requests in between keep the token's row.
pub refresh_token_spent :
    (digest : String → String) (meanwhile : Db → Db) (now : ℕ) (p : Pair) (token : String) (db : Db)
    (u : ℕ)
    → (digest p.refresh == digest token) ≡ false
    → ((d : Db)
        → Kept
            (find_refresh (digest token) d.refreshes)
            (find_refresh (digest token) (meanwhile d).refreshes))
    → (refresh_token digest meanwhile now p token db).1 ≡ ok u
    → (is_spent (digest token) (refresh_token digest meanwhile now p token db).0 ≡ true)
      × ((r : Refresh) × (find_refresh (digest token) db.refreshes ≡ some r)
          × (r.user ≡ u)
          × (is_open r ≡ true)
          × (ltb r.expires_at now ≡ false))
unfolding refresh_token
refresh_token_spent digest meanwhile now p token db u fresh kept h =
    elim (Option-cases (find_refresh (digest token) db.refreshes)) [
      | inl e ↦ absurd (ground (arith, e))
      | inr (r, e) ↦ elim (Bool-cases (is_open r)) [
        | inr x ↦ absurd (ground (arith, e, x))
        | inl x ↦ elim (Bool-cases (ltb r.expires_at now)) [
          | inl y ↦ absurd (ground (arith, e, x, y))
          | inr y ↦
              let step : refresh_token digest meanwhile now p token db
                  ≡ exchange_token digest now p r (meanwhile db) =
                rw (refresh_token, e, x, y) refl in
              let (result, rows) =
                exchange_token-ok digest now p r (meanwhile db) u (ap (λ q. q.1) (sym step) ∙ h) in
              let (s, there, same) =
                still_there (find_refresh (digest token) db.refreshes)
                  (find_refresh (digest token) (meanwhile db).refreshes) r e (kept db) in
              let spent =
                spent_by_rotation now r.id (digest token) (meanwhile db)
                  (rotate now r.id (meanwhile db)).0 s there same rows in
              let answer : ◌≡◌ {A = Result ℕ} (ok r.user) (ok u) =
                ap (λ q. q.1) (sym (step ∙ result)) ∙ h in
              (
                rw (step, result)
                    (is_spent-issue digest now r.user p (digest token)
                      (rotate now r.id (meanwhile db)).0 fresh spent),
                (r, e, ground (arith, answer), x, y),
              )
        ]
      ]
    ]
  where
    still_there :
        (o o' : Option Refresh) (r : Refresh)
        → o ≡ some r
        → Kept o o'
        → (s : Refresh) × (o' ≡ some s) × (s.id ≡ r.id)
    still_there none o' r e k = cc
    still_there (some x) none r e k = absurd k
    still_there (some x) (some y) r e (i, k) = let same : x ≡ r = cc in (y, refl, rw (← same) i)

-- A refresh token is exchanged once: after a refresh that succeeds, no refresh with the same token
-- does, under the same conditions and while the token stays revoked.
pub refresh_token_once :
    (digest : String → String) (meanwhile meanwhile' : Db → Db) (now now' : ℕ) (p p' : Pair)
    (token : String) (db db' : Db) (u v : ℕ)
    → (digest p.refresh == digest token) ≡ false
    → ((d : Db)
        → Kept
            (find_refresh (digest token) d.refreshes)
            (find_refresh (digest token) (meanwhile d).refreshes))
    → (refresh_token digest meanwhile now p token db).1 ≡ ok u
    → (is_spent (digest token) (refresh_token digest meanwhile now p token db).0 ≡ true
        → is_spent (digest token) db' ≡ true)
    → (refresh_token digest meanwhile' now' p' token db').1 ≢ ok v
unfolding refresh_token
refresh_token_once digest meanwhile meanwhile' now now' p p' token db db' u v fresh kept h stays k =
    let spent = stays (refresh_token_spent digest meanwhile now p token db u fresh kept h).0 in
    let (r, e, closed) = spent_row (digest token) db' spent in absurd (ground (arith, e, closed))

-- After a logout the refresh token is revoked.
pub logout-is_spent :
    (digest : String → String) (now : ℕ) (token : String) (db : Db) (r : Refresh)
    → (token == "") ≡ false
    → find_refresh (digest token) db.refreshes ≡ some r
    → is_spent (digest token) (logout digest now token db) ≡ true
unfolding logout find_refresh
logout-is_spent digest now token db r given h =
    let closed =
      revoke_row-closed now (λ s. s.hash == digest token) r
        (the_hash (digest token) db.refreshes r h) in
    let found = find_refresh-revoke now (λ s. s.hash == digest token) (digest token) db.refreshes in
    rw (is_spent, logout, given, found, h, closed) refl
  where
    the_hash :
        (hash : String) (rs : List Refresh) (r : Refresh)
        → find_refresh hash rs ≡ some r
        → (r.hash == hash) ≡ true
    the_hash hash [] r h = cc
    the_hash hash (s ∷ rs) r h = elim (Bool-cases (s.hash == hash)) [
      | inl e ↦ let same : s ≡ r = ground (arith, e) in rw (← same) e
      | inr e ↦ the_hash hash rs r (ground (arith, e))
    ]
