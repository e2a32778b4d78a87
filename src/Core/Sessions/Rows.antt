-- ===== src/Core/Sessions/Rows.antt =====
-- The rows of services/core-api/src/routes/auth.ts after tokens are revoked.
use push_be.Prelude.{
  ℕ, String, ◌==◌, ◌≡◌, refl, subst, inl, inr, Bool, true, false, ◌&&◌, Option, none, some, List,
  [], ◌∷◌, arith, eqb, All, Bool-cases,
}
use push_be.Core.Sessions.{
  Refresh, Access, is_open, find_refresh, find_access, revoke_row, revoke, expire,
}

abbrev row_revoked : ℕ → (Refresh → Bool) → Option Refresh → Option Refresh
row_revoked now f none = none
row_revoked now f (some r) = some (revoke_row now f r)

revoke_row-hash : (now : ℕ) (f : Refresh → Bool) (r : Refresh) → (revoke_row now f r).hash ≡ r.hash
revoke_row-hash now f r = elim (Bool-cases (f r && is_open r)) [
  | inl e ↦ rw e refl
  | inr e ↦ rw e refl
]

pub revoke_row-closed :
    (now : ℕ) (f : Refresh → Bool) (r : Refresh) → f r ≡ true → is_open (revoke_row now f r) ≡ false
revoke_row-closed now f r h = elim (Bool-cases (is_open r)) [
  | inl e ↦ rw (h, e) refl
  | inr e ↦ rw (h, e) e
]

pub find_refresh-revoke :
    (now : ℕ) (f : Refresh → Bool) (hash : String) (rs : List Refresh)
    → find_refresh hash (revoke now f rs) ≡ row_revoked now f (find_refresh hash rs)
unfolding find_refresh revoke
find_refresh-revoke now f hash [] = refl
find_refresh-revoke now f hash (r ∷ rs) = elim (Bool-cases (r.hash == hash)) [
  | inl e ↦ rw (revoke_row-hash now f r, e) refl
  | inr e ↦ rw (revoke_row-hash now f r, e) (find_refresh-revoke now f hash rs)
]

-- Every refresh token of the user is revoked, and every access token expires at the time.
abbrev pub Ended : (user now : ℕ) → List Refresh → List Access → Type 0
Ended user now rs as' =
    All (λ r. (r.user ≡ user) → is_open r ≡ false) rs
    × All (λ a. (a.user ≡ user) → a.expires_at ≡ now) as'

pub revoke_user-All :
    (user now : ℕ) (rs : List Refresh)
    → All (λ r. (r.user ≡ user) → is_open r ≡ false) (revoke now (λ r. eqb r.user user) rs)
unfolding revoke
revoke_user-All user now [] = tt
revoke_user-All user now (r ∷ rs) = (
  elim (Bool-cases (eqb r.user user)) [
    | inl e ↦ λ h. revoke_row-closed now (λ s. eqb s.user user) r e
    | inr e ↦ rw e (λ h. absurd (ground (arith, e, h)))
  ],
  revoke_user-All user now rs,
)

pub expire_user-All :
    (user now : ℕ) (as' : List Access)
    → All (λ a. (a.user ≡ user) → a.expires_at ≡ now) (expire now (λ a. eqb a.user user) as')
unfolding expire
expire_user-All user now [] = tt
expire_user-All user now (a ∷ as') = (
  elim (Bool-cases (eqb a.user user)) [
    | inl e ↦ rw e (λ h. refl)
    | inr e ↦ rw e (λ h. absurd (ground (arith, e, h)))
  ],
  expire_user-All user now as',
)

pub find_access-All :
    (P : Access → Type 0) (hash : String) (as' : List Access) (a : Access)
    → All P as'
    → find_access hash as' ≡ some a
    → P a
unfolding find_access
find_access-All P hash [] a h k = cc
find_access-All P hash (b ∷ as') a (p, h) k = elim (Bool-cases (b.hash == hash)) [
  | inl e ↦ let same : b ≡ a = ground (arith, e) in subst P same p
  | inr e ↦ find_access-All P hash as' a h (ground (arith, e))
]

pub find_refresh-All :
    (P : Refresh → Type 0) (hash : String) (rs : List Refresh) (r : Refresh)
    → All P rs
    → find_refresh hash rs ≡ some r
    → P r
unfolding find_refresh
find_refresh-All P hash [] r h k = cc
find_refresh-All P hash (b ∷ rs) r (p, h) k = elim (Bool-cases (b.hash == hash)) [
  | inl e ↦ let same : b ≡ r = ground (arith, e) in subst P same p
  | inr e ↦ find_refresh-All P hash rs r h (ground (arith, e))
]
