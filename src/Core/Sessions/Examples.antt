-- ===== src/Core/Sessions/Examples.antt =====
-- The theorems on sessions at concrete inputs.
use push_be.Prelude.{String, ◌≡◌, ◌≢◌, refl, true, false, Option, none, some, [], arith}
use push_be.Core.Sessions.{
  Refresh, Db, CoreEnv, Pair, ok, err, unauthenticated, find_refresh, find_access, revoke, expire,
  revoke_all, rotate, issue, resolve_user, exchange_token, refresh_token, logout,
}
use push_be.Core.Sessions.Reuse.{
  is_spent, Kept, Unique, HasEnded, refresh_token_race, HasEnded-IsOut, signed_out,
}
use push_be.Core.Sessions.Once.{refresh_token_once}

abbrev digest : String → String
digest s = s

abbrev start : Db
start = record { refreshes = []; accesses = [] }

abbrev pair_1 : Pair
pair_1 = record { id = 1; refresh = "r1"; access = "a1" }

abbrev pair_2 : Pair
pair_2 = record { id = 2; refresh = "r2"; access = "a2" }

abbrev pair_3 : Pair
pair_3 = record { id = 3; refresh = "r3"; access = "a3" }

abbrev production : CoreEnv
production = record { development = false; dev_token = ""; dev_user = none }

-- User 7 has signed in.
abbrev signed : Db
signed = issue digest 1000 7 pair_1 start

abbrev row_1 : Refresh
row_1 = record { id = 1; user = 7; hash = "r1"; expires_at = 2592001000; revoked_at = none }

abbrev alone : Db → Db
alone db = db

-- The token is exchanged in between.
abbrev other_first : Db → Db
other_first db = (refresh_token digest alone 2000 pair_2 "r1" db).0

-- What a refresh with "r1" leaves.
abbrev refreshed : Db
refreshed = (refresh_token digest alone 2000 pair_2 "r1" signed).0

run_sessions : Unit {0}
unfolding find_refresh find_access revoke expire revoke_all rotate issue resolve_user exchange_token
    refresh_token logout
run_sessions = tt

refreshes : (refresh_token digest alone 2000 pair_2 "r1" signed).1 ≡ ok 7
unfolding run_sessions
refreshes = refl

new_token_works : resolve_user digest production 2500 "a2" refreshed ≡ ok 7
unfolding run_sessions
new_token_works = refl

found : find_refresh "r1" signed.refreshes ≡ some row_1
unfolding run_sessions
found = refl

Kept-refl : (o : Option Refresh) → Kept o o
Kept-refl none = tt
Kept-refl (some r) = (refl, λ h. h)

keeps_itself : (d : Db) → Kept (find_refresh "r1" d.refreshes) (find_refresh "r1" d.refreshes)
keeps_itself d = Kept-refl (find_refresh "r1" d.refreshes)

Kept-row_1 : Kept (find_refresh "r1" signed.refreshes) (find_refresh "r1" refreshed.refreshes)
unfolding run_sessions
Kept-row_1 = (refl, λ h. refl)

refresh_token_once_example : (refresh_token digest alone 3000 pair_3 "r1" refreshed).1 ≢ ok 7
refresh_token_once_example =
    refresh_token_once digest alone alone 2000 3000 pair_2 pair_3 "r1" signed refreshed 7 7 refl
      keeps_itself refreshes (λ h. h)

spent_first : is_spent "r1" (other_first signed) ≡ true
unfolding run_sessions
spent_first = refl

two_ids : Unique (other_first signed).refreshes
unfolding run_sessions
two_ids = ((λ h. absurd (omega (arith, h)), tt), (tt, tt))

refresh_token_race_example :
    ((refresh_token digest other_first 2000 pair_3 "r1" signed).1 ≡ err unauthenticated)
    × HasEnded 7 2000 (refresh_token digest other_first 2000 pair_3 "r1" signed).0
refresh_token_race_example =
    refresh_token_race digest other_first 2000 pair_3 "r1" signed row_1 found
      (λ h. absurd (omega (arith, h))) Kept-row_1 two_ids spent_first

race_ends : HasEnded 7 2000 (refresh_token digest other_first 2000 pair_3 "r1" signed).0
race_ends =
    (refresh_token_race digest other_first 2000 pair_3 "r1" signed row_1 found
      (λ h. absurd (omega (arith, h))) Kept-row_1 two_ids spent_first).1

signed_out_example :
    ((token : String)
      → resolve_user digest production 2001 token
          (refresh_token digest other_first 2000 pair_3 "r1" signed).0
        ≢ ok 7)
    × ((meanwhile : Db → Db) (p : Pair) (token : String)
        → (refresh_token digest meanwhile 2001 p token
            (refresh_token digest other_first 2000 pair_3 "r1" signed).0).1
          ≢ ok 7)
signed_out_example =
    signed_out digest production 7 2001 (refresh_token digest other_first 2000 pair_3 "r1" signed).0
      (HasEnded-IsOut 7 2000 2001 (refresh_token digest other_first 2000 pair_3 "r1" signed).0
        race_ends (omega arith))
      refl

logged_out : is_spent "r1" (logout digest 5000 "r1" signed) ≡ true
unfolding run_sessions
logged_out = refl
