-- ===== src/Gateway/Examples.antt =====
-- The gateway's theorems at concrete inputs, and runs of its functions.
use push_be.Prelude.{
  ℕ, ap, sym, ◌+◌, ◌-◌, ◌≤◌, ◌<◌, String, ◌≡◌, refl, true, false, none, some, List, [], ◌∷◌, arith,
  max, if◌then◌else◌, leb, length,
}
use push_be.Prelude.Dict.{get, set}
use push_be.Gateway.Window.{or_empty}
use push_be.Gateway.Cache.{Cache, get_auth, put_auth}
use push_be.Gateway.Cache.Laws.{get_auth-put_auth}
use push_be.Routing.{matches, split_slash, decide}
use push_be.Gateway.Owner.{core, ambiguous, internal, is_python, is_core, is_recruiting, owner_of}
use push_be.Gateway.Owner.Rules.{python_rules, core_rules, recruiting_rules}
use push_be.Gateway.Owner.Laws.{api, is_core_of_is_python, owner_of-IsForwarded}
use push_be.Gateway.Counter.{claim}
use push_be.Gateway.Counter.Laws.{count, granted_of, claim_exact, claim_bounded, claim_progress}
use push_be.Gateway.Lease.{
  Key, Lease, Isolate, key_eq, read_cap, accept_grant, release_expired, release_where,
  remember_hits, arm_release, worth_returning, release_delay, next_batch,
}
use push_be.Gateway.Auth.{State, window_of, with_hash, with_lease, take_expired}
use push_be.Gateway.Auth.Accounts.{Owned, used, with_hash_accounts}
use push_be.Gateway.Quota.{Sys, admitted, asks, one_if, request, claiming, answer, here, next}
use push_be.Gateway.Quota.Safety.{start, served-le-limit}
use push_be.Gateway.Lease.Totals.{outstanding, returned}

abbrev bucket : Key
bucket = record { kind = "user"; owner = "ann"; window = 0 }

abbrev no_leases : Isolate
no_leases = record { hits = []; remote_hits = []; leases = []; timers = [] }

abbrev fresh : State ℕ
fresh = record { isolate = no_leases; auth = [] }

-- The first request finds no lease and asks for one.
abbrev asked : Sys ℕ
asked =
    let o = with_hash (λ (until : ℕ). until) true 600 "hash" 7 fresh in
    record (start (fresh ∷ [])) {
      isolates = o.state ∷ [];
      returning = 0 + returned bucket o.returns;
      asked = 0 + asks o.ctx;
      served = 0 + admitted o.ctx;
    }

-- The counter grants a batch of eight.
abbrev claimed : Sys ℕ
claimed =
    let c = claim (read_cap 600) 8 0 asked.row in
    record asked { row = c.0; asked = asked.asked - 0; granted = asked.granted + granted_of c.1 }

-- The answer admits the request, and leaves seven hits in the lease.
abbrev answered : Sys ℕ
answered =
    let key : Key = record { kind = "user"; owner = "hash"; window = 0 } in
    let s : State ℕ = (with_hash (λ (until : ℕ). until) true 600 "hash" 7 fresh).state in
    let a = accept_grant true key (some 8) (some 8) (read_cap 600) 9 bucket s.isolate in
    record claimed {
      isolates = record s { isolate = a.0 } ∷ [];
      granted = claimed.granted - 8;
      served = claimed.served + one_if a.1;
    }

run : Unit {0}
unfolding with_hash with_lease take_expired release_expired release_where get_auth get set claim
    read_cap accept_grant remember_hits arm_release worth_returning release_delay next_batch
run = tt

answered_once : (answered.served ≡ 1) × (answered.row ≡ some 8)
unfolding run
answered_once = (refl, refl)

nothing-Owned :
    Owned bucket (record { kind = "user"; owner = "hash"; window = window_of 7 }) no_leases
unfolding get
nothing-Owned l h = cc

still_nothing-Owned :
    Owned bucket
      (record { kind = "user"; owner = "hash"; window = 0 })
      (with_hash (λ (until : ℕ). until) true 600 "hash" 7 fresh).state.isolate
unfolding run
still_nothing-Owned l h = cc

eight_granted : 8 ≤ claimed.granted
unfolding run
eight_granted = omega arith

served-le-limit_example :
    (answered.served + answered.python ≤ 600)
    × (answered.served + answered.python ≤ count answered.row)
served-le-limit_example =
    served-le-limit (λ (until : ℕ). until) true 600 bucket (fresh ∷ []) answered (omega arith)
      (refl, tt)
      (next
        (next (next here (request [] [] fresh "hash" 7 refl nothing-Owned refl))
          (claiming 8 0 (omega arith) refl))
        (answer [] [] _ (record { kind = "user"; owner = "hash"; window = 0 }) (some 8) 8 9 refl
          still_nothing-Owned eight_granted refl))

routes_run : Unit {0}
unfolding owner_of ambiguous is_python is_core is_recruiting python_rules core_rules
    recruiting_rules decide matches split_slash
routes_run = tt

me_at_core : owner_of "GET" "/api/v1/me/profile" ≡ core
unfolding routes_run
me_at_core = refl

owner_of-IsForwarded_example :
    (ambiguous "/api/v1/me/profile" ≡ false)
    × (matches internal (split_slash "/api/v1/me/profile") ≡ false)
    × (matches api (split_slash "/api/v1/me/profile") ≡ true)
owner_of-IsForwarded_example =
    owner_of-IsForwarded "GET" "/api/v1/me/profile" (λ h. cc (me_at_core, h))

abbrev revise_parts : List String
revise_parts = split_slash "/api/v1/documents/7/revisions"

revise_at_python : is_python "POST" revise_parts ≡ true
unfolding routes_run
revise_at_python = refl

is_core_of_is_python_example : is_core "POST" revise_parts ≡ false
is_core_of_is_python_example = is_core_of_is_python "POST" revise_parts revise_at_python

claim_exact_example :
    count (claim 540 8 3 (some 100)).0 + 3 ≡ 100 + granted_of (claim 540 8 3 (some 100)).1
claim_exact_example = claim_exact 540 8 3 (some 100) (omega arith)

claim_bounded_example :
    (count (claim 540 8 0 (some 538)).0 ≤ max 540 538)
    × (granted_of (claim 540 8 0 (some 538)).1 ≤ 8)
claim_bounded_example = claim_bounded 540 8 0 (some 538)

claim_progress_example : 0 < granted_of (claim 540 1 0 (some 539)).1
claim_progress_example = claim_progress 540 1 0 (some 539) (omega arith) (omega arith) (omega arith)

abbrev two_users : Cache ℕ
two_users = put_auth "b" 8 2000 60000 (put_auth "a" 7 1000 60000 [])

get_auth-put_auth_example :
    (get_auth "a" 70000 (put_auth "a" 9 3000 60000 two_users)).1
    ≡ (if leb (3000 + 60000) 70000 then none else some 9)
get_auth-put_auth_example = get_auth-put_auth "a" 9 3000 60000 70000 two_users

-- An isolate that holds three hits of ann's bucket.
abbrev ann : Key
ann = record { kind = "user"; owner = "hash"; window = 0 }

abbrev three_left : Lease
three_left = record {
  remaining = 3;
  size = 4;
  expires_at = 5000;
  spent = false;
  bucket = bucket;
  timer = 1;
  hits = 4;
  cap = 540;
}

abbrev leased : State ℕ
leased = record fresh { isolate = record no_leases { leases = (ann, three_left) ∷ [] } }

leased-Owned : Owned bucket ann leased.isolate
unfolding get
leased-Owned l h = ap (λ o. elim o [ none ↦ bucket | some k ↦ k.bucket ]) (sym h)

with_hash_accounts_example :
    (let o = with_hash (λ (until : ℕ). until) true 600 "hash" 7 leased in
      outstanding bucket o.state.isolate + returned bucket o.returns + used o.ctx
      ≡ outstanding bucket leased.isolate)
with_hash_accounts_example =
    with_hash_accounts bucket (λ (until : ℕ). until) true 600 "hash" 7 leased leased-Owned (tt, tt)

abbrev two_hits : Isolate
two_hits = record no_leases { hits = (bucket, 1000 ∷ 2000 ∷ []) ∷ [] }

two_remembered : length (or_empty (get bucket two_hits.hits)) ≤ 3
unfolding get
two_remembered = omega arith
