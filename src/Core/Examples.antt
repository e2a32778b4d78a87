-- ===== src/Core/Examples.antt =====
-- Core's theorems at concrete inputs, and runs of its functions.
use push_be.Prelude.{
  ◌<◌, String, ◌≡◌, ◌≢◌, refl, true, false, Option, none, some, [], arith, ◌==◌, ◌⊎◌, if◌then◌else◌,
}
use push_be.Prelude.Int.{pos, ◌+ℤ◌, ◌-ℤ◌, ◌≤ℤ◌}
use push_be.Routing.{decide, split_slash, matches}
use push_be.Gateway.Owner.{core, ambiguous, owner_of}
use push_be.Core.ActAs.{
  Request, act_as_routes, act_as_allowed, act_as_of, ok as acted, secret_matches, with_company,
}
use push_be.Core.ActAs.Laws.{owner_of-act_as_allowed, act_as_of_sound}
use push_be.Core.Jobs.Config.{chat, q_chat, free, personal, estimate_micro, queue_for}
use push_be.Core.Jobs.Database.{Db, newest, reserved_sum}
use push_be.Core.Jobs.Credits.{
  owner_of as credits_of, available_micro, settled_micro, reserved_micro, reserve_credits,
  grant_micro, ensure_monthly_grant,
}
use push_be.Core.Jobs.Credits.Grants.{ensure_monthly_grant_idempotent}
use push_be.Core.Jobs.Enqueue.{
  Input, Fresh, ok, enqueue_job, enqueue_new, with_grant, write_job, insert_job, find_job,
  conflicting,
}
use push_be.Core.Jobs.Enqueue.Holds.{AllHeld, enqueue_job-AllHeld, enqueue_job-Covered}

run_routes : Unit {0}
unfolding act_as_allowed act_as_routes decide split_slash matches ambiguous act_as_of secret_matches
    with_company
run_routes = tt

apply_allowed : act_as_allowed "POST" "/api/v1/postings/9/apply" ≡ true
unfolding run_routes
apply_allowed = refl

apply_plain : ambiguous "/api/v1/postings/9/apply" ≡ false
unfolding run_routes
apply_plain = refl

owner_of-act_as_allowed_example : owner_of "POST" "/api/v1/postings/9/apply" ≡ core
owner_of-act_as_allowed_example =
    owner_of-act_as_allowed "POST" "/api/v1/postings/9/apply" apply_allowed apply_plain

-- A UUID is any text but "" here, and the user of a company is named like it.
abbrev parse : String → Option String
parse s = if s == "" then none else some s

abbrev acme : Option String
acme = some "acme"

abbrev apply_request : Request
apply_request = record {
  method = "POST";
  path = "/api/v1/postings/9/apply";
  secret = some "s3cret";
  act_as = some "ann";
  company = some "acme";
}

acts_for_ann :
    act_as_of parse (λ u c. u == "ann") "s3cret" apply_request ≡ acted (some ("ann", some "acme"))
unfolding run_routes
acts_for_ann = refl

act_as_of_sound_example :
    (apply_request.secret ≡ some "s3cret")
    × (◌≢◌ {A = String} "s3cret" "")
    × (act_as_allowed apply_request.method apply_request.path ≡ true)
    × (id : String) × (apply_request.act_as ≡ some id)
    × (parse id ≡ some "ann")
    × ((acme ≡ none)
        ⊎ ((c : String) × (name : String) × (apply_request.company ≡ some name)
            × (parse name ≡ some c)
            × (acme ≡ some c)
            × (("ann" == "ann") ≡ true)))
act_as_of_sound_example =
    act_as_of_sound parse (λ u c. u == "ann") "s3cret" apply_request "ann" acme acts_for_ann

abbrev empty_db : Db
empty_db = record {
  ledger = [];
  usage = none;
  reservations = [];
  jobs = [];
  outbox = [];
  members = [];
}

abbrev granted_db : Db
granted_db = ensure_monthly_grant personal "FREE" 7 1 "monthly:2026-01" 5 empty_db

ensure_monthly_grant_idempotent_example :
    ensure_monthly_grant personal "PRO" 7 2 "monthly:2026-01" 9 granted_db ≡ granted_db
unfolding grant_micro
ensure_monthly_grant_idempotent_example =
    ensure_monthly_grant_idempotent personal "FREE" "PRO" 7 1 2 "monthly:2026-01" 5 9 empty_db
      granted_db [] (omega arith) refl

abbrev chat_input : Input
chat_input = record {
  type = chat;
  user = 7;
  company = none;
  plan = free;
  idempotency_key = some "k1";
}

abbrev first_ids : Fresh
first_ids = record { job = 1; entry = 2; month = "monthly:2026-01"; now = 5 }

abbrev later_ids : Fresh
later_ids = record { job = 3; entry = 4; month = "monthly:2026-02"; now = 99 }

run_jobs : Unit {0}
unfolding enqueue_job enqueue_new with_grant write_job insert_job find_job reserve_credits
    available_micro settled_micro reserved_micro grant_micro ensure_monthly_grant newest ◌-ℤ◌ ◌+ℤ◌
    estimate_micro queue_for reserved_sum
run_jobs = tt

chat_queued : (enqueue_job first_ids (λ d. d) chat_input empty_db).1 ≡ ok 1 q_chat
unfolding run_jobs
chat_queued = refl

nothing_conflicts : conflicting 7 (some "k1") empty_db.jobs ≡ none
unfolding run_jobs
nothing_conflicts = refl

chat_costs : 0 < estimate_micro chat free
unfolding run_jobs
chat_costs = omega arith

abbrev chat_db : Db
chat_db = (enqueue_job first_ids (λ d. d) chat_input empty_db).0

enqueue_job-AllHeld_example : AllHeld (enqueue_job first_ids (λ d. d) chat_input empty_db).0
enqueue_job-AllHeld_example =
    enqueue_job-AllHeld first_ids (λ d. d) chat_input empty_db (λ d h. h) tt

enqueue_job-Covered_example :
    (available_micro (enqueue_job first_ids (λ d. d) chat_input empty_db).0 (credits_of 7 none)
      ≡ available_micro (with_grant first_ids chat_input empty_db) (credits_of 7 none)
        -ℤ pos (estimate_micro chat free))
    × (pos 0
        ≤ℤ available_micro
            (enqueue_job first_ids (λ d. d) chat_input empty_db).0
            (credits_of 7 none))
enqueue_job-Covered_example =
    enqueue_job-Covered first_ids chat_input empty_db q_chat chat_costs nothing_conflicts
      chat_queued
