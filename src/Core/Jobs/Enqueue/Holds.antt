-- ===== src/Core/Jobs/Enqueue/Holds.antt =====
-- The hold that a new job takes from the credits, in services/core-api/src/jobs/enqueue.ts.
use push_be.Prelude.{
  String, ℕ, ◌+◌, ◌<◌, ◌≡◌, refl, ap, sym, ◌∙◌, ◌≢◌, Bool, true, false, ◌&&◌, ◌||◌, Option, none,
  some, List, [], ◌∷◌, arith, ltb, leb, eqb, eqb_iff, any_of, All, Bool-cases, Option-cases, inl,
  inr,
}
use push_be.Prelude.Int.{pos, ◌-ℤ◌, ◌≤ℤ◌, -ℤ_parts, int_laws}
use push_be.Core.Jobs.Config.{Audience, QueueName, estimate_micro}
use push_be.Core.Jobs.Database.{Reservation, Job, Db, Owner, is_reservation_of, reserved_sum}
use push_be.Core.Jobs.Credits.{
  owner_of, available_micro, settled_micro, reserved_micro, reserve_credits, grant_micro,
  plan_or_free, granted_for, owner_in, ensure_monthly_grant,
}
use push_be.Core.Jobs.Enqueue.Laws.{given-some}
use push_be.Core.Jobs.Enqueue.{
  plan_text, audience_of, owner_id, Input, Fresh, ok, find_job, conflicting, given, new_job,
  new_hold, insert_job, write_job, with_grant, enqueue_new, enqueue_job,
}

-- A job that costs nothing, or one with a hold of its estimate.
abbrev pub is_held : List Reservation → Job → Bool
is_held rs j =
    let price = estimate_micro j.type j.plan in
    leb price 0 || any_of (λ r. eqb r.job j.id && eqb r.amount price) rs

-- Every job is held for.
abbrev pub AllHeld : Db → Type 0
AllHeld db = All (λ j. is_held db.reservations j ≡ true) db.jobs

is_reservation_of_self :
    (user : ℕ) (company : Option ℕ) (r : Reservation)
    → r.user ≡ user
    → r.company ≡ company
    → is_reservation_of (owner_of user company) r ≡ true
is_reservation_of_self user none r u c = ground (arith, eqb_iff r.user user)
is_reservation_of_self user (some id) r u c = ground (arith, eqb_iff id id)

reserved_sum-insert_job :
    (f : Fresh) (i : Input) (db : Db)
    → reserved_sum (owner_of i.user i.company) (insert_job f i db).reservations
      ≡ estimate_micro i.type i.plan + reserved_sum (owner_of i.user i.company) db.reservations
unfolding insert_job reserved_sum
reserved_sum-insert_job f i db =
    let mine = is_reservation_of_self i.user i.company (new_hold f i) refl refl in
    elim (Bool-cases (ltb 0 (estimate_micro i.type i.plan))) [
      | inl e ↦ rw (e, mine) refl
      | inr e ↦ rw e (ground arith)
    ]

is_held-cons :
    (r : Reservation) (rs : List Reservation) (j : Job)
    → is_held rs j ≡ true
    → is_held (r ∷ rs) j ≡ true
is_held-cons r rs j h = ground arith

AllHeld-cons :
    (r : Reservation) (rs : List Reservation) (js : List Job)
    → All (λ j. is_held rs j ≡ true) js
    → All (λ j. is_held (r ∷ rs) j ≡ true) js
AllHeld-cons r rs [] h = h
AllHeld-cons r rs (j ∷ js) (p, h) = (is_held-cons r rs j p, AllHeld-cons r rs js h)

is_held-new_job :
    (f : Fresh) (i : Input) (db : Db)
    → is_held (insert_job f i db).reservations (new_job f i) ≡ true
unfolding insert_job
is_held-new_job f i db =
    let same = eqb_iff f.job f.job in
    let price = eqb_iff (estimate_micro i.type i.plan) (estimate_micro i.type i.plan) in
    ground arith

kept_holds :
    (f : Fresh) (i : Input) (db : Db)
    → AllHeld db
    → All (λ j. is_held (insert_job f i db).reservations j ≡ true) db.jobs
unfolding insert_job
kept_holds f i db h = elim (Bool-cases (ltb 0 (estimate_micro i.type i.plan))) [
  | inl e ↦ rw e (AllHeld-cons (new_hold f i) db.reservations db.jobs h)
  | inr e ↦ rw e h
]

insert_job-AllHeld : (f : Fresh) (i : Input) (db : Db) → AllHeld db → AllHeld (insert_job f i db)
unfolding insert_job
insert_job-AllHeld f i db h = (is_held-new_job f i db, kept_holds f i db h)

write_job-AllHeld : (f : Fresh) (i : Input) (db : Db) → AllHeld db → AllHeld (write_job f i db).0
unfolding write_job
write_job-AllHeld f i db h = elim (Option-cases (conflicting i.user i.idempotency_key db.jobs)) [
  | inl e ↦ rw (write_job, e) (insert_job-AllHeld f i db h)
  | inr (j, e) ↦ elim (Option-cases (given i.idempotency_key)) [
    | inl g ↦ rw (write_job, e, g) h
    | inr (key, g) ↦ rw (write_job, e, g) h
  ]
]

ensure_monthly_grant-AllHeld :
    (audience : Audience) (plan : String) (owner id : ℕ) (reference : String) (now : ℕ) (db : Db)
    → AllHeld db
    → AllHeld (ensure_monthly_grant audience plan owner id reference now db)
unfolding ensure_monthly_grant
ensure_monthly_grant-AllHeld audience plan owner id reference now db h =
    let amount = grant_micro audience (plan_or_free audience plan) in
    elim (Bool-cases (leb amount 0)) [
      | inl e ↦ rw (ensure_monthly_grant, e) h
      | inr e ↦
          elim (Bool-cases (any_of (granted_for (owner_in audience owner) reference) db.ledger)) [
            | inl g ↦ rw (ensure_monthly_grant, e, g) h
            | inr g ↦ rw (ensure_monthly_grant, e, g) h
          ]
    ]

with_grant-AllHeld : (f : Fresh) (i : Input) (db : Db) → AllHeld db → AllHeld (with_grant f i db)
unfolding with_grant
with_grant-AllHeld f i db h = elim (Bool-cases (ltb 0 (estimate_micro i.type i.plan))) [
  | inl e ↦
      rw (with_grant, e)
        (ensure_monthly_grant-AllHeld (audience_of i.company) (plan_text i.plan) (owner_id i)
          f.entry f.month f.now db h)
  | inr e ↦ rw (with_grant, e) h
]

enqueue_new-AllHeld :
    (f : Fresh) (meanwhile : Db → Db) (i : Input) (db : Db)
    → ((d : Db) → AllHeld d → AllHeld (meanwhile d))
    → AllHeld db
    → AllHeld (enqueue_new f meanwhile i db).0
unfolding enqueue_new
enqueue_new-AllHeld f meanwhile i db m h =
    let granted = with_grant f i db in
    let price = estimate_micro i.type i.plan in
    let kept = with_grant-AllHeld f i db h in
    elim (Bool-cases (reserve_credits granted (owner_of i.user i.company) price)) [
      | inl e ↦ rw e (write_job-AllHeld f i (meanwhile granted) (m granted kept))
      | inr e ↦ rw e kept
    ]

-- If every job that costs anything has a hold of its estimate, and what other requests do meanwhile
-- keeps that, then it is so after a request for a job as well, whatever its answer.
pub enqueue_job-AllHeld :
    (f : Fresh) (meanwhile : Db → Db) (i : Input) (db : Db)
    → ((d : Db) → AllHeld d → AllHeld (meanwhile d))
    → AllHeld db
    → AllHeld (enqueue_job f meanwhile i db).0
unfolding enqueue_job
enqueue_job-AllHeld f meanwhile i db m h =
    let new = enqueue_new-AllHeld f meanwhile i db m h in
    elim (Option-cases (given i.idempotency_key)) [
      | inl g ↦ rw (enqueue_job, g) new
      | inr (key, g) ↦ elim (Option-cases (find_job i.user key db.jobs)) [
        | inl e ↦ rw (enqueue_job, g, e) new
        | inr (j, e) ↦ rw (enqueue_job, g, e) h
      ]
    ]

available_micro-insert_job :
    (f : Fresh) (i : Input) (db : Db)
    → available_micro (insert_job f i db) (owner_of i.user i.company)
      ≡ available_micro db (owner_of i.user i.company) -ℤ pos (estimate_micro i.type i.plan)
unfolding available_micro settled_micro reserved_micro insert_job
available_micro-insert_job f i db = rw (reserved_sum-insert_job f i db) (omega int_laws)

jobs-with_grant : (f : Fresh) (i : Input) (db : Db) → (with_grant f i db).jobs ≡ db.jobs
unfolding with_grant ensure_monthly_grant
jobs-with_grant f i db = ground arith

enqueue_job-unseen :
    (f : Fresh) (meanwhile : Db → Db) (i : Input) (db : Db)
    → conflicting i.user i.idempotency_key db.jobs ≡ none
    → enqueue_job f meanwhile i db ≡ enqueue_new f meanwhile i db
unfolding enqueue_job
enqueue_job-unseen f meanwhile i db new = elim (Option-cases (given i.idempotency_key)) [
  | inl g ↦ rw (enqueue_job, g) refl
  | inr (key, g) ↦
      let named = given-some i.idempotency_key key g in
      let unseen : find_job i.user key db.jobs ≡ none = ground (arith, named, new) in
      rw (enqueue_job, g, unseen) refl
]

enqueue_new-enough :
    (f : Fresh) (i : Input) (db : Db)
    → reserve_credits (with_grant f i db) (owner_of i.user i.company) (estimate_micro i.type i.plan)
      ≡ true
    → conflicting i.user i.idempotency_key db.jobs ≡ none
    → (enqueue_new f (λ d. d) i db).0 ≡ insert_job f i (with_grant f i db)
unfolding enqueue_new write_job
enqueue_new-enough f i db e new =
    let unseen : conflicting i.user i.idempotency_key (with_grant f i db).jobs ≡ none =
      ap (conflicting i.user i.idempotency_key) (jobs-with_grant f i db) ∙ new in
    rw (enqueue_new, e, write_job, unseen) refl

enqueue_new-short :
    (f : Fresh) (i : Input) (db : Db) (id : ℕ) (queue : QueueName)
    → reserve_credits (with_grant f i db) (owner_of i.user i.company) (estimate_micro i.type i.plan)
      ≡ false
    → (enqueue_new f (λ d. d) i db).1 ≢ ok id queue
unfolding enqueue_new
enqueue_new-short f i db id queue e h = absurd (ground (arith, e))

reserve_credits-Covered :
    (db : Db) (o : Owner) (price : ℕ)
    → 0 < price
    → reserve_credits db o price ≡ true
    → pos 0 ≤ℤ available_micro db o -ℤ pos price
unfolding reserve_credits
reserve_credits-Covered db o price cost h =
    let parts = -ℤ_parts (available_micro db o) (pos price) in ground (arith, parts)

-- A job that costs anything and is new takes its estimate out of what the owner has available, after
-- the grant of the month, and leaves no less than nothing; no other request writes in between.
pub enqueue_job-Covered :
    (f : Fresh) (i : Input) (db : Db) (queue : QueueName)
    → 0 < estimate_micro i.type i.plan
    → conflicting i.user i.idempotency_key db.jobs ≡ none
    → (enqueue_job f (λ d. d) i db).1 ≡ ok f.job queue
    → (available_micro (enqueue_job f (λ d. d) i db).0 (owner_of i.user i.company)
        ≡ available_micro (with_grant f i db) (owner_of i.user i.company)
          -ℤ pos (estimate_micro i.type i.plan))
      × (pos 0 ≤ℤ available_micro (enqueue_job f (λ d. d) i db).0 (owner_of i.user i.company))
enqueue_job-Covered f i db queue cost new h =
    let granted = with_grant f i db in
    let o = owner_of i.user i.company in
    let price = estimate_micro i.type i.plan in
    let step = enqueue_job-unseen f (λ d. d) i db new in
    elim (Bool-cases (reserve_credits granted o price)) [
      | inl e ↦
          let done : (enqueue_job f (λ d. d) i db).0 ≡ insert_job f i granted =
            ap (λ p. p.0) step ∙ enqueue_new-enough f i db e new in
          let less = available_micro-insert_job f i granted in
          let enough = reserve_credits-Covered granted o price cost e in
          (rw done less, rw (done, less) enough)
      | inr e ↦ absurd (enqueue_new-short f i db f.job queue e (ap (λ p. p.1) (sym step) ∙ h))
    ]
