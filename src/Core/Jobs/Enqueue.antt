-- ===== src/Core/Jobs/Enqueue.antt =====
-- `enqueueJob` of services/core-api/src/jobs/enqueue.ts, and the queue limit of backpressure.ts.
-- What other requests do between the credit check and the insert is the argument `meanwhile`. The new
-- row ids, the month and the time are arguments too; kicking the dispatcher is left out.
pub mod Laws
pub mod Holds
use push_be.Prelude.{
  ℕ, ◌+◌, String, ◌==◌, Bool, true, false, not, ◌&&◌, Option, none, some, List, [], ◌∷◌, eqb, ltb,
  if◌then◌else◌,
}
use push_be.Core.Jobs.Config.{
  JobType, QueueName, q_chat_priority, q_chat, q_document, q_ingest, q_notify, q_dead, Plan, free,
  basic, pro, ultra, Audience, personal, employer, estimate_micro, max_attempts, queue_for,
  queue_depth_limit,
}
use push_be.Core.Jobs.Database.{Reservation, reserved, Job, Db, Owner, of_user, of_company}
use push_be.Core.Jobs.Credits.{owner_of, reserve_credits, ensure_monthly_grant}

pub record Input : Type 0 where
  pub type : JobType
  pub user : ℕ
  pub company : Option ℕ
  pub plan : Plan
  pub idempotency_key : Option String

-- The ids of the rows that the call may write, the month's reference and the time.
pub record Fresh : Type 0 where
  pub job : ℕ
  pub entry : ℕ
  pub month : String
  pub now : ℕ

pub data Error : Type 0 where
  insufficient_credits duplicate_key : Error

pub data Result : Type 0 where
  ok : ℕ → QueueName → Result
  err : Error → Result

abbrev pub plan_text : Plan → String
plan_text free = "FREE"
plan_text basic = "BASIC"
plan_text pro = "PRO"
plan_text ultra = "ULTRA"

abbrev has_key : ℕ → String → Job → Bool
has_key user key j =
    eqb j.user user && (elim j.idempotency_key [ none ↦ false | some k ↦ k == key ])

-- EXISTING
unfoldable pub find_job : ℕ → String → List Job → Option Job
find_job user key [] = none
find_job user key (j ∷ js) = if has_key user key j then some j else find_job user key js

-- UNIQUE (user_id, idempotency_key)
abbrev pub conflicting : ℕ → Option String → List Job → Option Job
conflicting user none jobs = none
conflicting user (some key) jobs = find_job user key jobs

-- A key that is empty counts as absent where the code tests it, not where it is written.
abbrev pub given : Option String → Option String
given none = none
given (some key) = if key == "" then none else some key

abbrev queued : Job → Result
queued j = ok j.id j.queue

abbrev pub audience_of : Option ℕ → Audience
audience_of none = personal
audience_of (some company) = employer

abbrev pub owner_id : Input → ℕ
owner_id i = elim i.company [ none ↦ i.user | some company ↦ company ]

abbrev pub new_job : Fresh → Input → Job
new_job f i = record {
  id = f.job;
  type = i.type;
  queue = queue_for i.type i.plan (audience_of i.company);
  user = i.user;
  company = i.company;
  plan = i.plan;
  waiting = true;
  attempts = 0;
  max_attempts = max_attempts i.type;
  idempotency_key = i.idempotency_key;
}

abbrev pub new_hold : Fresh → Input → Reservation
new_hold f i = record {
  job = f.job;
  user = i.user;
  company = i.company;
  amount = estimate_micro i.type i.plan;
  status = reserved;
}

-- INSERT_WITH_RESERVE, or INSERT_OPEN where nothing is held: the job, its hold and its outbox row in
-- one statement.
unfoldable pub insert_job : Fresh → Input → Db → Db
insert_job f i db = record db {
  jobs = new_job f i ∷ db.jobs;
  reservations =
      if ltb 0 (estimate_micro i.type i.plan)
      then new_hold f i ∷ db.reservations
      else db.reservations;
  outbox = (f.job, (new_job f i).queue) ∷ db.outbox;
}

-- The insert, and what the code does where a unique key is violated.
unfoldable pub write_job : Fresh → Input → Db → Db × Result
write_job f i db = elim (conflicting i.user i.idempotency_key db.jobs) [
  | none ↦ (insert_job f i db, ok f.job (queue_for i.type i.plan (audience_of i.company)))
  | some j ↦ elim (given i.idempotency_key) [
    | none ↦ (db, err duplicate_key)
    | some key ↦ (db, queued j)
  ]
]

-- The grant of the month, where the job costs anything.
unfoldable pub with_grant : Fresh → Input → Db → Db
with_grant f i db =
    if ltb 0 (estimate_micro i.type i.plan)
    then ensure_monthly_grant (audience_of i.company) (plan_text i.plan) (owner_id i) f.entry
        f.month f.now db
    else db

-- `enqueueJob` from the grant on.
unfoldable pub enqueue_new : Fresh → (Db → Db) → Input → Db → Db × Result
enqueue_new f meanwhile i db =
    let granted = with_grant f i db in
    if reserve_credits granted (owner_of i.user i.company) (estimate_micro i.type i.plan)
    then write_job f i (meanwhile granted)
    else (granted, err insufficient_credits)

unfoldable pub enqueue_job : Fresh → (Db → Db) → Input → Db → Db × Result
enqueue_job f meanwhile i db = elim (given i.idempotency_key) [
  | none ↦ enqueue_new f meanwhile i db
  | some key ↦ elim (find_job i.user key db.jobs) [
    | none ↦ enqueue_new f meanwhile i db
    | some j ↦ (db, queued j)
  ]
]

abbrev number : QueueName → ℕ
number q_chat_priority = 0
number q_chat = 1
number q_document = 2
number q_ingest = 3
number q_notify = 4
number q_dead = 5

abbrev is_queue : QueueName → QueueName → Bool
is_queue a b = eqb (number a) (number b)

unfoldable pub waiting_in : QueueName → List Job → ℕ
waiting_in queue [] = 0
waiting_in queue (j ∷ js) =
    (if is_queue j.queue queue && j.waiting then 1 else 0) + waiting_in queue js

-- `checkBackpressure`: true where the job may be queued.
unfoldable pub check_backpressure : QueueName → Plan → Db → Bool
check_backpressure queue plan db =
    if ltb (queue_depth_limit plan) (waiting_in queue db.jobs) then false else true
