-- ===== src/Core/Jobs/Config.antt =====
-- services/core-api/src/jobs/config.ts: what a job costs, where it queues and who may run it.
pub mod Plans
use push_be.Prelude.{
  ℕ, ◌+◌, ◌*◌, ◌/◌, String, ◌==◌, Bool, true, false, ◌&&◌, ◌||◌, ltb, if◌then◌else◌,
}

pub data JobType : Type 0 where
  chat employer_ai document fit ingest notify : JobType

pub data QueueName : Type 0 where
  q_chat_priority q_chat q_document q_ingest q_notify q_dead : QueueName

pub data Plan : Type 0 where
  free basic pro ultra : Plan

pub data Audience : Type 0 where
  personal employer : Audience

pub data Gate : Type 0 where
  employer_interview pdf_attachment : Gate

-- ESTIMATE_MICRO
abbrev pub estimate_base : JobType → ℕ
estimate_base chat = 60000
estimate_base employer_ai = 120000
estimate_base document = 80000
estimate_base fit = 20000
estimate_base ingest = 0
estimate_base notify = 0

-- DEPTH_LIMIT
unfoldable pub queue_depth_limit : Plan → ℕ
queue_depth_limit free = 20
queue_depth_limit basic = 40
queue_depth_limit pro = 200
queue_depth_limit ultra = 1000

-- MAX_ATTEMPTS
unfoldable pub max_attempts : JobType → ℕ
max_attempts chat = 4
max_attempts employer_ai = 4
max_attempts document = 3
max_attempts fit = 3
max_attempts ingest = 4
max_attempts notify = 5

-- PLAN_RANK
abbrev pub plan_rank : Plan → ℕ
plan_rank free = 0
plan_rank basic = 1
plan_rank pro = 2
plan_rank ultra = 3

-- REQUIRED_PLAN
abbrev pub required_plan : Gate → Plan
required_plan employer_interview = pro
required_plan pdf_attachment = ultra

-- `planTier`, of the text after `trim` and `toUpperCase`.
unfoldable pub plan_tier : String → Plan
plan_tier raw =
    if raw == "BASIC"
    then basic
    else if raw == "PRO"
    then pro
    else if raw == "ULTRA"
    then ultra
    else free

-- `assertPlanAllows`: true where it does not throw the 403 PLAN_REQUIRED.
unfoldable pub plan_allows : String → Gate → Bool
unfolding plan_tier
plan_allows plan gate =
    if ltb (plan_rank (plan_tier plan)) (plan_rank (required_plan gate)) then false else true

unfoldable pub estimate_micro : JobType → Plan → ℕ
estimate_micro type ultra = estimate_base type * 2
estimate_micro type pro = estimate_base type + estimate_base type / 2
estimate_micro type _ = estimate_base type

abbrev pub is_priority_plan : Plan → Audience → Bool
is_priority_plan pro employer = true
is_priority_plan ultra employer = true
is_priority_plan ultra personal = true
is_priority_plan _ _ = false

unfoldable pub queue_for : JobType → Plan → Audience → QueueName
queue_for notify plan audience = q_notify
queue_for ingest plan audience = q_ingest
queue_for document plan audience = q_document
queue_for fit plan audience = q_document
queue_for chat plan audience = if is_priority_plan plan audience then q_chat_priority else q_chat
queue_for employer_ai plan audience =
    if is_priority_plan plan audience then q_chat_priority else q_chat

abbrev pub retry_after_sec : ℕ
retry_after_sec = 30
