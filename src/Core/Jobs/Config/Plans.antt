-- ===== src/Core/Jobs/Config/Plans.antt =====
-- The plans of services/core-api/src/jobs/config.ts against each other.
use push_be.Prelude.{◌≤◌, String, ◌==◌, ◌≡◌, ◌↔◌, Bool, true, false, not, ◌||◌, arith, eq_iff}
use push_be.Core.Jobs.Config.{
  JobType, chat, employer_ai, q_chat_priority, QueueName, Plan, Audience, employer_interview,
  pdf_attachment, plan_rank, plan_allows, estimate_micro, queue_depth_limit, queue_for,
}

abbrev pub is_priority : QueueName → Bool
is_priority q_chat_priority = true
is_priority _ = false

-- A higher plan is charged no less for a job, may have no fewer jobs waiting, and keeps the priority
-- queue where the lower plan has it.
pub plan_rank_monotone :
    (type : JobType) (p q : Plan) (audience : Audience)
    → plan_rank p ≤ plan_rank q
    → (estimate_micro type p ≤ estimate_micro type q)
      × (queue_depth_limit p ≤ queue_depth_limit q)
      × ((not (is_priority (queue_for type p audience)) || is_priority (queue_for type q audience))
          ≡ true)
unfolding estimate_micro queue_depth_limit queue_for
plan_rank_monotone chat p q audience h = ground arith
plan_rank_monotone employer_ai p q audience h = ground arith
plan_rank_monotone _ p q audience h = ground arith

-- A text is one of two names at most.
one_name : (s a b : String) → (a == b) ≡ false → (s == a) ≡ true → (s == b) ≡ false
one_name s a b h e = ground (arith, eq_iff s a, eq_iff s b, eq_iff a b)

-- The interview gate opens to PRO and ULTRA, the attachment gate to ULTRA alone, whatever the text
-- of the plan is.
pub plan_allows_iff :
    (plan : String)
    → ((plan_allows plan employer_interview ≡ true) ↔ ((plan == "PRO" || plan == "ULTRA") ≡ true))
      × ((plan_allows plan pdf_attachment ≡ true) ↔ ((plan == "ULTRA") ≡ true))
unfolding plan_allows
plan_allows_iff plan = (
  ground (
    arith,
    one_name plan "BASIC" "PRO",
    one_name plan "BASIC" "ULTRA",
    one_name plan "PRO" "ULTRA",
  ),
  ground (arith, one_name plan "BASIC" "ULTRA", one_name plan "PRO" "ULTRA"),
)
