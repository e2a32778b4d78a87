-- ===== src/Core/Jobs/Enqueue/Laws.antt =====
-- The idempotency key of `enqueueJob`, in services/core-api/src/jobs/enqueue.ts.
use push_be.Prelude.{ℕ, String, ◌==◌, ◌≡◌, Option, none, some, arith, Bool-cases, inl, inr}
use push_be.Core.Jobs.Config.{QueueName}
use push_be.Core.Jobs.Database.{Job, Db}
use push_be.Core.Jobs.Enqueue.{find_job, given}

pub given-some : (k : Option String) (key : String) → given k ≡ some key → k ≡ some key
given-some none key h = cc
given-some (some k) key h = elim (Bool-cases (k == "")) [
  | inl e ↦ ground arith
  | inr e ↦ ground arith
]

-- The job that a key names, with the answer that it stands for.
abbrev Names : ℕ → String → (ℕ × QueueName) → Db → Type 0
Names user key answer db =
    (j : Job) × (find_job user key db.jobs ≡ some j) × ((j.id, j.queue) ≡ answer)
