-- ===== src/Core/Projects/Consistent.antt =====
-- The columns of a run, handler by handler: services/core-api/src/routes/projects.ts.
use push_be.Prelude.{
  ℕ, String, ◌≡◌, refl, ◌∙◌, ◌⊎◌, inl, inr, Bool, true, Option, none, some, arith, eqb, Bool-cases,
  Option-cases,
}
use push_be.Prelude.Int.{ℤ}
use push_be.Core.Projects
use push_be.Core.Projects.{
  RunState, approval_required, running, verifying, failed, verified, Launch, not_claimed, claimed,
  started, unknown, finished, Run, RunApproval, Db, Error, Result, ok, err, find_run,
  find_run_approval, update_run, run_at, run_approval_at, run_for, saved, save_run, is_reported,
  launch_error, change_run, report_launch, Decision, reattach, mark_failed, decision_error,
  recover_error, recovered, recover_run, result_error, with_result, report_result, is_zero,
  is_unknown, is_running, is_started,
}
use push_be.Core.Projects.Start.{is_unstarted, begun}
use push_be.Core.Projects.Rows.{
  consistent_in, is_consistent, Consistent, Consistent-find, Consistent-update,
}

consistent_in-saved :
    (s : RunState) (next b : Run) → consistent_in s (saved next b) ≡ consistent_in s next
consistent_in-saved approval_required next b = refl
consistent_in-saved running next b = refl
consistent_in-saved verifying next b = refl
consistent_in-saved failed next b = refl
consistent_in-saved verified next b = refl

save_run-Consistent :
    (user id expected : ℕ) (next : Run) (db : Db)
    → is_consistent next ≡ true
    → Consistent db
    → Consistent (save_run user id expected next db).0
unfolding save_run
save_run-Consistent user id expected next db c h = elim (Bool-cases (run_at user id expected db)) [
  | inr e ↦ rw (save_run, e) h
  | inl e ↦
      rw (save_run, e)
        (Consistent-update user id expected (saved next) db.runs
          (λ b k r. consistent_in-saved next.state next b ∙ c) h)
]

pub run_for-cases :
    (user project id expected : ℕ) (db : Db)
    → ((e : Error) × (run_for user project id expected db ≡ err e))
      ⊎ ((r : Run) × (run_for user project id expected db ≡ ok r)
          × (find_run user id db.runs ≡ some r)
          × (r.revision ≡ expected))
run_for-cases user project id expected db = elim (Option-cases (find_run user id db.runs)) [
  | inl e ↦ inl (not_found_run, rw (run_for, e) refl)
  | inr (r, e) ↦ elim (Bool-cases (eqb r.project project)) [
    | inr p ↦ inl (not_found_run, rw (run_for, e, p) refl)
    | inl p ↦ elim (Bool-cases (eqb r.revision expected)) [
      | inr x ↦ inl (Projects.revision_conflict, rw (run_for, e, p, x) refl)
      | inl x ↦ inr (r, rw (run_for, e, p, x) refl, e, ground (arith, x))
    ]
  ]
]
  where
    not_found_run : Error
    not_found_run = Projects.not_found

pub change_run-Consistent :
    (meanwhile : Db → Db) (user project id expected : ℕ) (check : Run → Option Error)
    (next : Run → Run) (db : Db)
    → ((r : Run) → is_consistent r ≡ true → check r ≡ none → is_consistent (next r) ≡ true)
    → ((d : Db) → Consistent d → Consistent (meanwhile d))
    → Consistent db
    → Consistent (change_run meanwhile user project id expected check next db).0
change_run-Consistent meanwhile user project id expected check next db k m h =
    elim (run_for-cases user project id expected db) [
      | inl (e, f) ↦ rw (change_run, f) h
      | inr (r, f, found, same) ↦ elim (Option-cases (check r)) [
        | inr (e, c) ↦ rw (change_run, f, c) h
        | inl c ↦
            rw (change_run, f, c)
              (save_run-Consistent user id expected (next r) (meanwhile db)
                (k r (Consistent-find user id db.runs r h found) c) (m db h))
      ]
    ]

-- A consistent run that is running stays so with a status that a device reports.
pub reported :
    (s : RunState) (l : Launch) (r : Run)
    → is_running s ≡ true
    → is_reported l ≡ true
    → consistent_in s r ≡ true
    → consistent_in s (record r { launch = l }) ≡ true
reported running claimed r a b h = ground (arith, h)
reported running started r a b h = ground (arith, h)
reported running unknown r a b h = ground (arith, h)
reported running not_claimed r a b h = cc
reported running finished r a b h = cc
reported approval_required l r a b h = cc
reported verifying l r a b h = cc
reported failed l r a b h = cc
reported verified l r a b h = cc

-- A consistent run whose launch is unknown is running.
unknown_running :
    (s : RunState) (l : Launch) (r : Run)
    → r.launch ≡ l
    → is_unknown l ≡ true
    → consistent_in s r ≡ true
    → is_running s ≡ true
unknown_running running l r e u h = refl
unknown_running approval_required unknown r e u h = absurd (ground (arith, e))
unknown_running verifying unknown r e u h = absurd (ground (arith, e))
unknown_running failed unknown r e u h = absurd (ground (arith, e))
unknown_running verified unknown r e u h = absurd (ground (arith, e))
unknown_running s not_claimed r e u h = cc
unknown_running s claimed r e u h = cc
unknown_running s started r e u h = cc
unknown_running s finished r e u h = cc

pub launch_error-none :
    (device hash : String) (status : Launch) (p : Bool) (r : Run)
    → launch_error device hash status p r ≡ none
    → is_running r.state ≡ true
launch_error-none device hash status p r h = ground arith

pub recovered-consistent :
    (now : ℕ) (device : String) (decision : Decision) (r : Run)
    → is_consistent r ≡ true
    → recover_error device decision r ≡ none
    → is_consistent (recovered now decision r) ≡ true
recovered-consistent now device (mark_failed reason) r h k = refl
recovered-consistent now device (reattach pid) r h k =
    let u : is_unknown r.launch ≡ true = ground arith in
    reported r.state started r (unknown_running r.state r.launch r refl u h) refl h

pub with_result-consistent :
    (now : ℕ) (code : ℤ) (r : Run)
    → result_error r ≡ none
    → is_consistent (with_result now code r) ≡ true
with_result-consistent now code r h = elim (Bool-cases (is_zero code)) [
  | inl e ↦ rw e (rw e refl)
  | inr e ↦ rw e refl
]

pub begun-consistent :
    (now approval : ℕ) (device version : String) (r : Run)
    → is_unstarted r.state ≡ true
    → is_consistent r ≡ true
    → is_consistent (begun now approval device version r) ≡ true
begun-consistent now approval device version r u h = unstarted r.state r u h
  where
    unstarted :
        (s : RunState) (r : Run)
        → is_unstarted s ≡ true
        → consistent_in s r ≡ true
        → is_consistent (begun now approval device version r) ≡ true
    unstarted approval_required r u h = ground (arith, h)
    unstarted running r u h = cc
    unstarted verifying r u h = cc
    unstarted failed r u h = cc
    unstarted verified r u h = cc
