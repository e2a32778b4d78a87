-- ===== src/Core/Projects/Requests.antt =====
-- All the requests on a run of services/core-api/src/routes/projects.ts together.
use push_be.Prelude.{
  ℕ, String, ◌==◌, ◌≡◌, inl, inr, Bool, true, ◌&&◌, ◌||◌, Option, some, List, [], ◌∷◌, arith, eqb,
  eqb_iff, Bool-cases, Option-cases,
}
use push_be.Prelude.Int.{ℤ}
use push_be.Core.Applications.Rows.{Follows, Follows-row}
use push_be.Core.Projects.{
  Launch, Run, RunApproval, Db, Result, find_run, find_run_approval, run_at, run_approval_at,
  is_reported, launch_error, report_launch, Decision, recover_error, recovered, recover_run,
  result_error, with_result, report_result,
}
use push_be.Core.Projects.Start.{is_unstarted, run_approval_error, begun, write_start, start_run}
use push_be.Core.Projects.Rows.{is_consistent, Consistent, Consistent-find, Consistent-update}
use push_be.Core.Projects.Consistent.{
  run_for-cases, change_run-Consistent, reported, launch_error-none, recovered-consistent,
  with_result-consistent, begun-consistent,
}

abbrev pub run_revision : Run → ℕ
run_revision r = r.revision

run_at-row :
    (user id revision : ℕ) (db : Db)
    → run_at user id revision db ≡ true
    → (b : Run) × (find_run user id db.runs ≡ some b) × (b.revision ≡ revision)
run_at-row user id revision db h = elim (Option-cases (find_run user id db.runs)) [
  | inl e ↦ absurd (ground (arith, e))
  | inr (b, e) ↦ (b, e, ground (arith, e))
]

write_start-Consistent :
    (user now : ℕ) (device version : String) (r : Run) (a : RunApproval) (db : Db)
    (before : Option Run)
    → before ≡ some r
    → is_unstarted r.state ≡ true
    → is_consistent r ≡ true
    → Follows run_revision before (find_run user r.id db.runs)
    → Consistent db
    → Consistent (write_start user now device version r a db).0
unfolding write_start
write_start-Consistent user now device version r a db before found u c f h =
    elim (Bool-cases (run_approval_at user a.id a.revision db && run_at user r.id r.revision db)) [
      | inr e ↦ rw (write_start, e) h
      | inl e ↦
          rw (write_start, e)
            (Consistent-update user r.id r.revision (begun now a.id device version) db.runs
              (λ b there at.
                let same : b ≡ r =
                  Follows-row run_revision before (find_run user r.id db.runs) r b found there f
                    ((eqb_iff b.revision r.revision).0 at) in
                rw same (begun-consistent now a.id device version r u c))
              h)
    ]

find_run-key : (user id : ℕ) (rs : List Run) (r : Run) → find_run user id rs ≡ some r → r.id ≡ id
unfolding find_run
find_run-key user id [] r h = cc
find_run-key user id (s ∷ rs) r h = elim (Bool-cases (eqb s.id id && eqb s.user user)) [
  | inl e ↦
      let same : s ≡ r = ground (arith, e) in
      let at : s.id ≡ id = ground (arith, e) in rw (← same) at
  | inr e ↦ find_run-key user id rs r (ground (arith, e))
]

start_run-Consistent :
    (meanwhile : Db → Db) (user project id expected approval now : ℕ) (device version : String)
    (db : Db)
    → ((d : Db)
        → Follows run_revision (find_run user id d.runs) (find_run user id (meanwhile d).runs))
    → ((d : Db) → Consistent d → Consistent (meanwhile d))
    → Consistent db
    → Consistent (start_run meanwhile user project id expected approval now device version db).0
unfolding start_run
start_run-Consistent meanwhile user project id expected approval now device version db f m h =
    elim (Bool-cases (device == "" || version == "")) [
      | inl e ↦ rw (start_run, e) h
      | inr e ↦ elim (run_for-cases user project id expected db) [
        | inl (x, g) ↦ rw (start_run, e, g) h
        | inr (r, g, found, same) ↦ elim (Bool-cases (is_unstarted r.state)) [
          | inr u ↦ rw (start_run, e, g, u) h
          | inl u ↦ elim (Option-cases (find_run_approval user approval db.approvals)) [
            | inl k ↦ rw (start_run, e, g, u, k) h
            | inr (a, k) ↦ elim (Option-cases (run_approval_error now r a)) [
              | inr (x, l) ↦ rw (start_run, e, g, u, k, l) h
              | inl l ↦
                  let key = find_run-key user id db.runs r found in
                  rw (start_run, e, g, u, k, l)
                    (write_start-Consistent user now device version r a (meanwhile db)
                      (find_run user id db.runs) found u (Consistent-find user id db.runs r h found)
                      (rw key (f db)) (m db h))
            ]
          ]
        ]
      ]
    ]

-- A request on a run, with its body.
pub data RunRequest : Type 0 where
  start : (approval : ℕ) → (device version : String) → RunRequest
  launch : (device hash : String) → Launch → (has_process : Bool) → RunRequest
  recover : (device : String) → Decision → RunRequest
  result : (code : ℤ) → RunRequest

abbrev pub perform : (Db → Db) → (user project id expected now : ℕ) → RunRequest → Db → Db × Result
perform m user project id expected now (start approval device version) db =
    start_run m user project id expected approval now device version db
perform m user project id expected now (launch device hash status has_process) db =
    report_launch m user project id expected device hash status has_process db
perform m user project id expected now (recover device decision) db =
    recover_run m user project id expected now device decision db
perform m user project id expected now (result code) db =
    report_result m user project id expected now code db

-- Every request on a run keeps all runs consistent, whatever its answer, if the requests in between do and
-- leave the run as it is or raise its revision: a run that waits for its approval is not claimed and not
-- over, a running one has its approval and its device and is not over, one that is verified or being
-- verified has ended with exit code 0, and a failed one has the reason of its failure.
pub perform-Consistent :
    (meanwhile : Db → Db) (user project id expected now : ℕ) (q : RunRequest) (db : Db)
    → ((d : Db)
        → Follows run_revision (find_run user id d.runs) (find_run user id (meanwhile d).runs))
    → ((d : Db) → Consistent d → Consistent (meanwhile d))
    → Consistent db
    → Consistent (perform meanwhile user project id expected now q db).0
unfolding report_launch recover_run report_result
perform-Consistent m user project id expected now (start approval device version) db f k h =
    start_run-Consistent m user project id expected approval now device version db f k h
perform-Consistent m user project id expected now (launch device hash status p) db f k h =
    elim (Bool-cases (is_reported status)) [
      | inr e ↦ rw (report_launch, e) h
      | inl e ↦
          rw (report_launch, e)
            (change_run-Consistent m user project id expected (launch_error device hash status p)
              (λ r. record r { launch = status }) db
              (λ r c none_wrong.
                reported r.state status r (launch_error-none device hash status p r none_wrong) e c)
              k h)
    ]
perform-Consistent m user project id expected now (recover device decision) db f k h =
    change_run-Consistent m user project id expected (recover_error device decision)
      (recovered now decision) db (recovered-consistent now device decision) k h
perform-Consistent m user project id expected now (result code) db f k h =
    change_run-Consistent m user project id expected result_error (with_result now code) db
      (λ r c none_wrong. with_result-consistent now code r none_wrong) k h
