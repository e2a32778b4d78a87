-- ===== src/Core/Projects/Start.antt =====
-- `startRun` of services/core-api/src/routes/projects.ts: the approval of a run and its start.
use push_be.Prelude.{
  ℕ, suc, String, ◌==◌, Bool, true, false, not, ◌&&◌, ◌||◌, Option, none, some, eqb, ltb,
  if◌then◌else◌,
}
use push_be.Core.Projects.{
  Run, RunApproval, Db, Error, Result, ok, err, not_found, revision_conflict, transition, invalid,
  no_approval, stale, RunState, approval_required, running, find_run, find_run_approval, update_run,
  consume_approval, run_at, run_approval_at, run_for,
}

abbrev pub is_unstarted : RunState → Bool
is_unstarted approval_required = true
is_unstarted _ = false

abbrev pub is_past : ℕ → Option ℕ → Bool
is_past now none = false
is_past now (some t) = ltb t now

abbrev pub targets : Run → Option ℕ → Bool
targets r none = true
targets r (some revision) = eqb revision r.revision

-- What is wrong with the approval of a run.
abbrev pub run_approval_error : ℕ → Run → RunApproval → Option Error
run_approval_error now r a =
    if not (a.kind == "CLI_EXECUTE") || not (eqb a.app r.app) || not (eqb a.target r.id)
    then some no_approval
    else if is_past now a.expires_at || not (a.status == "APPROVED")
    then some no_approval
    else if not (r.payload == "") && not (a.hash == r.payload)
    then some stale
    else if targets r a.target_revision
    then none
    else some stale

abbrev pub begun : (now approval : ℕ) → (device version : String) → Run → Run
begun now approval device version r = record r {
  revision = suc r.revision;
  state = running;
  approval = some approval;
  device = some device;
  version = some version;
  started_at = some now;
}

-- The one statement of a start. It takes the approval and the run together.
unfoldable pub write_start :
    (user now : ℕ) → (device version : String) → Run → RunApproval → Db → Db × Result
write_start user now device version r a db =
    if run_approval_at user a.id a.revision db && run_at user r.id r.revision db
    then (
      record {
        approvals = consume_approval user a.id a.revision db.approvals;
        runs = update_run user r.id r.revision (begun now a.id device version) db.runs;
      },
      ok (begun now a.id device version r),
    )
    else (
      db,
      err (
          if run_at user r.id r.revision db
          then elim (find_run_approval user a.id db.approvals) [
            | none ↦ not_found
            | some b ↦ revision_conflict
          ]
          else elim (find_run user r.id db.runs) [
            | some b ↦ revision_conflict
            | none ↦ elim (find_run_approval user a.id db.approvals) [
              | none ↦ not_found
              | some b ↦ revision_conflict
            ]
          ]),
    )

unfoldable pub start_run :
    (Db → Db)
    → (user project id expected approval now : ℕ) → (device version : String) → Db
    → Db × Result
start_run meanwhile user project id expected approval now device version db =
    if device == "" || version == ""
    then (db, err invalid)
    else elim (run_for user project id expected db) [
      | err e ↦ (db, err e)
      | ok r ↦
          if not (is_unstarted r.state)
          then (db, err transition)
          else elim (find_run_approval user approval db.approvals) [
            | none ↦ (db, err no_approval)
            | some a ↦ elim (run_approval_error now r a) [
              | some e ↦ (db, err e)
              | none ↦ write_start user now device version r a (meanwhile db)
            ]
          ]
    ]
