-- ===== src/Core/Projects.antt =====
-- services/core-api/src/routes/projects.ts: the runs of a command line tool for a project, from their approval
-- to their result. What other requests do between the reads of a handler and its one write is the
-- argument `meanwhile`. Ids and times are numbers, the parts of a body are arguments after their
-- kinds were checked; of a process only whether it is there and its pid are kept, and the hashes of a
-- result are left out.
pub mod Start
pub mod Rows
pub mod Consistent
pub mod Requests
mod Examples
use push_be.Prelude.{
  ℕ, suc, String, ◌==◌, Bool, true, false, not, ◌&&◌, ◌||◌, Option, none, some, List, [], ◌∷◌, eqb,
  ltb, if◌then◌else◌,
}
use push_be.Prelude.Int.{ℤ, pos, negsuc}

pub data RunState : Type 0 where
  approval_required running verifying failed verified : RunState

pub data Launch : Type 0 where
  not_claimed claimed started unknown finished : Launch

pub data Failure : Type 0 where
  exit_code : ℤ → Failure
  told : String → Failure

-- cli_runs
pub record Run : Type 0 where
  pub id : ℕ
  pub user : ℕ
  pub project : ℕ
  pub app : ℕ
  pub revision : ℕ
  pub payload : String
  pub state : RunState
  pub launch : Launch
  pub approval : Option ℕ
  pub device : Option String
  pub version : Option String
  pub started_at : Option ℕ
  pub finished_at : Option ℕ
  pub failure : Option Failure
  pub exit : Option ℤ

-- The columns of approvals that `startRun` reads.
pub record RunApproval : Type 0 where
  pub id : ℕ
  pub user : ℕ
  pub revision : ℕ
  pub kind : String
  pub app : ℕ
  pub target : ℕ
  pub target_revision : Option ℕ
  pub hash : String
  pub status : String
  pub expires_at : Option ℕ

pub record Db : Type 0 where
  pub runs : List Run
  pub approvals : List RunApproval

pub data Error : Type 0 where
  not_found revision_conflict transition invalid no_approval stale : Error

pub data Result : Type 0 where
  ok : Run → Result
  err : Error → Result

unfoldable pub find_run : ℕ → ℕ → List Run → Option Run
find_run user id [] = none
find_run user id (r ∷ rs) = if eqb r.id id && eqb r.user user then some r else find_run user id rs

unfoldable pub find_run_approval : ℕ → ℕ → List RunApproval → Option RunApproval
find_run_approval user id [] = none
find_run_approval user id (a ∷ as') =
    if eqb a.id id && eqb a.user user then some a else find_run_approval user id as'

-- UPDATE cli_runs ... WHERE id = $1 AND user_id = $2 AND revision = $16
unfoldable pub update_run : (user id revision : ℕ) → (Run → Run) → List Run → List Run
update_run user id revision change [] = []
update_run user id revision change (r ∷ rs) =
    let others = update_run user id revision change rs in
    if eqb r.id id && eqb r.user user
    then (if eqb r.revision revision then change r else r) ∷ rs
    else r ∷ others

unfoldable pub consume_approval : (user id revision : ℕ) → List RunApproval → List RunApproval
consume_approval user id revision [] = []
consume_approval user id revision (a ∷ as') =
    let others = consume_approval user id revision as' in
    if eqb a.id id && eqb a.user user && eqb a.revision revision
    then record a { revision = suc a.revision; status = "CONSUMED" } ∷ as'
    else a ∷ others

abbrev pub run_at : (user id revision : ℕ) → Db → Bool
run_at user id revision db = elim (find_run user id db.runs) [
  | none ↦ false
  | some r ↦ eqb r.revision revision
]

abbrev pub run_approval_at : (user id revision : ℕ) → Db → Bool
run_approval_at user id revision db = elim (find_run_approval user id db.approvals) [
  | none ↦ false
  | some a ↦ eqb a.revision revision
]

-- `runFor`
abbrev pub run_for : (user project id expected : ℕ) → Db → Result
run_for user project id expected db = elim (find_run user id db.runs) [
  | none ↦ err not_found
  | some r ↦
      if not (eqb r.project project)
      then err not_found
      else if eqb r.revision expected
      then ok r
      else err revision_conflict
]

-- The row `b` with the columns that `saveRun` writes of `next`.
abbrev pub saved : Run → Run → Run
saved next b = record b {
  revision = suc b.revision;
  state = next.state;
  launch = next.launch;
  approval = next.approval;
  device = next.device;
  version = next.version;
  started_at = next.started_at;
  finished_at = next.finished_at;
  failure = next.failure;
  exit = next.exit;
}

unfoldable pub save_run : (user id expected : ℕ) → Run → Db → Db × Result
save_run user id expected next db =
    if run_at user id expected db
    then (
      record db { runs = update_run user id expected (saved next) db.runs },
      ok (record next { revision = suc expected }),
    )
    else (
      db,
      err (elim (find_run user id db.runs) [ none ↦ not_found | some r ↦ revision_conflict ]),
    )

abbrev pub is_running : RunState → Bool
is_running running = true
is_running _ = false

abbrev pub same_launch : Launch → Launch → Bool
same_launch not_claimed not_claimed = true
same_launch claimed claimed = true
same_launch started started = true
same_launch unknown unknown = true
same_launch finished finished = true
same_launch _ _ = false

-- LAUNCH_NEXT
abbrev pub launch_next : Launch → Launch → Bool
launch_next not_claimed claimed = true
launch_next claimed started = true
launch_next claimed unknown = true
launch_next started unknown = true
launch_next _ _ = false

-- The statuses that a device may report.
abbrev pub is_reported : Launch → Bool
is_reported not_claimed = false
is_reported finished = false
is_reported _ = true

abbrev pub is_bound_to : String → Run → Bool
is_bound_to device r = elim r.device [ none ↦ false | some d ↦ d == device ]

abbrev pub is_started : Launch → Bool
is_started started = true
is_started _ = false

-- `has_process` is whether the body holds the process.
abbrev pub launch_error : (device hash : String) → Launch → Bool → Run → Option Error
launch_error device hash status has_process r =
    if not (is_running r.state) || not (is_bound_to device r)
    then some transition
    else if not (hash == r.payload)
    then some stale
    else if is_started status && not has_process
    then some invalid
    else if same_launch r.launch status || launch_next r.launch status
    then none
    else some transition

-- A handler that reads a run, checks it, and saves what it makes of it.
abbrev pub change_run :
    (Db → Db)
    → (user project id expected : ℕ) → (Run → Option Error)
    → (Run → Run)
    → Db
    → Db × Result
change_run meanwhile user project id expected check next db =
    elim (run_for user project id expected db) [
      | err e ↦ (db, err e)
      | ok r ↦ elim (check r) [
        | some e ↦ (db, err e)
        | none ↦ save_run user id expected (next r) (meanwhile db)
      ]
    ]

unfoldable pub report_launch :
    (Db → Db)
    → (user project id expected : ℕ) → (device hash : String) → Launch
    → Bool
    → Db
    → Db × Result
report_launch meanwhile user project id expected device hash status has_process db =
    if not (is_reported status)
    then (db, err invalid)
    else change_run meanwhile user project id expected (launch_error device hash status has_process)
        (λ r. record r { launch = status }) db

pub data Decision : Type 0 where
  reattach : (pid : Option ℤ) → Decision
  mark_failed : (reason : String) → Decision

abbrev pub is_unknown : Launch → Bool
is_unknown unknown = true
is_unknown _ = false

abbrev pub is_positive : ℤ → Bool
is_positive (pos n) = not (eqb n 0)
is_positive (negsuc n) = false

abbrev pub decision_error : Decision → Option Error
decision_error (reattach none) = some invalid
decision_error (reattach (some pid)) = if is_positive pid then none else some invalid
decision_error (mark_failed reason) = if reason == "" then some invalid else none

abbrev pub recover_error : String → Decision → Run → Option Error
recover_error device decision r =
    if not (is_unknown r.launch) || not (is_bound_to device r)
    then some transition
    else decision_error decision

abbrev pub recovered : ℕ → Decision → Run → Run
recovered now (reattach pid) r = record r { launch = started }
recovered now (mark_failed reason) r = record r {
  launch = finished;
  state = failed;
  failure = some (told reason);
  finished_at = some now;
}

unfoldable pub recover_run :
    (Db → Db) → (user project id expected now : ℕ) → String → Decision → Db → Db × Result
recover_run meanwhile user project id expected now device decision db =
    change_run meanwhile user project id expected (recover_error device decision)
      (recovered now decision) db

abbrev pub is_zero : ℤ → Bool
is_zero (pos n) = eqb n 0
is_zero (negsuc n) = false

abbrev pub result_error : Run → Option Error
result_error r = if is_running r.state && is_started r.launch then none else some transition

abbrev pub with_result : ℕ → ℤ → Run → Run
with_result now code r = record r {
  launch = finished;
  exit = some code;
  finished_at = some now;
  state = if is_zero code then verifying else failed;
  failure = if is_zero code then r.failure else some (exit_code code);
}

unfoldable pub report_result : (Db → Db) → (user project id expected now : ℕ) → ℤ → Db → Db × Result
report_result meanwhile user project id expected now code db =
    change_run meanwhile user project id expected result_error (with_result now code) db
