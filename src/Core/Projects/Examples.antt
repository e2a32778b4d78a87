-- ===== src/Core/Projects/Examples.antt =====
-- The theorem on runs at a concrete one.
use push_be.Prelude.{◌≡◌, refl, false, true, none, some, [], ◌∷◌}
use push_be.Prelude.Int.{pos}
use push_be.Core.Applications.Rows.{Follows-refl}
use push_be.Core.Projects.{
  approval_required, verifying, claimed, started, not_claimed, finished, Run, RunApproval, Db, err,
  transition, find_run, find_run_approval, update_run, consume_approval, save_run, report_launch,
  recover_run, report_result, mark_failed,
}
use push_be.Core.Projects.Start.{write_start, start_run}
use push_be.Core.Projects.Rows.{Consistent}
use push_be.Core.Projects.Requests.{
  run_revision, start, launch, recover, result, perform, perform-Consistent,
}

abbrev waiting : Run
waiting = record {
  id = 1;
  user = 7;
  project = 2;
  app = 3;
  revision = 1;
  payload = "payload";
  state = approval_required;
  launch = not_claimed;
  approval = none;
  device = none;
  version = none;
  started_at = none;
  finished_at = none;
  failure = none;
  exit = none;
}

abbrev approval : RunApproval
approval = record {
  id = 60;
  user = 7;
  revision = 2;
  kind = "CLI_EXECUTE";
  app = 3;
  target = 1;
  target_revision = some 1;
  hash = "payload";
  status = "APPROVED";
  expires_at = none;
}

abbrev first_db : Db
first_db = record { runs = waiting ∷ []; approvals = approval ∷ [] }

abbrev alone : Db → Db
alone db = db

abbrev step_1 : Db
step_1 = (perform alone 7 2 1 1 100 (start 60 "laptop" "1.0") first_db).0

abbrev step_2 : Db
step_2 = (perform alone 7 2 1 2 110 (launch "laptop" "payload" claimed false) step_1).0

abbrev step_3 : Db
step_3 = (perform alone 7 2 1 3 120 (launch "laptop" "payload" started true) step_2).0

abbrev step_4 : Db
step_4 = (perform alone 7 2 1 4 130 (result (pos 0)) step_3).0

run_projects : Unit {0}
unfolding find_run find_run_approval update_run consume_approval save_run report_launch recover_run
    report_result write_start start_run
run_projects = tt

done :
    find_run 7 1 step_4.runs
    ≡ some (record waiting {
      revision = 5;
      state = verifying;
      launch = finished;
      approval = some 60;
      device = some "laptop";
      version = some "1.0";
      started_at = some 100;
      finished_at = some 130;
      exit = some (pos 0);
    })
unfolding run_projects
done = refl

not_again :
    perform alone 7 2 1 5 140 (recover "laptop" (mark_failed "lost")) step_4
    ≡ (step_4, err transition)
unfolding run_projects
not_again = refl

perform-Consistent_example : Consistent step_1
perform-Consistent_example =
    perform-Consistent alone 7 2 1 1 100 (start 60 "laptop" "1.0") first_db
      (λ d. Follows-refl run_revision (find_run 7 1 d.runs)) (λ d h. h) (refl, tt)
