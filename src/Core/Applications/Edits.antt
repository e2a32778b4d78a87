-- ===== src/Core/Applications/Edits.antt =====
-- `createApplication`, `importApplication` and `patchApplication` of
-- services/core-api/src/routes/applications.ts.
pub mod Locks
use push_be.Prelude.{
  ℕ, suc, ◌+◌, String, Bool, true, false, not, ◌&&◌, ◌||◌, Option, none, some, List, [], ◌∷◌, eqb,
  if◌then◌else◌,
}
use push_be.Core.Applications.Stages.{
  Stage, discovered, applied, same_stage, is_applied_stage, can_patch_stage,
}
use push_be.Core.Applications.Database.{
  App, stage_changed, was_imported, Event, Db, find_app, has_job, enter, update_app, app_at,
}

pub data Error : Type 0 where
  not_found revision_conflict invalid_transition invalid : Error

pub data Result {ℓ} (A : Type ℓ) : Type ℓ where
  ok : A → Result A
  err : Error → Result A

abbrev pub or_empty : Option String → String
or_empty none = ""
or_empty (some s) = s

unfoldable pub create_application : (user id job now : ℕ) → Option String → Db → Db × Result App
create_application user id job now notes db =
    if not (has_job user job db.jobs)
    then (db, err not_found)
    else (let app : App = record {
      id = id;
      user = user;
      revision = 1;
      job = job;
      stage = discovered;
      notes = or_empty notes;
      applied_at = none;
      next_action_at = none;
      imported = false;
      entered = (discovered, now) ∷ [];
      updated_at = now;
    } in
        (record db { apps = app ∷ db.apps }, ok app))

-- `stage` and `applied_at` are none where the text is no stage and no time.
unfoldable pub import_application :
    (user id job now : ℕ) → Option Stage → Option ℕ → Bool → Option String → Db → Db × Result App
import_application user id job now stage none confirmed notes db = (db, err invalid)
import_application user id job now none (some at) confirmed notes db = (db, err invalid)
import_application user id job now (some stage) (some at) confirmed notes db =
    if not confirmed || same_stage stage discovered
    then (db, err invalid)
    else if not (has_job user job db.jobs)
    then (db, err not_found)
    else (let app : App = record {
      id = id;
      user = user;
      revision = 1;
      job = job;
      stage = stage;
      notes = or_empty notes;
      applied_at = some at;
      next_action_at = none;
      imported = true;
      entered = (stage, now) ∷ [];
      updated_at = now;
    } in
        (record db { apps = app ∷ db.apps; events = was_imported id stage ∷ db.events }, ok app))

-- A body of a patch. A stage is none where the text is none; of `next`, the outer none is a field that
-- is absent, and the inner one a null.
pub record Patch : Type 0 where
  pub expected : ℕ
  pub stage : Option (Option Stage)
  pub notes : Option String
  pub next : Option (Option ℕ)

abbrev pub stage_error : Stage → Stage → Option Error
stage_error from to =
    if is_applied_stage to && not (is_applied_stage from)
    then some invalid_transition
    else if not (can_patch_stage from to)
    then some invalid_transition
    else none

-- The stage after the patch, or the error.
abbrev pub next_stage : Option (Option Stage) → Stage → Result Stage
next_stage none from = ok from
next_stage (some none) from = err invalid
next_stage (some (some to)) from = elim (stage_error from to) [ none ↦ ok to | some e ↦ err e ]

abbrev pub get_or {ℓ} : {A : Type ℓ} → Option A → A → A
get_or none a = a
get_or (some b) a = b

-- The row `b` as the patch leaves it, where `a` was read.
abbrev pub patched : Patch → Stage → ℕ → App → App → App
patched p stage now a b = record b {
  revision = suc b.revision;
  stage = stage;
  notes = get_or p.notes a.notes;
  applied_at = a.applied_at;
  next_action_at = get_or p.next a.next_action_at;
  imported = a.imported;
  entered = enter stage now b.entered;
  updated_at = now;
}

abbrev pub log_change : (id : ℕ) → (from to : Stage) → List Event → List Event
log_change id from to events =
    if same_stage from to then events else stage_changed id from to ∷ events

-- The UPDATE with its event, and the answer where it returns no row. Of the answer, the revision and
-- the stage are kept.
unfoldable pub write_patch : (user id now : ℕ) → Patch → Stage → App → Db → Db × Result (ℕ × Stage)
write_patch user id now p stage a db =
    if app_at user id p.expected db
    then (
      record db {
        apps = update_app user id p.expected (patched p stage now a) db.apps;
        events = log_change id a.stage stage db.events;
      },
      ok (suc p.expected, stage),
    )
    else (
      db,
      err (elim (find_app user id db.apps) [ none ↦ not_found | some b ↦ revision_conflict ]),
    )

-- The time of `next` was read before.
unfoldable pub patch_application :
    (Db → Db) → (user id now : ℕ) → Patch → Db → Db × Result (ℕ × Stage)
patch_application meanwhile user id now p db = elim (find_app user id db.apps) [
  | none ↦ (db, err not_found)
  | some a ↦
      if not (eqb a.revision p.expected)
      then (db, err revision_conflict)
      else elim (next_stage p.stage a.stage) [
        | err e ↦ (db, err e)
        | ok stage ↦ write_patch user id now p stage a (meanwhile db)
      ]
]
