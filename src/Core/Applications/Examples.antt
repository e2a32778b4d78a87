-- ===== src/Core/Applications/Examples.antt =====
-- The theorems on applications at concrete inputs.
use push_be.Prelude.{ℕ, String, List, ◌≡◌, refl, true, false, none, some, [], ◌∷◌}
use push_be.Core.Applications.Stages.{can_patch_stage, discovered, preparing, ready}
use push_be.Core.Applications.Database.{
  App, Version, Draft, Approval, Db, find_app, find_approval, find_draft, find_version, update_app,
  update_approval,
}
use push_be.Core.Applications.Rows.{Follows-refl, app_revision, approval_revision}
use push_be.Core.Applications.Edits.{ok, Patch, write_patch, patch_application}
use push_be.Core.Applications.Submit.{
  ok as sent_ok, Request, versions_error, create_submission_draft, write_submission,
  read_submission, submit_application,
}
use push_be.Core.Applications.Submit.Reads.{Covers, Finalized, create_submission_draft_sound}
use push_be.Core.Applications.Submit.Once.{IsOnce, submit_application-IsOnce}
use push_be.Core.Applications.Submit.Sound.{submitted, submit_application_sound}

abbrev app : App
app = record {
  id = 1;
  user = 7;
  revision = 3;
  job = 2;
  stage = preparing;
  notes = "";
  applied_at = none;
  next_action_at = none;
  imported = false;
  entered = (discovered, 5) ∷ [];
  updated_at = 5;
}

abbrev final_version : Version
final_version = record { id = 40; user = 7; app = 1; finalized = some 40 }

abbrev digest : ℕ → ℕ → List ℕ → String
digest _ _ _ = "digest"

abbrev draft : Draft
draft = record {
  id = 50;
  user = 7;
  app = 1;
  revision = 3;
  is_manual = true;
  versions = 40 ∷ [];
  confirmed = true;
  hash = "digest";
}

abbrev approval : Approval
approval = record {
  id = 60;
  user = 7;
  revision = 2;
  kind = "APPLICATION_SUBMIT";
  app = 1;
  target = 50;
  hash = "digest";
  status = "APPROVED";
  expires_at = some 1000;
}

abbrev start : Db
start = record {
  jobs = (2, 7) ∷ [];
  apps = app ∷ [];
  events = [];
  versions = final_version ∷ [];
  drafts = draft ∷ [];
  approvals = approval ∷ [];
  submissions = [];
}

abbrev alone : Db → Db
alone db = db

abbrev to_ready : Patch
to_ready = record { expected = 3; stage = some (some ready); notes = some "soon"; next = none }

abbrev by_hand : Request
by_hand = record {
  expected = 3;
  mode = "MANUAL_RECORD";
  adapter = none;
  versions = 40 ∷ [];
  confirmed = true;
}

run_applications : Unit {0}
unfolding patch_application write_patch find_app update_app submit_application read_submission
    write_submission find_draft find_approval update_approval create_submission_draft versions_error
    find_version can_patch_stage
run_applications = tt

submits :
    (submit_application alone 7 1 50 60 3 70 100 start).1
    ≡ sent_ok (record { id = 70; user = 7; app = 1; approval = 60; versions = 40 ∷ [] })
unfolding run_applications
submits = refl

submit_application-IsOnce_example : IsOnce (submit_application alone 7 1 50 60 3 70 100 start).0
submit_application-IsOnce_example =
    submit_application-IsOnce alone 7 1 50 60 3 70 100 start
      (λ d. Follows-refl approval_revision (find_approval 7 60 d.approvals)) (λ d h. h)
      (record { used = tt; distinct = tt })

submit_application_sound_example :
    (a : App) × (d : Draft) × (p : Approval) × Covers 100 a d p
    × (find_app 7 1 start.apps ≡ some a)
    × (find_draft 7 50 start.drafts ≡ some d)
    × (a.revision ≡ 3)
    × (find_app 7 1 start.apps ≡ some a)
    × (find_approval 7 60 start.approvals ≡ some p)
    × (find_app 7 1 (submit_application alone 7 1 50 60 3 70 100 start).0.apps
        ≡ some (submitted 100 a))
    × (approval.id ≡ 60)
    × (app.id ≡ 1)
    × (40 ∷ [] ≡ d.versions)
submit_application_sound_example =
    submit_application_sound alone 7 1 50 60 3 70 100 start
      (record { id = 70; user = 7; app = 1; approval = 60; versions = 40 ∷ [] })
      (λ d. Follows-refl app_revision (find_app 7 1 d.apps))
      (λ d. Follows-refl approval_revision (find_approval 7 60 d.approvals)) submits

drafts : (create_submission_draft digest 7 1 50 by_hand start).1 ≡ sent_ok draft
unfolding run_applications
drafts = refl

create_submission_draft_sound_example :
    (a : App) × (find_app 7 1 start.apps ≡ some a)
    × (a.revision ≡ by_hand.expected)
    × (draft.revision ≡ a.revision)
    × (draft.app ≡ 1)
    × (draft.hash ≡ digest 1 a.revision by_hand.versions)
    × (by_hand.mode ≡ "MANUAL_RECORD")
    × (false ≡ false)
    × Finalized 7 1 start.versions by_hand.versions
create_submission_draft_sound_example =
    create_submission_draft_sound digest 7 1 50 by_hand start draft drafts
