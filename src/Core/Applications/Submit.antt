-- ===== src/Core/Applications/Submit.antt =====
-- `createSubmissionDraft` and `submitApplication` of services/core-api/src/routes/applications.ts.
-- `digest` is hashJson of what a draft holds.
pub mod Reads
pub mod Once
pub mod Sound
use push_be.Prelude.{
  ℕ, suc, ◌+◌, String, ◌==◌, Bool, true, false, not, ◌&&◌, ◌||◌, Option, none, some, List, [], ◌∷◌,
  eqb, ltb, if◌then◌else◌,
}
use push_be.Core.Applications.Stages.{Stage, applied, is_terminal, is_applied_stage, after_applied}
use push_be.Core.Applications.Database.{
  App, Event, stage_changed, submission, Version, Draft, Approval, Submission, Db, find_app,
  find_draft, find_approval, find_version, enter, update_app, update_approval, app_at, approval_at,
}

pub data Error : Type 0 where
  not_found revision_conflict invalid feature_disabled not_finalized approval_required
        approval_stale invalid_transition :
      Error

pub data Result {ℓ} (A : Type ℓ) : Type ℓ where
  ok : A → Result A
  err : Error → Result A

abbrev pub version_error : (app : ℕ) → Version → Option Error
version_error app v = if not (eqb v.app app) then some invalid else elim v.finalized [
  | none ↦ some not_finalized
  | some f ↦ if eqb f v.id then none else some not_finalized
]

-- The loop over the versions of the body.
unfoldable pub versions_error : (user app : ℕ) → List ℕ → List Version → Option Error
versions_error user app [] versions = none
versions_error user app (id ∷ ids) versions = elim (find_version user id versions) [
  | none ↦ some invalid
  | some v ↦ elim (version_error app v) [
    | none ↦ versions_error user app ids versions
    | some e ↦ some e
  ]
]

-- A body of a draft.
pub record Request : Type 0 where
  pub expected : ℕ
  pub mode : String
  pub adapter : Option String
  pub versions : List ℕ
  pub confirmed : Bool

abbrev pub is_empty : List ℕ → Bool
is_empty [] = true
is_empty _ = false

abbrev pub mode_error : Request → Option Error
mode_error r =
    if not (r.mode == "MANUAL_RECORD" || r.mode == "ADAPTER")
    then some invalid
    else if r.mode == "ADAPTER"
    then some feature_disabled
    else elim r.adapter [
      | some s ↦ some invalid
      | none ↦ if is_empty r.versions then some invalid else none
    ]

unfoldable pub create_submission_draft :
    (ℕ → ℕ → List ℕ → String) → (user app id : ℕ) → Request → Db → Db × Result Draft
create_submission_draft digest user app id r db = elim (find_app user app db.apps) [
  | none ↦ (db, err not_found)
  | some a ↦
      if not (eqb a.revision r.expected) then (db, err revision_conflict) else elim (mode_error r) [
        | some e ↦ (db, err e)
        | none ↦ elim (versions_error user app r.versions db.versions) [
          | some e ↦ (db, err e)
          | none ↦
              let draft : Draft = record {
                id = id;
                user = user;
                app = app;
                revision = a.revision;
                is_manual = true;
                versions = r.versions;
                confirmed = r.confirmed;
                hash = digest app a.revision r.versions;
              } in
              (record db { drafts = draft ∷ db.drafts }, ok draft)
        ]
      ]
]

abbrev pub is_past : ℕ → Option ℕ → Bool
is_past now none = false
is_past now (some t) = ltb t now

-- What is wrong with the draft.
abbrev pub draft_error : App → Draft → Option Error
draft_error a d =
    if not (eqb d.app a.id)
    then some invalid
    else if not (eqb d.revision a.revision)
    then some approval_stale
    else none

-- What is wrong with the approval of a draft.
abbrev pub approval_error : (now : ℕ) → App → Draft → Approval → Option Error
approval_error now a d p =
    if not (p.kind == "APPLICATION_SUBMIT") || not (eqb p.app a.id) || not (eqb p.target d.id)
    then some approval_required
    else if is_past now p.expires_at || not (p.status == "APPROVED")
    then some approval_required
    else if not (d.hash == "") && not (p.hash == d.hash)
    then some approval_stale
    else if d.is_manual && not d.confirmed
    then some invalid
    else if is_terminal a.stage
    then some invalid_transition
    else none

-- Whether the application still has to move to APPLIED.
abbrev pub has_to_move : Stage → Bool
has_to_move stage = not (is_applied_stage stage) && not (after_applied stage)

abbrev pub consumed : ℕ → Approval → Approval
consumed now p = record p { revision = suc p.revision; status = "CONSUMED" }

abbrev pub moved : ℕ → App → App
moved now a = record a {
  revision = suc a.revision;
  stage = applied;
  applied_at = some now;
  entered = enter applied now a.entered;
  updated_at = now;
}

-- The one statement of a submission.
unfoldable pub write_submission :
    (user sub now : ℕ) → App → Draft → Approval → Db → Db × Result Submission
write_submission user sub now a d p db =
    if approval_at user p.id p.revision db && app_at user a.id a.revision db
    then (let row : Submission = record {
      id = sub;
      user = user;
      app = a.id;
      approval = p.id;
      versions = d.versions;
    } in
        (
          record db {
            approvals = update_approval user p.id p.revision (consumed now) db.approvals;
            submissions = row ∷ db.submissions;
            apps =
                if has_to_move a.stage
                then update_app user a.id a.revision (moved now) db.apps
                else db.apps;
            events =
                submission a.id sub
                ∷ (if has_to_move a.stage
                    then stage_changed a.id a.stage applied ∷ db.events
                    else db.events);
          },
          ok row,
        ))
    else (
      db,
      err (elim (find_app user a.id db.apps) [
        | none ↦ not_found
        | some b ↦
            if not (eqb b.revision a.revision)
            then revision_conflict
            else elim (find_approval user p.id db.approvals) [
              | none ↦ not_found
              | some q ↦ revision_conflict
            ]
      ]),
    )

-- The checks before the statement, in their order: the rows of the application, the draft and the
-- approval, or the first error.
unfoldable pub read_submission :
    (user app draft approval expected now : ℕ) → Db → Result (App × Draft × Approval)
read_submission user app draft approval expected now db = elim (find_app user app db.apps) [
  | none ↦ err not_found
  | some a ↦
      if not (eqb a.revision expected)
      then err revision_conflict
      else elim (find_draft user draft db.drafts) [
        | none ↦ err invalid
        | some d ↦ elim (draft_error a d) [
          | some e ↦ err e
          | none ↦ elim (find_approval user approval db.approvals) [
            | none ↦ err approval_required
            | some p ↦ elim (approval_error now a d p) [ none ↦ ok (a, d, p) | some e ↦ err e ]
          ]
        ]
      ]
]

unfoldable pub submit_application :
    (Db → Db) → (user app draft approval expected sub now : ℕ) → Db → Db × Result Submission
submit_application meanwhile user app draft approval expected sub now db =
    elim (read_submission user app draft approval expected now db) [
      | err e ↦ (db, err e)
      | ok (a, d, p) ↦ write_submission user sub now a d p (meanwhile db)
    ]
