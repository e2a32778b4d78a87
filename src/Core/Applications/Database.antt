-- ===== src/Core/Applications/Database.antt =====
-- The rows that services/core-api/src/routes/applications.ts reads and writes.
use push_be.Prelude.{
  ℕ, String, Bool, false, ◌&&◌, Option, none, some, List, [], ◌∷◌, eqb, if◌then◌else◌, any_of,
}
use push_be.Core.Applications.Stages.{Stage, same_stage}

-- applications; `entered` is stage_entered_at.
pub record App : Type 0 where
  pub id : ℕ
  pub user : ℕ
  pub revision : ℕ
  pub job : ℕ
  pub stage : Stage
  pub notes : String
  pub applied_at : Option ℕ
  pub next_action_at : Option ℕ
  pub imported : Bool
  pub entered : List (Stage × ℕ)
  pub updated_at : ℕ

-- application_events
pub data Event : Type 0 where
  stage_changed : (app : ℕ) → (from to : Stage) → Event
  was_imported : (app : ℕ) → Stage → Event
  submission : (app submission : ℕ) → Event

-- document_versions, each with the version that its document has finalized.
pub record Version : Type 0 where
  pub id : ℕ
  pub user : ℕ
  pub app : ℕ
  pub finalized : Option ℕ

pub record Draft : Type 0 where
  pub id : ℕ
  pub user : ℕ
  pub app : ℕ
  pub revision : ℕ
  pub is_manual : Bool
  pub versions : List ℕ
  pub confirmed : Bool
  pub hash : String

pub record Approval : Type 0 where
  pub id : ℕ
  pub user : ℕ
  pub revision : ℕ
  pub kind : String
  pub app : ℕ
  pub target : ℕ
  pub hash : String
  pub status : String
  pub expires_at : Option ℕ

pub record Submission : Type 0 where
  pub id : ℕ
  pub user : ℕ
  pub app : ℕ
  pub approval : ℕ
  pub versions : List ℕ

-- `jobs` holds (id, user).
pub record Db : Type 0 where
  pub jobs : List (ℕ × ℕ)
  pub apps : List App
  pub events : List Event
  pub versions : List Version
  pub drafts : List Draft
  pub approvals : List Approval
  pub submissions : List Submission

-- The tables whose rows are found by an id and their user; the id is the primary key.
unfoldable pub find_app : ℕ → ℕ → List App → Option App
find_app user id [] = none
find_app user id (a ∷ as') = if eqb a.id id && eqb a.user user then some a else find_app user id as'

unfoldable pub find_draft : ℕ → ℕ → List Draft → Option Draft
find_draft user id [] = none
find_draft user id (d ∷ ds) =
    if eqb d.id id && eqb d.user user then some d else find_draft user id ds

unfoldable pub find_approval : ℕ → ℕ → List Approval → Option Approval
find_approval user id [] = none
find_approval user id (a ∷ as') =
    if eqb a.id id && eqb a.user user then some a else find_approval user id as'

unfoldable pub find_version : ℕ → ℕ → List Version → Option Version
find_version user id [] = none
find_version user id (v ∷ vs) =
    if eqb v.id id && eqb v.user user then some v else find_version user id vs

abbrev pub has_job : ℕ → ℕ → List (ℕ × ℕ) → Bool
has_job user id jobs = any_of (λ j. eqb j.0 id && eqb j.1 user) jobs

-- The entry of a stage that is entered, if it has none.
abbrev pub enter : Stage → ℕ → List (Stage × ℕ) → List (Stage × ℕ)
enter stage now entered =
    if any_of (λ e. same_stage e.0 stage) entered then entered else (stage, now) ∷ entered

-- UPDATE ... WHERE id = $1 AND user_id = $2 AND revision = $3
unfoldable pub update_app : (user id revision : ℕ) → (App → App) → List App → List App
update_app user id revision change [] = []
update_app user id revision change (a ∷ as') =
    let others = update_app user id revision change as' in
    if eqb a.id id && eqb a.user user
    then (if eqb a.revision revision then change a else a) ∷ as'
    else a ∷ others

unfoldable pub update_approval :
    (user id revision : ℕ) → (Approval → Approval) → List Approval → List Approval
update_approval user id revision change [] = []
update_approval user id revision change (a ∷ as') =
    let others = update_approval user id revision change as' in
    if eqb a.id id && eqb a.user user
    then (if eqb a.revision revision then change a else a) ∷ as'
    else a ∷ others

abbrev pub app_at : (user id revision : ℕ) → Db → Bool
app_at user id revision db = elim (find_app user id db.apps) [
  | none ↦ false
  | some a ↦ eqb a.revision revision
]

abbrev pub approval_at : (user id revision : ℕ) → Db → Bool
approval_at user id revision db = elim (find_approval user id db.approvals) [
  | none ↦ false
  | some a ↦ eqb a.revision revision
]
