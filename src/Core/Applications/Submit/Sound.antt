-- ===== src/Core/Applications/Submit/Sound.antt =====
-- What the one statement of `submitApplication`, in services/core-api/src/routes/applications.ts, finds.
use push_be.Prelude.{
  ℕ, ◌≡◌, refl, sym, ap, ◌∙◌, inl, inr, true, ◌&&◌, Option, some, arith, eqb, eqb_iff,
  if◌then◌else◌, Bool-cases, Option-cases, and-eq-true,
}
use push_be.Core.Applications.Database.{
  App, Draft, Approval, Submission, Db, find_app, find_draft, find_approval, app_at, approval_at,
}
use push_be.Core.Applications.Rows.{
  Follows, Follows-row, app_revision, approval_revision, find_app-key, find_approval-key,
  find_app-update_app,
}
use push_be.Core.Applications.Submit.{
  ok, has_to_move, moved, write_submission, read_submission, submit_application,
}
use push_be.Core.Applications.Submit.Reads.{Covers, read_submission-IsRead}
use push_be.Core.Applications.Submit.Once.{approval_at-row, read_cases}

app_at-row :
    (user id revision : ℕ) (db : Db)
    → app_at user id revision db ≡ true
    → (b : App) × (find_app user id db.apps ≡ some b) × (b.revision ≡ revision)
app_at-row user id revision db h = elim (Option-cases (find_app user id db.apps)) [
  | inl e ↦ absurd (ground (arith, e))
  | inr (b, e) ↦ (b, e, ground (arith, e))
]

app_keeps_key : (now : ℕ) (a : App) → ((moved now a).id ≡ a.id) × ((moved now a).user ≡ a.user)
app_keeps_key now a = (refl, refl)

-- The application after a submission.
abbrev pub submitted : ℕ → App → App
submitted now a = if has_to_move a.stage then moved now a else a

write_submission_locked :
    (user sub now : ℕ) (a : App) (d : Draft) (p : Approval) (db : Db) (old_app : Option App)
    (old_approval : Option Approval) (row : Submission)
    → old_app ≡ some a
    → old_approval ≡ some p
    → Follows app_revision old_app (find_app user a.id db.apps)
    → Follows approval_revision old_approval (find_approval user p.id db.approvals)
    → (write_submission user sub now a d p db).1 ≡ ok row
    → (find_app user a.id db.apps ≡ some a)
      × (find_approval user p.id db.approvals ≡ some p)
      × (find_app user a.id (write_submission user sub now a d p db).0.apps
          ≡ some (submitted now a))
      × (row.approval ≡ p.id)
      × (row.app ≡ a.id)
      × (row.versions ≡ d.versions)
unfolding write_submission
write_submission_locked user sub now a d p db old_app old_approval row ea ep fa fp h =
    elim (Bool-cases (approval_at user p.id p.revision db && app_at user a.id a.revision db)) [
      | inr e ↦ absurd (ground (arith, e))
      | inl e ↦
          let (at_approval, at_app) = and-eq-true (approval_at user p.id p.revision db) _ e in
          let (q, there, at) = approval_at-row user p.id p.revision db at_approval in
          let (b, there_app, at_b) = app_at-row user a.id a.revision db at_app in
          let same =
            Follows-row approval_revision old_approval (find_approval user p.id db.approvals) p q ep
              there fp at in
          let same_app =
            Follows-row app_revision old_app (find_app user a.id db.apps) a b ea there_app fa
              at_b in
          let now_app : find_app user a.id db.apps ≡ some a = there_app ∙ ap some same_app in
          let written =
            find_app-update_app user a.id a.revision (moved now) (app_keeps_key now) db.apps in
          let itself : eqb a.revision a.revision ≡ true =
            ground (arith, eqb_iff a.revision a.revision) in
          (
            now_app,
            there ∙ ap some same,
            elim (Bool-cases (has_to_move a.stage)) [
              | inl g ↦ rw (write_submission, e, g, written, now_app, itself) refl
              | inr g ↦ rw (write_submission, e, g) now_app
            ],
            ground (arith, e),
            ground (arith, e),
            ground (arith, e),
          )
    ]

-- A submission that succeeds had the named application, at the expected revision, the named draft and
-- the named approval in the tables, and these cover each other; its row holds the draft's versions. As long
-- as the requests in between leave a row as it is or raise its revision, the write still finds
-- the application and the approval that were checked. It moves the application to APPLIED
-- where it has not come that far.
pub submit_application_sound :
    (meanwhile : Db → Db) (user app draft approval expected sub now : ℕ) (db : Db)
    (row : Submission)
    → ((d : Db)
        → Follows app_revision (find_app user app d.apps) (find_app user app (meanwhile d).apps))
    → ((d : Db)
        → Follows approval_revision
            (find_approval user approval d.approvals)
            (find_approval user approval (meanwhile d).approvals))
    → (submit_application meanwhile user app draft approval expected sub now db).1 ≡ ok row
    → (a : App) × (d : Draft) × (p : Approval) × Covers now a d p
      × (find_app user app db.apps ≡ some a)
      × (find_draft user draft db.drafts ≡ some d)
      × (a.revision ≡ expected)
      × (find_app user app (meanwhile db).apps ≡ some a)
      × (find_approval user approval (meanwhile db).approvals ≡ some p)
      × (find_app user app
            (submit_application meanwhile user app draft approval expected sub now db).0.apps
          ≡ some (submitted now a))
      × (row.approval ≡ approval)
      × (row.app ≡ app)
      × (row.versions ≡ d.versions)
unfolding submit_application
submit_application_sound meanwhile user app draft approval expected sub now db row ma mp h =
    elim (read_cases (read_submission user app draft approval expected now db)) [
      | inl (e, r) ↦ absurd (ground (arith, r))
      | inr (a, d, p, r) ↦
          let it = read_submission-IsRead user app draft approval expected now db a d p r in
          let same = (find_approval-key user approval db.approvals p it.approval_found).0 in
          let same_app = (find_app-key user app db.apps a it.app_found).0 in
          let step : submit_application meanwhile user app draft approval expected sub now db
              ≡ write_submission user sub now a d p (meanwhile db) =
            rw (submit_application, r) refl in
          let (now_app, now_approval, written, ep, ea, ev) =
            write_submission_locked user sub now a d p (meanwhile db) (find_app user app db.apps)
              (find_approval user approval db.approvals) row it.app_found it.approval_found
              (rw same_app (ma db)) (rw same (mp db)) (ap (λ q. q.1) (sym step) ∙ h) in
          (
            a,
            d,
            p,
            it.covers,
            it.app_found,
            it.draft_found,
            it.expected_revision,
            rw (← same_app) now_app,
            rw (← same) now_approval,
            rw (step, ← same_app) written,
            ep ∙ same,
            ea ∙ same_app,
            ev,
          )
    ]
