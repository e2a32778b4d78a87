-- ===== src/Core/Applications/Submit/Once.antt =====
-- The one statement of `submitApplication`, in services/core-api/src/routes/applications.ts, when other
-- requests come in between.
use push_be.Prelude.{
  ℕ, ◌==◌, ◌≡◌, refl, ap, ◌∙◌, ◌⊎◌, inl, inr, Bool, true, false, ◌&&◌, Option, none, some, List, [],
  ◌∷◌, arith, eqb, eqb_iff, if◌then◌else◌, Bool-cases, Option-cases, All, any_of, and-eq-true,
}
use push_be.Core.Applications.Database.{
  App, Draft, Approval, Submission, Db, find_approval, update_approval, app_at, approval_at,
}
use push_be.Core.Applications.Rows.{
  Follows, Follows-row, approval_revision, find_approval-key, find_approval-update_approval,
  find_approval-update_other,
}
use push_be.Core.Applications.Submit.{
  Error, Result, ok, err, consumed, write_submission, read_submission, submit_application,
}
use push_be.Core.Applications.Submit.Reads.{read_submission-IsRead}

-- The approval of a submission is used up.
abbrev is_used : Option Approval → Bool
is_used none = false
is_used (some p) = p.status == "CONSUMED"

abbrev pub Used : List Approval → List Submission → Type 0
Used ps ss = All (λ s. is_used (find_approval s.user s.approval ps) ≡ true) ss

abbrev by : (user approval : ℕ) → Submission → Bool
by user approval s = eqb s.user user && eqb s.approval approval

-- No two submissions have one approval.
abbrev pub Distinct : List Submission → Type 0
Distinct [] = Unit
Distinct (s ∷ ss) = (any_of (by s.user s.approval) ss ≡ false) × Distinct ss

-- Each submission has an approval of its own, which is used up.
pub record IsOnce (db : Db) : Type 0 where
  pub used : Used db.approvals db.submissions
  pub distinct : Distinct db.submissions

keeps_key :
    (now : ℕ) (a : Approval) → ((consumed now a).id ≡ a.id) × ((consumed now a).user ≡ a.user)
keeps_key now a = (refl, refl)

is_used-update :
    (user id revision now : ℕ) (ps : List Approval) (u j : ℕ)
    → is_used (find_approval u j ps) ≡ true
    → is_used (find_approval u j (update_approval user id revision (consumed now) ps)) ≡ true
is_used-update user id revision now ps u j h = elim (Bool-cases (eqb id j && eqb user u)) [
  | inr e ↦
      rw (find_approval-update_other user id revision (consumed now) (keeps_key now) u j ps e) h
  | inl e ↦
      let same_id : id ≡ j = ground (arith, e) in
      let same_user : user ≡ u = ground (arith, e) in
      let written =
        find_approval-update_approval user id revision (consumed now) (keeps_key now) ps in
      rw (← same_id, ← same_user, written)
        (still (find_approval user id ps) (rw (same_id, same_user) h))
]
  where
    still :
        (o : Option Approval)
        → is_used o ≡ true
        → is_used (elim o [
          | none ↦ none
          | some a ↦ some (if eqb a.revision revision then consumed now a else a)
        ])
          ≡ true
    still none h = h
    still (some a) h = elim (Bool-cases (eqb a.revision revision)) [
      | inl e ↦ rw e refl
      | inr e ↦ rw e h
    ]

Used-update :
    (user id revision now : ℕ) (ps : List Approval) (ss : List Submission)
    → Used ps ss
    → Used (update_approval user id revision (consumed now) ps) ss
Used-update user id revision now ps [] h = tt
Used-update user id revision now ps (s ∷ ss) (p, h) = (
  is_used-update user id revision now ps s.user s.approval p,
  Used-update user id revision now ps ss h,
)

-- An approval that is not used up has no submission.
unused :
    (user approval : ℕ) (ps : List Approval) (ss : List Submission)
    → Used ps ss
    → is_used (find_approval user approval ps) ≡ false
    → any_of (by user approval) ss ≡ false
unused user approval ps [] h n = refl
unused user approval ps (s ∷ ss) (p, h) n = elim (Bool-cases (by user approval s)) [
  | inr e ↦ ground (arith, e, unused user approval ps ss h n)
  | inl e ↦
      let same_user : s.user ≡ user = ground (arith, e) in
      let same_id : s.approval ≡ approval = ground (arith, e) in cc
]

pub approval_at-row :
    (user id revision : ℕ) (db : Db)
    → approval_at user id revision db ≡ true
    → (b : Approval) × (find_approval user id db.approvals ≡ some b) × (b.revision ≡ revision)
approval_at-row user id revision db h = elim (Option-cases (find_approval user id db.approvals)) [
  | inl e ↦ absurd (ground (arith, e))
  | inr (b, e) ↦ (b, e, ground (arith, e))
]

-- After the statement the approval is used up.
consumed-is_used :
    (user id revision now : ℕ) (ps : List Approval) (p : Approval)
    → find_approval user id ps ≡ some p
    → p.revision ≡ revision
    → is_used (find_approval user id (update_approval user id revision (consumed now) ps)) ≡ true
consumed-is_used user id revision now ps p h r =
    let written =
      find_approval-update_approval user id revision (consumed now) (keeps_key now) ps in
    let same : eqb p.revision revision ≡ true = ground (arith, eqb_iff p.revision revision) in
    rw (written, h, same) refl

write_submission-IsOnce :
    (user sub now : ℕ) (a : App) (d : Draft) (p : Approval) (db : Db) (before : Option Approval)
    → before ≡ some p
    → p.status ≡ "APPROVED"
    → Follows approval_revision before (find_approval user p.id db.approvals)
    → IsOnce db
    → IsOnce (write_submission user sub now a d p db).0
unfolding write_submission
write_submission-IsOnce user sub now a d p db before found approved f h =
    elim (Bool-cases (approval_at user p.id p.revision db && app_at user a.id a.revision db)) [
      | inr e ↦ rw (write_submission, e) h
      | inl e ↦
          let (q, there, at) =
            approval_at-row user p.id p.revision db
              (and-eq-true (approval_at user p.id p.revision db) _ e).0 in
          let same : q ≡ p =
            Follows-row approval_revision before (find_approval user p.id db.approvals) p q found
              there f at in
          let there' : find_approval user p.id db.approvals ≡ some p = there ∙ ap some same in
          let fresh : is_used (find_approval user p.id db.approvals) ≡ false =
            rw (there', approved) refl in
          let it : IsOnce _ = record {
            used = (
              consumed-is_used user p.id p.revision now db.approvals p there' refl,
              Used-update user p.id p.revision now db.approvals db.submissions h.used,
            );
            distinct = (unused user p.id db.approvals db.submissions h.used fresh, h.distinct);
          } in
          rw (write_submission, e) it
    ]

pub read_cases :
    (r : Result (App × Draft × Approval))
    → ((e : Error) × (r ≡ err e)) ⊎ ((a : App) × (d : Draft) × (p : Approval) × (r ≡ ok (a, d, p)))
read_cases (ok (a, d, p)) = inr (a, d, p, refl)
read_cases (err e) = inl (e, refl)

-- An approval is submitted once: if each submission has its own approval, which is used up, and the
-- requests in between keep that and leave an approval as it is or raise its revision, then it is so
-- after a submission too, whatever the answer.
pub submit_application-IsOnce :
    (meanwhile : Db → Db) (user app draft approval expected sub now : ℕ) (db : Db)
    → ((d : Db)
        → Follows approval_revision
            (find_approval user approval d.approvals)
            (find_approval user approval (meanwhile d).approvals))
    → ((d : Db) → IsOnce d → IsOnce (meanwhile d))
    → IsOnce db
    → IsOnce (submit_application meanwhile user app draft approval expected sub now db).0
unfolding submit_application
submit_application-IsOnce meanwhile user app draft approval expected sub now db m k h =
    elim (read_cases (read_submission user app draft approval expected now db)) [
      | inl (e, r) ↦ rw (submit_application, r) h
      | inr (a, d, p, r) ↦
          let it = read_submission-IsRead user app draft approval expected now db a d p r in
          let same = (find_approval-key user approval db.approvals p it.approval_found).0 in
          rw (submit_application, r)
            (write_submission-IsOnce user sub now a d p (meanwhile db)
              (find_approval user approval db.approvals) it.approval_found it.covers.is_approved
              (rw same (m db)) (k db h))
    ]
