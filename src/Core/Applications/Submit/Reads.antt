-- ===== src/Core/Applications/Submit/Reads.antt =====
-- What the checks of `submitApplication` and `createSubmissionDraft` have shown where they pass:
-- services/core-api/src/routes/applications.ts.
use push_be.Prelude.{
  ℕ, String, ◌==◌, eq_iff, ◌≡◌, refl, sym, ◌∙◌, inl, inr, true, false, not, ◌||◌, none, some, List,
  [], ◌∷◌, arith, eqb, Bool-cases, Option-cases, All,
}
use push_be.Core.Applications.Stages.{is_terminal}
use push_be.Core.Applications.Database.{
  App, Version, Draft, Approval, Db, find_app, find_draft, find_approval, find_version,
}
use push_be.Core.Applications.Submit.{
  Result, ok, Request, is_empty, version_error, versions_error, mode_error, create_submission_draft,
  draft_error, approval_error, is_past, read_submission,
}

-- A draft and an approval that cover the application at the time.
pub record Covers (now : ℕ) (a : App) (d : Draft) (p : Approval) : Type 0 where
  pub same_app : d.app ≡ a.id
  pub same_revision : d.revision ≡ a.revision
  pub right_kind : p.kind ≡ "APPLICATION_SUBMIT"
  pub approved_app : p.app ≡ a.id
  pub approved_draft : p.target ≡ d.id
  pub in_time : is_past now p.expires_at ≡ false
  pub is_approved : p.status ≡ "APPROVED"
  pub same_content : (d.hash == "" || p.hash == d.hash) ≡ true
  pub confirmed : (not d.is_manual || d.confirmed) ≡ true
  pub is_open : is_terminal a.stage ≡ false

draft_error-none :
    (a : App) (d : Draft) → draft_error a d ≡ none → (d.app ≡ a.id) × (d.revision ≡ a.revision)
draft_error-none a d h = ground arith

approval_error-none :
    (now : ℕ) (a : App) (d : Draft) (p : Approval)
    → draft_error a d ≡ none
    → approval_error now a d p ≡ none
    → Covers now a d p
approval_error-none now a d p h k =
    let (same_app, same_revision) = draft_error-none a d h in
    let kind = eq_iff p.kind "APPLICATION_SUBMIT" in
    let status = eq_iff p.status "APPROVED" in
    record {
      same_app = same_app;
      same_revision = same_revision;
      right_kind = ground (arith, kind);
      approved_app = ground arith;
      approved_draft = ground arith;
      in_time = ground arith;
      is_approved = ground (arith, status);
      same_content = ground arith;
      confirmed = ground arith;
      is_open = ground arith;
    }

-- The rows that a submission reads where it passes the checks.
pub record IsRead (user app draft approval expected now : ℕ) (db : Db) (a : App) (d : Draft)
    (p : Approval) : Type 0 where
  pub app_found : find_app user app db.apps ≡ some a
  pub expected_revision : a.revision ≡ expected
  pub draft_found : find_draft user draft db.drafts ≡ some d
  pub approval_found : find_approval user approval db.approvals ≡ some p
  pub covers : Covers now a d p

ok_parts :
    (a a' : App) (d d' : Draft) (p p' : Approval)
    → ◌≡◌ {A = Result (App × Draft × Approval)} (ok (a, d, p)) (ok (a', d', p'))
    → (a ≡ a') × (d ≡ d') × (p ≡ p')
ok_parts a a' d d' p p' h = ground arith

-- A submission that passes the checks of the reads.
pub read_submission-IsRead :
    (user app draft approval expected now : ℕ) (db : Db) (a : App) (d : Draft) (p : Approval)
    → read_submission user app draft approval expected now db ≡ ok (a, d, p)
    → IsRead user app draft approval expected now db a d p
unfolding read_submission
read_submission-IsRead user app draft approval expected now db a d p h =
    elim (Option-cases (find_app user app db.apps)) [
      | inl e ↦ absurd (ground (arith, e))
      | inr (x, e) ↦ elim (Bool-cases (eqb x.revision expected)) [
        | inr r ↦ absurd (ground (arith, e, r))
        | inl r ↦ elim (Option-cases (find_draft user draft db.drafts)) [
          | inl f ↦ absurd (ground (arith, e, r, f))
          | inr (y, f) ↦ elim (Option-cases (draft_error x y)) [
            | inr (q, g) ↦ absurd (ground (arith, e, r, f, g))
            | inl g ↦ elim (Option-cases (find_approval user approval db.approvals)) [
              | inl k ↦ absurd (ground (arith, e, r, f, g, k))
              | inr (z, k) ↦ elim (Option-cases (approval_error now x y z)) [
                | inr (q, l) ↦ absurd (ground (arith, e, r, f, g, k, l))
                | inl l ↦
                    let found : ◌≡◌ {A = Result (App × Draft × Approval)} (ok (x, y, z))
                        (ok (a, d, p)) =
                      sym (rw (read_submission, e, r, f, g, k, l) refl) ∙ h in
                    let (same_a, same_d, same_p) = ok_parts x a y d z p found in
                    let it : IsRead user app draft approval expected now db x y z = record {
                      app_found = e;
                      expected_revision = ground (arith, r);
                      draft_found = f;
                      approval_found = k;
                      covers = approval_error-none now x y z g l;
                    } in
                    rw (← same_a, ← same_d, ← same_p) it
              ]
            ]
          ]
        ]
      ]
    ]

-- The versions of a draft belong to the application, and each is the finalized one of its document.
abbrev pub Finalized : (user app : ℕ) → List Version → List ℕ → Type 0
Finalized user app versions ids =
    All
      (λ id.
        (v : Version) × (find_version user id versions ≡ some v)
        × (v.app ≡ app)
        × (v.finalized ≡ some v.id))
      ids

version_error-none :
    (app : ℕ) (v : Version) → version_error app v ≡ none → (v.app ≡ app) × (v.finalized ≡ some v.id)
version_error-none app v h = elim (Option-cases v.finalized) [
  | inl e ↦ ground (arith, e)
  | inr (f, e) ↦ ground (arith, e)
]

versions_error-none :
    (user app : ℕ) (ids : List ℕ) (versions : List Version)
    → versions_error user app ids versions ≡ none
    → Finalized user app versions ids
unfolding versions_error
versions_error-none user app [] versions h = tt
versions_error-none user app (id ∷ ids) versions h =
    elim (Option-cases (find_version user id versions)) [
      | inl e ↦ absurd (ground (arith, e))
      | inr (v, e) ↦ elim (Option-cases (version_error app v)) [
        | inr (q, g) ↦ absurd (ground (arith, e, g))
        | inl g ↦
            let (same, final) = version_error-none app v g in
            ((v, e, same, final), versions_error-none user app ids versions (ground (arith, e, g)))
      ]
    ]

mode_error-none :
    (r : Request) → mode_error r ≡ none → (r.mode ≡ "MANUAL_RECORD") × (is_empty r.versions ≡ false)
mode_error-none r h =
    let by_hand = eq_iff r.mode "MANUAL_RECORD" in
    elim (Option-cases r.adapter) [
      | inl e ↦ ground (arith, e, by_hand)
      | inr (s, e) ↦ ground (arith, e, by_hand)
    ]

-- A draft is made only for an application at the expected revision, by hand and not by an adapter, and
-- from at least one version, all of them the application's and final; it holds that revision and its
-- digest, by which the submission is checked later.
pub create_submission_draft_sound :
    (digest : ℕ → ℕ → List ℕ → String) (user app id : ℕ) (r : Request) (db : Db) (d : Draft)
    → (create_submission_draft digest user app id r db).1 ≡ ok d
    → (a : App) × (find_app user app db.apps ≡ some a)
      × (a.revision ≡ r.expected)
      × (d.revision ≡ a.revision)
      × (d.app ≡ app)
      × (d.hash ≡ digest app a.revision r.versions)
      × (r.mode ≡ "MANUAL_RECORD")
      × (is_empty r.versions ≡ false)
      × Finalized user app db.versions r.versions
unfolding create_submission_draft
create_submission_draft_sound digest user app id r db d h =
    elim (Option-cases (find_app user app db.apps)) [
      | inl e ↦ absurd (ground (arith, e))
      | inr (a, e) ↦ elim (Bool-cases (eqb a.revision r.expected)) [
        | inr x ↦ absurd (ground (arith, e, x))
        | inl x ↦ elim (Option-cases (mode_error r)) [
          | inr (q, m) ↦ absurd (ground (arith, e, x, m))
          | inl m ↦ elim (Option-cases (versions_error user app r.versions db.versions)) [
            | inr (q, v) ↦ absurd (ground (arith, e, x, m, v))
            | inl v ↦
                let (by_hand, some_version) = mode_error-none r m in
                (
                  a,
                  e,
                  ground (arith, x),
                  ground (arith, e, x, m, v),
                  ground (arith, e, x, m, v),
                  ground (arith, e, x, m, v),
                  by_hand,
                  some_version,
                  versions_error-none user app r.versions db.versions v,
                )
          ]
        ]
      ]
    ]
