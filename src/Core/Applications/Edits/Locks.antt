-- ===== src/Core/Applications/Edits/Locks.antt =====
-- The revision as a lock: `patchApplication` of services/core-api/src/routes/applications.ts.
use push_be.Prelude.{
  ℕ, ◌≡◌, refl, ◌⊎◌, inl, inr, true, not, ◌&&◌, ◌||◌, Option, none, some, arith, eqb, Bool-cases,
  Option-cases,
}
use push_be.Core.Applications.Stages.{Stage, is_applied_stage, can_patch_stage}
use push_be.Core.Applications.Database.{App, Db, find_app, app_at}
use push_be.Core.Applications.Rows.{
  Follows, Follows-refl, Follows-trans, app_revision, update_app-Follows,
}
use push_be.Core.Applications.Edits.{
  Error, not_found, revision_conflict, Result, ok, err, Patch, next_stage, patched, write_patch,
  patch_application,
}

-- What a patch may do to the stage.
abbrev pub IsPatchStep : Stage → Stage → Type 0
IsPatchStep from to =
    (can_patch_stage from to ≡ true) × ((not (is_applied_stage to) || is_applied_stage from) ≡ true)

same_step : (from : Stage) → IsPatchStep from from
unfolding can_patch_stage
same_step from = ground arith

next_stage-IsPatchStep :
    (s : Option (Option Stage)) (from to : Stage) → next_stage s from ≡ ok to → IsPatchStep from to
next_stage-IsPatchStep none from to h = ground (arith, same_step from)
next_stage-IsPatchStep (some none) from to h = cc
next_stage-IsPatchStep (some (some s)) from to h =
    elim (Bool-cases (is_applied_stage s && not (is_applied_stage from))) [
      | inl e ↦ absurd (ground (arith, e))
      | inr e ↦ elim (Bool-cases (can_patch_stage from s)) [
        | inr c ↦ absurd (ground (arith, e, c))
        | inl c ↦
            let same : ◌≡◌ {A = Result Stage} (ok s) (ok to) = ground (arith, e, c) in
            let eq : s ≡ to = cc in rw (← eq) (c, ground arith)
      ]
    ]

abbrev keeps_key :
    (p : Patch) (stage : Stage) (now : ℕ) (a b : App)
    → ((patched p stage now a b).id ≡ b.id) × ((patched p stage now a b).user ≡ b.user)
keeps_key p stage now a b = (refl, refl)

-- The handler refuses before it writes, or the row that it read has the expected revision.
patch_application-cases :
    (meanwhile : Db → Db) (user id now : ℕ) (p : Patch) (db : Db)
    → ((e : Error) × (patch_application meanwhile user id now p db ≡ (db, err e)))
      ⊎ ((a : App) × (stage : Stage) × (find_app user id db.apps ≡ some a)
          × (a.revision ≡ p.expected)
          × IsPatchStep a.stage stage
          × (patch_application meanwhile user id now p db
              ≡ write_patch user id now p stage a (meanwhile db)))
unfolding patch_application
patch_application-cases meanwhile user id now p db =
    elim (Option-cases (find_app user id db.apps)) [
      | inl e ↦ inl (not_found, rw (patch_application, e) refl)
      | inr (a, e) ↦ elim (Bool-cases (eqb a.revision p.expected)) [
        | inr r ↦ inl (revision_conflict, rw (patch_application, e, r) refl)
        | inl r ↦ elim (stage_cases (next_stage p.stage a.stage)) [
          | inl (f, s) ↦ inl (f, rw (patch_application, e, r, s) refl)
          | inr (stage, s) ↦ inr (
            a,
            stage,
            e,
            ground (arith, r),
            next_stage-IsPatchStep p.stage a.stage stage s,
            rw (patch_application, e, r, s) refl,
          )
        ]
      ]
    ]
  where
    stage_cases : (r : Result Stage) → ((f : Error) × (r ≡ err f)) ⊎ ((s : Stage) × (r ≡ ok s))
    stage_cases (ok s) = inr (s, refl)
    stage_cases (err f) = inl (f, refl)

write_patch-Follows :
    (user id now : ℕ) (p : Patch) (stage : Stage) (a : App) (db : Db) (u j : ℕ)
    → Follows app_revision
        (find_app u j db.apps)
        (find_app u j (write_patch user id now p stage a db).0.apps)
unfolding write_patch
write_patch-Follows user id now p stage a db u j =
    elim (Bool-cases (app_at user id p.expected db)) [
      | inl e ↦
          rw (write_patch, e)
            (update_app-Follows user id p.expected (patched p stage now a) (keeps_key p stage now a)
              u j db.apps (λ b. omega arith))
      | inr e ↦ rw (write_patch, e) (Follows-refl app_revision (find_app u j db.apps))
    ]

-- A patch leaves every application as it is or raises its revision, if the requests in between do.
pub patch_application-Follows :
    (meanwhile : Db → Db) (user id now : ℕ) (p : Patch) (db : Db) (u j : ℕ)
    → ((d : Db) → Follows app_revision (find_app u j d.apps) (find_app u j (meanwhile d).apps))
    → Follows app_revision
        (find_app u j db.apps)
        (find_app u j (patch_application meanwhile user id now p db).0.apps)
patch_application-Follows meanwhile user id now p db u j m =
    elim (patch_application-cases meanwhile user id now p db) [
      | inl (f, e) ↦ rw e (Follows-refl app_revision (find_app u j db.apps))
      | inr (a, stage, found, r, step, e) ↦ rw e (
          Follows-trans app_revision (find_app u j db.apps) (find_app u j (meanwhile db).apps) _
            (m db) (write_patch-Follows user id now p stage a (meanwhile db) u j))
    ]
