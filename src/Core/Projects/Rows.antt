-- ===== src/Core/Projects/Rows.antt =====
-- The runs of services/core-api/src/routes/projects.ts under a guarded update.
use push_be.Prelude.{
  ℕ, ◌≡◌, refl, inl, inr, Bool, true, false, not, ◌&&◌, Option, none, some, List, [], ◌∷◌, arith,
  eqb, All, Bool-cases,
}
use push_be.Prelude.Int.{ℤ}
use push_be.Core.Projects.{
  RunState, approval_required, running, verifying, failed, verified, not_claimed, finished, Run, Db,
  find_run, update_run, same_launch, is_zero,
}

abbrev is_some {ℓ} : {A : Type ℓ} → Option A → Bool
is_some none = false
is_some (some a) = true

abbrev passed : Option ℤ → Bool
passed none = false
passed (some c) = is_zero c

-- How the columns of a run hang together in each state.
abbrev pub consistent_in : RunState → Run → Bool
consistent_in approval_required r = same_launch r.launch not_claimed && not (is_some r.finished_at)
consistent_in running r =
    not (same_launch r.launch finished)
    && (is_some r.device && (is_some r.approval && not (is_some r.finished_at)))
consistent_in verifying r =
    same_launch r.launch finished && (passed r.exit && is_some r.finished_at)
consistent_in failed r =
    same_launch r.launch finished && (is_some r.failure && is_some r.finished_at)
consistent_in verified r = same_launch r.launch finished && (passed r.exit && is_some r.finished_at)

abbrev pub is_consistent : Run → Bool
is_consistent r = consistent_in r.state r

-- Every run is consistent.
abbrev pub Consistent : Db → Type 0
Consistent db = All (λ r. is_consistent r ≡ true) db.runs

pub Consistent-find :
    (user id : ℕ) (rs : List Run) (r : Run)
    → All (λ s. is_consistent s ≡ true) rs
    → find_run user id rs ≡ some r
    → is_consistent r ≡ true
unfolding find_run
Consistent-find user id [] r h k = cc
Consistent-find user id (s ∷ rs) r (p, h) k = elim (Bool-cases (eqb s.id id && eqb s.user user)) [
  | inl e ↦ let same : s ≡ r = ground (arith, e) in rw (← same) p
  | inr e ↦ Consistent-find user id rs r h (ground (arith, e))
]

-- An update keeps the runs consistent where it leaves the one that it finds so.
pub Consistent-update :
    (user id revision : ℕ) (change : Run → Run) (rs : List Run)
    → ((r : Run)
        → find_run user id rs ≡ some r
        → eqb r.revision revision ≡ true
        → is_consistent (change r) ≡ true)
    → All (λ s. is_consistent s ≡ true) rs
    → All (λ s. is_consistent s ≡ true) (update_run user id revision change rs)
unfolding update_run find_run
Consistent-update user id revision change [] c h = tt
Consistent-update user id revision change (s ∷ rs) c (p, h) =
    elim (Bool-cases (eqb s.id id && eqb s.user user)) [
      | inl e ↦ elim (Bool-cases (eqb s.revision revision)) [
        | inl f ↦ rw (e, f) (c s (rw e refl) f, h)
        | inr f ↦ rw (e, f) (p, h)
      ]
      | inr e ↦ rw e (p, Consistent-update user id revision change rs (λ r k. c r (rw e k)) h)
    ]
