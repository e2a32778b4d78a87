-- ===== src/Core/Applications/Stages.antt =====
-- The stages of services/core-api/src/routes/applications.ts.
use push_be.Prelude.{
  ℕ, suc, Bool, true, false, ◌&&◌, ◌||◌, not, Option, none, some, eqb, if◌then◌else◌,
}

pub data Stage : Type 0 where
  discovered preparing ready applied screening interview offer accepted rejected withdrawn : Stage

-- One more than the index in STAGE_ORDER, 0 where it is not in it.
abbrev pub stage_index : Stage → ℕ
stage_index discovered = 1
stage_index preparing = 2
stage_index ready = 3
stage_index applied = 4
stage_index screening = 5
stage_index interview = 6
stage_index offer = 7
stage_index accepted = 8
stage_index _ = 0

-- TERMINAL
abbrev pub is_terminal : Stage → Bool
is_terminal accepted = true
is_terminal rejected = true
is_terminal withdrawn = true
is_terminal _ = false

abbrev pub is_applied_stage : Stage → Bool
is_applied_stage applied = true
is_applied_stage _ = false

abbrev pub is_ended : Stage → Bool
is_ended rejected = true
is_ended withdrawn = true
is_ended _ = false

abbrev pub same_stage : Stage → Stage → Bool
same_stage rejected rejected = true
same_stage withdrawn withdrawn = true
same_stage a b = not (is_ended a) && eqb (stage_index a) (stage_index b)

abbrev pub after_applied : Stage → Bool
after_applied screening = true
after_applied interview = true
after_applied offer = true
after_applied _ = false

-- `isApplied`, of the checklist and the list of applications
abbrev pub is_applied : Stage → Option ℕ → Bool
is_applied stage (some t) = true
is_applied stage none = is_terminal stage || is_applied_stage stage || after_applied stage

unfoldable pub can_patch_stage : Stage → Stage → Bool
can_patch_stage from to =
    if same_stage from to
    then true
    else if is_terminal from
    then false
    else if is_ended to
    then true
    else if is_applied_stage to
    then false
    else eqb (stage_index to) (suc (stage_index from))
