-- ===== src/Orchestrator/Task/Brief.antt =====
-- `Task.update_brief` of apps/orchestrator/src/domain/task.py.
use keviq_core.Prelude.{
  ℕ, String, ◌≡◌, ◌∙◌, refl, inl, inr, Bool-cases, Bool, true, false, Option, none, some, List, [],
  ◌∷◌, is_blank, if◌then◌else◌, arith,
}
use keviq_core.Errors.{domain_validation, Result, ok, err, ◌>>◌, raise_if, Result-cases}
use keviq_core.Orchestrator.Task.{Task, TaskStatus, draft, bad_risk, is_missing}

-- One keyword argument of `update_brief`: a constructor for each allowed key, and `other` for any
-- other key.
pub data BriefField : Type 0 where
  title goal context constraints desired_output description : Option String → BriefField
  template_id agent_template_id : Option ℕ → BriefField
  risk_level : Option String → BriefField
  other : String → BriefField

abbrev pub is_draft : TaskStatus → Bool
is_draft draft = true
is_draft _ = false

-- `title` passed the test for a blank value, so it is there.
abbrev text_or : Option String → String → String
text_or none old = old
text_or (some s) _ = s

-- One round of the loop.
unfoldable pub set_field : BriefField → Task → Result Task
unfolding is_missing bad_risk
set_field (title v) t = do
  raise_if (is_missing v) domain_validation
  ok (record t { title = text_or v t.title })
set_field (goal v) t = ok (record t { goal = v })
set_field (context v) t = ok (record t { context = v })
set_field (constraints v) t = ok (record t { constraints = v })
set_field (desired_output v) t = ok (record t { desired_output = v })
set_field (description v) t = ok (record t { description = v })
set_field (template_id v) t = ok (record t { template_id = v })
set_field (agent_template_id v) t = ok (record t { agent_template_id = v })
set_field (risk_level v) t = do
  raise_if (bad_risk v) domain_validation
  ok (record t { risk_level = v })
set_field (other _) t = err domain_validation

-- The loop. What was set before a key raised stays set on the object.
unfoldable pub set_fields : List BriefField → Task → Result (Unit {0}) × Task
unfolding set_field
set_fields [] t = (ok tt, t)
set_fields (f ∷ fs) t = elim (set_field f t) [ ok t' ↦ set_fields fs t' | err e ↦ (err e, t) ]

abbrev stamp : ℕ → Result (Unit {0}) × Task → Result (Unit {0}) × Task
stamp now (ok _, t) = (ok tt, record t { updated_at = now })
stamp now (err e, t) = (err e, t)

-- `Task.update_brief`
unfoldable pub update_brief : List BriefField → ℕ → Task → Result (Unit {0}) × Task
unfolding set_fields
update_brief fields now t =
    if is_draft t.task_status then stamp now (set_fields fields t) else (err domain_validation, t)

-- What every task in the tables satisfies: `Task.__init__` would raise on it otherwise.
pub record IsSound (t : Task) : Type 0 where
  pub titled : is_blank t.title ≡ false
  pub rated : bad_risk t.risk_level ≡ false

set_field-IsSound :
    (f : BriefField) (t : Task) {t' : Task} → IsSound t → set_field f t ≡ ok t' → IsSound t'
unfolding set_field
set_field-IsSound (title (some s)) t v h = ground arith
set_field-IsSound f t v h = ground arith

set_field-status :
    (f : BriefField) (t t' : Task) → set_field f t ≡ ok t' → t'.task_status ≡ t.task_status
unfolding set_field
set_field-status f t t' h = ground arith

set_fields-IsSound : (fs : List BriefField) (t : Task) → IsSound t → IsSound (set_fields fs t).1
unfolding set_fields
set_fields-IsSound [] t v = v
set_fields-IsSound (f ∷ fs) t v = elim (Result-cases (set_field f t)) [
  | inl (t', e) ↦ rw (e, set_fields) (set_fields-IsSound fs t' (set_field-IsSound f t v e))
  | inr (x, e) ↦ rw (e, set_fields) v
]

set_fields-status :
    (fs : List BriefField) (t : Task) → (set_fields fs t).1.task_status ≡ t.task_status
unfolding set_fields
set_fields-status [] t = refl
set_fields-status (f ∷ fs) t = elim (Result-cases (set_field f t)) [
  | inl (t', e) ↦ rw (e, set_fields) (set_fields-status fs t' ∙ set_field-status f t t' e)
  | inr (x, e) ↦ rw (e, set_fields)
]

stamp-IsSound : (now : ℕ) (p : Result (Unit {0}) × Task) → IsSound p.1 → IsSound (stamp now p).1
stamp-IsSound now (ok _, t) v = record { titled = v.titled; rated = v.rated }
stamp-IsSound now (err e, t) v = v

stamp-status :
    (now : ℕ) (p : Result (Unit {0}) × Task) → (stamp now p).1.task_status ≡ p.1.task_status
stamp-status now (ok _, t) = refl
stamp-status now (err e, t) = refl

-- Whatever fields are given and whether or not the call raises half way, a brief update leaves a
-- task with a title that is not blank and with a risk level that is absent, empty or known.
pub update_brief-IsSound :
    (fs : List BriefField) (now : ℕ) (t : Task) → IsSound t → IsSound (update_brief fs now t).1
unfolding update_brief
update_brief-IsSound fs now t v = elim (Bool-cases (is_draft t.task_status)) [
  | inl d ↦ rw d (stamp-IsSound now (set_fields fs t) (set_fields-IsSound fs t v))
  | inr d ↦ rw d v
]

-- A brief update never moves a task to another status.
pub update_brief-status :
    (fs : List BriefField) (now : ℕ) (t : Task)
    → (update_brief fs now t).1.task_status ≡ t.task_status
unfolding update_brief
update_brief-status fs now t = elim (Bool-cases (is_draft t.task_status)) [
  | inl d ↦ rw d (stamp-status now (set_fields fs t) ∙ set_fields-status fs t)
  | inr d ↦ rw d
]
