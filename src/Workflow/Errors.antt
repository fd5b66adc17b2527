-- ===== src/Workflow/Errors.antt =====
-- Errors of the workflow (packages/graph/src/workflows/article-generation-workflow.ts).
use open_blog_agent.Prelude.{
  String, ◌==◌, Option, none, some, if◌then◌else◌, is_some, ◌≡◌, ◌⊎◌, inl, inr, refl,
}

-- A thrown value: its `code` and, of an `Error`, its name; `step` is that of a `WorkflowStepError`.
pub record Thrown : Type 0 where
  pub step : Option String
  pub code : Option String
  pub name : Option String
  pub message : String

pub data Result (A : Type 0) : Type 0 where
  ok : A → Result A
  err : Thrown → Result A

-- `errorCode`
abbrev pub name_code : Option String → String
name_code none = "step_failed"
name_code (some n) = if n == "Error" then "step_failed" else n

unfoldable pub error_code : Thrown → String
error_code e = elim e.code [
  | none ↦ name_code e.name
  | some c ↦ if c == "" then name_code e.name else c
]

-- `new WorkflowStepError(step, cause)`
unfoldable pub step_error : String → Thrown → Thrown
unfolding error_code
step_error step cause = record {
  step = some step;
  code = some (error_code cause);
  name = some "WorkflowStepError";
  message = cause.message;
}

-- `error instanceof WorkflowStepError ? error : new WorkflowStepError(name, error)`
unfoldable pub as_step_error : String → Thrown → Thrown
unfolding step_error
as_step_error step e = if is_some e.step then e else step_error step e

-- an `Error` without a code
abbrev pub plain_error : String → Thrown
plain_error message = record { step = none; code = none; name = some "Error"; message = message }

abbrev pub coded_error : String → String → String → Thrown
coded_error name code message = record {
  step = none;
  code = some code;
  name = some name;
  message = message;
}

-- a `ZodError`
abbrev pub schema_error : String → Thrown
schema_error message = record {
  step = none;
  code = none;
  name = some "ZodError";
  message = message;
}

pub Result-cases :
    {A : Type 0} (r : Result A) → ((a : A) × (r ≡ ok a)) ⊎ ((e : Thrown) × (r ≡ err e))
Result-cases (ok a) = inl (a, refl)
Result-cases (err e) = inr (e, refl)
