-- ===== src/Workflow/Exec.antt =====
-- Asynchronous code of the workflow: it may throw, and what it changed before stays changed.
-- Log lines are left out.
use open_blog_agent.Prelude.{ℕ, suc, String, ◌==◌, Option, none, some, List, if◌then◌else◌, join}
use open_blog_agent.Types.Usage.{LlmUsage, add_usage}
use open_blog_agent.Types.Publish.{PublishArticle}
use open_blog_agent.Storage.Models.{Db}
use open_blog_agent.Workflow.Errors.{Thrown, Result, ok, err, plain_error, schema_error}
use open_blog_agent.Workflow.Ports.{Ports, Notification}

-- `sent` are the articles given to `publisher.publish`, `told` the notifications, in order.
pub record World : Type 0 where
  pub db : Db
  pub calls : ℕ
  pub usage : LlmUsage
  pub sent : List PublishArticle
  pub told : List Notification

abbrev pub Exec : Type 0 → Type 0
Exec A = World → Result A × World

abbrev pub continue : {A B : Type 0} → Result A → (A → Exec B) → Exec B
continue (ok a) f w = f a w
continue (err e) f w = (err e, w)

infixl 10 ◌>>=◌ ◌>>◌
abbrev pub ◌>>=◌ : {A B : Type 0} → Exec A → (A → Exec B) → Exec B
◌>>=◌ m f w = let (r, w') = m w in continue r f w'

abbrev pub ◌>>◌ : {A B : Type 0} → Exec A → Exec B → Exec B
m >> n = m >>= λ _. n

abbrev pub pure : {A : Type 0} → A → Exec A
pure a w = (ok a, w)

abbrev pub throw : {A : Type 0} → Thrown → Exec A
throw e w = (err e, w)

-- A call of a port.
abbrev pub ask : {A : Type 0} → (ℕ → Result A) → Exec A
ask port w = (port w.calls, record w { calls = suc w.calls })

-- A call of an agent: what it spends is added to the usage of the run, whether it returns or throws.
abbrev pub ask_agent : {A : Type 0} → Ports → (ℕ → Result A) → Exec A
ask_agent p port w =
    (port w.calls, record w { calls = suc w.calls; usage = add_usage w.usage (p.spent w.calls) })

-- `memory.…`, with the time that it reads
abbrev pub with_db : Ports → (ℕ → Db → Db) → Exec (Unit {0})
with_db p f w = (ok tt, record w { db = f (p.clock w.calls) w.db })

-- the same, with a random id
abbrev pub with_id : Ports → (String → ℕ → Db → Db) → Exec (Unit {0})
with_id p f w =
    (ok tt, record w { db = f (p.uuid w.calls) (p.clock w.calls) w.db; calls = suc w.calls })

abbrev pub get_world : Exec World
get_world w = (ok w, w)

-- `required(value, field)`
abbrev pub required : {A : Type 0} → Option A → String → Exec A
required none field = throw (plain_error (join "Workflow state is missing \"" (join field "\"")))
required (some a) field = pure a

-- `nonEmptyTextSchema.parse`
abbrev pub non_empty_text : Ports → String → Exec String
non_empty_text p s = if p.trim s == "" then throw (schema_error "too_small") else pure (p.trim s)
