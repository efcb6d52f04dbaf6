-- ===== src/Startup.antt =====
-- apps/api/src/main.ts (`bootstrap`) and apps/api/src/db/run-migrations.ts: the API migrates the
-- database if it is told to, and then serves; and apps/worker/src/metrics-server.ts: the answers of the
-- worker's metrics server.
pub mod Served
use shopback_cashback_ledger.Prelude.{
  ℕ, zero, suc, String, Bool, true, false, Option, none, some, List, [], ◌∷◌, ◌++◌, ◌==◌,
  text_comparable, if◌then◌else◌,
}
use shopback_cashback_ledger.Config.{Environment, text_or_empty}

-- The first event of a child process: `error`, or `exit` with a code, or with `null` after a signal.
pub data ChildEnd : Type 0 where
  failed : String → ChildEnd
  exited : Option ℕ → ChildEnd

-- What Node.js and NestJS do for the process.
pub record Host : Type 0 where
  pub env : Environment
  pub exec_path : String
  pub to_lower_case : String → String
  -- `require.resolve(name)`, and `createRequire(path).resolve(name)`: `none` is a throw
  pub resolve : String → Option String
  pub resolve_from : String → String → Option String
  -- `dirname(path)`, and `join` of three parts
  pub dirname : String → String
  pub join : String → String → String → String
  pub child : String → List String → ChildEnd
  -- whether `NestFactory.create` and `app.listen` succeed
  pub creates : Bool
  pub listens : ℕ → Bool

-- Why the start is rejected.
pub data Reason : Type 0 where
  not_resolved : String → Reason
  child_error : String → Reason
  exit_code : Option ℕ → Reason
  not_created : Reason
  not_listening : Reason

pub data Promise : Type 0 where
  fulfilled : Promise
  rejected : Reason → Promise

-- What the process does, in order.
pub data Action : Type 0 where
  spawn : String → List String → Action
  create_app : Action
  use_validation_pipe : Action
  use_response_envelope : Action
  use_metrics_interceptor : Action
  get_route : String → Action
  use_exception_filter : Action
  setup_docs : String → Action
  listen : ℕ → Action

-- A function that awaits: how it ends, and what has been done.
abbrev pub Step : Type 0
Step = List Action → Promise × List Action

abbrev pub done : Step
done t = (fulfilled, t)

abbrev pub fail : Reason → Step
fail r t = (rejected r, t)

abbrev pub act : Action → Step
act a t = (fulfilled, t ++ a ∷ [])

abbrev pub after : Promise → Step → Step
after fulfilled rest t = rest t
after (rejected r) rest t = (rejected r, t)

infixr 5 ◌then_do◌
abbrev pub ◌then_do◌ : Step → Step → Step
(m then_do rest) t = let (p, t') = m t in after p rest t'

-- `code === 0`, and the rejections of the two events
abbrev pub settle : ChildEnd → Promise
settle (failed e) = rejected (child_error e)
settle (exited none) = rejected (exit_code none)
settle (exited (some zero)) = fulfilled
settle (exited (some (suc n))) = rejected (exit_code (some (suc n)))

abbrev pub db_package : String
db_package = "@sb/db/package.json"

abbrev pub cli_name : String
cli_name = "prisma/build/index.js"

abbrev pub migrate_args : String → String → List String
migrate_args cli schema = cli ∷ "migrate" ∷ "deploy" ∷ "--schema" ∷ schema ∷ []

abbrev pub create : Bool → Step
create true = act create_app
create false = fail not_created

abbrev pub listen_at : ℕ → Bool → Step
listen_at port true = act (listen port)
listen_at port false = fail not_listening

-- The pipe, the interceptors, the route of the metrics, the filter and the documents
abbrev pub configure : Step
configure =
    act use_validation_pipe
    then_do act use_response_envelope
    then_do act use_metrics_interceptor
    then_do act (get_route "/metrics")
    then_do act use_exception_filter
    then_do act (setup_docs "docs")

module _ (H : Host) where
  abbrev pub should_run_migration : Bool
  should_run_migration = H.to_lower_case (text_or_empty (H.env "RUN_DB_MIGRATION")) == "true"

  -- `resolveSchemaPath` and `resolvePrismaCli`, by the path of the package
  abbrev pub schema_path : String → String
  schema_path db_package_json = H.join (H.dirname db_package_json) "prisma" "schema.prisma"

  abbrev pub prisma_cli : String → Option String
  prisma_cli db_package_json = H.resolve_from db_package_json cli_name

  unfoldable pub run_child : List String → Step
  run_child args t = (settle (H.child H.exec_path args), t ++ spawn H.exec_path args ∷ [])

  unfoldable pub with_cli : String → Option String → Step
  unfolding run_child
  with_cli schema none = fail (not_resolved cli_name)
  with_cli schema (some cli) = run_child (migrate_args cli schema)

  unfoldable pub with_package : Option String → Step
  unfolding with_cli
  with_package none = fail (not_resolved db_package)
  with_package (some path) = with_cli (schema_path path) (prisma_cli path)

  unfoldable pub run_migrations_if_enabled : Step
  unfolding with_package
  run_migrations_if_enabled =
      if should_run_migration then with_package (H.resolve db_package) else done

  unfoldable pub bootstrap : Step
  unfolding run_migrations_if_enabled
  bootstrap =
      run_migrations_if_enabled
      then_do create H.creates
      then_do configure
      then_do listen_at 3000 (H.listens 3000)

-- What the metrics server of the worker answers to `req.url`.
pub record MetricsReply : Type 0 where
  pub status_code : ℕ
  pub content_type : Option String
  pub body : String

-- `registry.contentType` and the text of `registry.metrics()`
abbrev pub answer_metrics : String → String → Option String → MetricsReply
answer_metrics content_type metrics none = record {
  status_code = 404;
  content_type = none;
  body = "not found";
}
answer_metrics content_type metrics (some url) =
    if url == "/metrics"
    then record { status_code = 200; content_type = some content_type; body = metrics }
    else record { status_code = 404; content_type = none; body = "not found" }
