-- ===== src/Startup/Served.antt =====
-- When the API serves: after the migrations, or without them if they are not enabled.
use shopback_cashback_ledger.Prelude.{
  zero, suc, String, Bool, true, false, Option, none, some, List, [], ◌∷◌, ◌≡◌, ◌≢◌, refl, inl, inr,
  ◌↔◌, eq_iff, ◌⊎◌, ◌||◌, Bool-cases, text_comparable,
}
use shopback_cashback_ledger.Config.{text_or_empty}
use shopback_cashback_ledger.Startup.{
  ChildEnd, failed, exited, Host, Reason, Promise, fulfilled, rejected, Action, spawn, create_app,
  use_validation_pipe, use_response_envelope, use_metrics_interceptor, get_route,
  use_exception_filter, setup_docs, listen, Step, after, settle, db_package, should_run_migration,
  schema_path, prisma_cli, migrate_args, run_child, with_cli, with_package, child_error, exit_code,
  ◌then_do◌, run_migrations_if_enabled, create, configure, listen_at, bootstrap,
}

-- Whether the process listens.
abbrev pub is_listen : Action → Bool
is_listen (listen port) = true
is_listen other = false

abbrev pub listens_in : List Action → Bool
listens_in [] = false
listens_in (a ∷ rest) = is_listen a || listens_in rest

-- The app is created and configured before it listens.
abbrev pub serving : List Action
serving =
    create_app
    ∷ use_validation_pipe
    ∷ use_response_envelope
    ∷ use_metrics_interceptor
    ∷ get_route "/metrics"
    ∷ use_exception_filter
    ∷ setup_docs "docs"
    ∷ listen 3000
    ∷ []

-- A setting of the environment, empty if there is none.
abbrev pub written : Option String → String
written none = ""
written (some text) = text

same_text : (o : Option String) → text_or_empty o ≡ written o
same_text none = refl
same_text (some text) = refl

module _ (H : Host) where
  -- The environment asks for the migrations.
  abbrev pub IsEnabled : Type 0
  IsEnabled = H.to_lower_case (written (H.env "RUN_DB_MIGRATION")) ≡ "true"

  enabled_iff : (should_run_migration H ≡ true) ↔ IsEnabled
  enabled_iff =
      rw (same_text (H.env "RUN_DB_MIGRATION"))
        (eq_iff (H.to_lower_case (written (H.env "RUN_DB_MIGRATION"))) "true")

  -- The arguments of the command that migrates.
  pub record IsCommand (args : List String) (path cli : String) : Type 0 where
    pub package_json : H.resolve "@sb/db/package.json" ≡ some path
    pub tool : H.resolve_from path "prisma/build/index.js" ≡ some cli
    pub same :
        args
        ≡ cli
          ∷ "migrate"
          ∷ "deploy"
          ∷ "--schema"
          ∷ H.join (H.dirname path) "prisma" "schema.prisma"
          ∷ []

  -- The command has ended with the given event.
  abbrev pub Ran : ChildEnd → List String → Type 0
  Ran end args =
      (path : String) × (cli : String) × IsCommand args path cli × (H.child H.exec_path args ≡ end)

  -- How the migrations end: not asked for, or done by the command, or rejected.
  abbrev Ready : List Action → List Action → Type 0
  Ready before t =
      (¬ IsEnabled × (before ≡ t))
      ⊎ ((args : List String) × IsEnabled
          × Ran (exited (some 0)) args
          × (spawn H.exec_path args ∷ before ≡ t))

  abbrev pub Served : Promise → List Action → Type 0
  Served fulfilled t = Ready serving t
  Served (rejected r) t = listens_in t ≡ false

  abbrev Prepared : Promise → List Action → Type 0
  Prepared fulfilled t = Ready [] t
  Prepared (rejected r) t = listens_in t ≡ false

  run_child-Prepared :
      (args : List String) (path cli : String) (e : ChildEnd)
      → IsEnabled
      → IsCommand args path cli
      → H.child H.exec_path args ≡ e
      → Prepared (settle e) (spawn H.exec_path args ∷ [])
  run_child-Prepared args path cli (failed m) on h k = refl
  run_child-Prepared args path cli (exited none) on h k = refl
  run_child-Prepared args path cli (exited (some zero)) on h k =
      inr (args, on, (path, cli, h, k), refl)
  run_child-Prepared args path cli (exited (some (suc n))) on h k = refl

  with_cli-Prepared :
      (path : String) (o : Option String)
      → IsEnabled
      → H.resolve db_package ≡ some path
      → prisma_cli H path ≡ o
      → let (p, t) = with_cli H (schema_path H path) o [] in Prepared p t
  unfolding with_cli run_child
  with_cli-Prepared path none on h k = refl
  with_cli-Prepared path (some cli) on h k =
      let args = migrate_args cli (schema_path H path) in
      run_child-Prepared args path cli (H.child H.exec_path args) on
        (record { package_json = h; tool = k; same = refl }) refl

  with_package-Prepared :
      (o : Option String)
      → IsEnabled
      → H.resolve db_package ≡ o
      → let (p, t) = with_package H o [] in Prepared p t
  unfolding with_package
  with_package-Prepared none on h = refl
  with_package-Prepared (some path) on h = with_cli-Prepared path (prisma_cli H path) on h refl

  migrations-Prepared : let (p, t) = run_migrations_if_enabled H [] in Prepared p t
  unfolding run_migrations_if_enabled
  migrations-Prepared = elim (Bool-cases (should_run_migration H)) [
    | inl on ↦ rw on (with_package-Prepared (H.resolve db_package) (enabled_iff.0 on) refl)
    | inr off ↦ rw off (inl (λ on. cc (off, enabled_iff.1 on), refl))
  ]

  -- What follows the migrations.
  abbrev serve : Bool → Bool → Step
  serve creates listens = create creates then_do configure then_do listen_at 3000 listens

  off-Served :
      ¬ IsEnabled → (creates listens : Bool) → let (p, t) = serve creates listens [] in Served p t
  off-Served off true true = inl (off, refl)
  off-Served off true false = refl
  off-Served off false listens = refl

  on-Served :
      (args : List String)
      → IsEnabled
      → Ran (exited (some 0)) args
      → (creates listens : Bool)
      → let (p, t) = serve creates listens (spawn H.exec_path args ∷ []) in Served p t
  on-Served args on ran true true = inr (args, on, ran, refl)
  on-Served args on ran true false = refl
  on-Served args on ran false listens = refl

  serve-Served :
      (p : Promise) (t : List Action)
      → Prepared p t
      → let (p', t') = after p (serve H.creates (H.listens 3000)) t in Served p' t'
  serve-Served fulfilled t (inl (off, same)) =
      rw (← same) (off-Served off H.creates (H.listens 3000))
  serve-Served fulfilled t (inr (args, on, ran, same)) =
      rw (← same) (on-Served args on ran H.creates (H.listens 3000))
  serve-Served (rejected r) t h = h

  -- When the start of the API succeeds, the process has done nothing before the app is created if
  -- the setting `RUN_DB_MIGRATION` is not `true`, in any case of letters, and else has run the
  -- script `prisma/build/index.js` that is found from the database package, once, with `migrate
  -- deploy --schema` and the path of `prisma/schema.prisma` in that package, which ended with the
  -- code 0; then the app was created, configured, and listened on port 3000. When the start is
  -- rejected, the process does not listen.
  pub bootstrap-Served : let (p, t) = bootstrap H [] in Served p t
  unfolding bootstrap
  bootstrap-Served =
      let (p, t) = run_migrations_if_enabled H [] in serve-Served p t migrations-Prepared

  refused : (e : ChildEnd) → e ≢ exited (some 0) → (r : Reason) × (settle e ≡ rejected r)
  refused (failed m) h = (child_error m, refl)
  refused (exited none) h = (exit_code none, refl)
  refused (exited (some zero)) h = absurd (h refl)
  refused (exited (some (suc n))) h = (exit_code (some (suc n)), refl)

  -- If the setting `RUN_DB_MIGRATION` is `true`, in any case of letters, and the command ends other than with the code 0, by a signal, an
  -- error or another code, the start is rejected after it, and no app is created.
  pub bootstrap-rejected :
      (args : List String) {path cli : String} {end : ChildEnd}
      → IsEnabled
      → IsCommand args path cli
      → H.child H.exec_path args ≡ end
      → end ≢ exited (some 0)
      → (r : Reason) × (bootstrap H [] ≡ (rejected r, spawn H.exec_path args ∷ []))
  unfolding bootstrap run_migrations_if_enabled with_package with_cli run_child
  bootstrap-rejected args {path} {cli} {end} on h ended bad =
      let (r, e) = refused end bad in
      (r, (rw (enabled_iff.1 on, h.package_json, h.tool, ← h.same, ended, e) refl))
