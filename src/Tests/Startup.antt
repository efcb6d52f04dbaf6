-- ===== src/Tests/Startup.antt =====
-- The theorems on the start of the API, on a host where the migration ends with a given code.
use shopback_cashback_ledger.Prelude.{
  String, true, none, some, List, [], ◌∷◌, ◌≡◌, refl, text_append, ◌==◌, text_comparable,
  if◌then◌else◌,
}
use shopback_cashback_ledger.Startup.{ChildEnd, exited, Host, Reason, spawn, rejected, bootstrap}
use shopback_cashback_ledger.Startup.Served.{Served, bootstrap-Served, bootstrap-rejected}

abbrev host_with : ChildEnd → Host
host_with end = record {
  env = λ name. if name == "RUN_DB_MIGRATION" then some "true" else none;
  exec_path = "node";
  to_lower_case = λ text. text;
  resolve = λ name. some "/db/package.json";
  resolve_from = λ path name. some "/prisma/index.js";
  dirname = λ path. "/db";
  join = λ a b c. text_append a (text_append "/" (text_append b (text_append "/" c)));
  child = λ path args. end;
  creates = true;
  listens = λ port. true;
}

abbrev migrated : Host
migrated = host_with (exited (some 0))

bootstrap-Served_example : Served migrated (bootstrap migrated []).0 (bootstrap migrated []).1
bootstrap-Served_example = bootstrap-Served migrated

abbrev command : List String
command = "/prisma/index.js" ∷ "migrate" ∷ "deploy" ∷ "--schema" ∷ "/db/prisma/schema.prisma" ∷ []

bootstrap-rejected_example :
    (r : Reason) × (bootstrap (host_with (exited (some 1))) []
      ≡ (rejected r, spawn "node" command ∷ []))
bootstrap-rejected_example =
    bootstrap-rejected (host_with (exited (some 1))) command {path = "/db/package.json"}
      {cli = "/prisma/index.js"} {end = exited (some 1)} refl
      (record { package_json = refl; tool = refl; same = refl }) refl (λ e. cc e)
