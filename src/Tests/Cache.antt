-- ===== src/Tests/Cache.antt =====
-- The theorems about a coherent cache, at one that holds the text of the default.
use shopback_cashback_ledger.Prelude.{
  Bool-cases, inl, inr, ◌==◌, text_comparable, ℕ, String, Option, none, some, [], ◌∷◌, refl,
}
use shopback_cashback_ledger.Json.{Json}
use shopback_cashback_ledger.Schema.{confirmed}
use shopback_cashback_ledger.Services.{Services}
use shopback_cashback_ledger.World.{World}
use shopback_cashback_ledger.Domain.Credits.{Processed}
use shopback_cashback_ledger.Handler
use shopback_cashback_ledger.RuleCache.{
  get_cashback_rule, cache_key, parse_cached, parse_value, snapshot_json, snapshot_of,
}
use shopback_cashback_ledger.Calls.Ensures.{Ensures}
use shopback_cashback_ledger.RuleCache.Coherent.{IsCoherent, IsGood, Found}
use shopback_cashback_ledger.RuleCache.Agreed.{get_cashback_rule-IsStored, IsStored}
use shopback_cashback_ledger.Handler.Agreed.{process_order_confirmed-as_domain}
use shopback_cashback_ledger.Tests.Toy.{toy, toy_with, calm, world_of}

-- There are no rules, and the cache holds the text of the default.
abbrev parse_default : String → Option (Json ℕ)
parse_default s = some (snapshot_json toy (snapshot_of toy none))

abbrev pub cacher : Services
cacher = toy_with calm parse_default

abbrev pub cacher_world : World cacher
cacher_world = record (world_of calm parse_default confirmed) {
  db = record (world_of calm parse_default confirmed).db { rules = [] };
  cache = record { key = cache_key "m1"; value = some "default" } ∷ [];
}

default-Found :
    (m : String) (v : Option String) → Found cacher cacher_world.db m (parse_value cacher v)
unfolding parse_cached
default-Found m none = inl refl
default-Found m (some text) = elim (Bool-cases (text == "")) [
  | inl empty ↦ inl (rw empty refl)
  | inr full ↦ inr (rw full refl)
]

cacher-IsCoherent : (m : String) → IsCoherent cacher cacher_world.db m cacher_world.cache
cacher-IsCoherent m e found = default-Found m e.value

get_cashback_rule-IsStored_example :
    Ensures
      (IsGood cacher cacher_world.db "m1")
      (IsStored cacher cacher_world.db "m1")
      (get_cashback_rule cacher "m1")
get_cashback_rule-IsStored_example =
    get_cashback_rule-IsStored cacher cacher_world.db "m1" refl (λ n c h. h)

process_order_confirmed-as_domain_example :
    Processed cacher cacher_world.db "o1"
      (Handler.process_order_confirmed cacher "o1" cacher_world).0
      (Handler.process_order_confirmed cacher "o1" cacher_world).1.db
process_order_confirmed-as_domain_example =
    process_order_confirmed-as_domain cacher "o1" cacher_world (λ m. refl) (λ m n c h. h)
      cacher-IsCoherent
