-- ===== src/Tests/Service.antt =====
-- The theorems on the API's cache of rules, at a cache that is coherent.
use shopback_cashback_ledger.Prelude.{some, ◌≡◌, refl}
use shopback_cashback_ledger.Calls.Ensures.{Ensures}
use shopback_cashback_ledger.RuleCache
use shopback_cashback_ledger.RuleCache.{snapshot_of}
use shopback_cashback_ledger.RuleCache.Coherent.{IsGood}
use shopback_cashback_ledger.RuleService.{read_cache, write_cache, payload_of, get_rule}
use shopback_cashback_ledger.RuleService.Agreed.{IsPayload, get_rule-IsPayload, same_entries}
use shopback_cashback_ledger.Tests.Toy.{toy, rule}
use shopback_cashback_ledger.Tests.Cache.{cacher, cacher_world}

get_rule-IsPayload_example :
    Ensures
      (IsGood cacher cacher_world.db "m1")
      (IsPayload cacher cacher_world.db "m1")
      (get_rule cacher "m1")
get_rule-IsPayload_example = get_rule-IsPayload cacher cacher_world.db "m1" refl (λ n c h. h)

same_entries_example :
    (read_cache toy "cashback_rule:m1" ≡ RuleCache.read_cache toy "cashback_rule:m1")
    × (write_cache toy "cashback_rule:m1" (payload_of toy (some rule))
        ≡ RuleCache.write_cache toy "cashback_rule:m1" (snapshot_of toy (some rule)))
same_entries_example = same_entries toy "cashback_rule:m1" (some rule)
