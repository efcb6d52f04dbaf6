-- ===== src/Tests/Toy.antt =====
-- Concrete services: tables as lists, decimals as whole numbers with rates in percent, ids and texts
-- of numbers in unary; the outcome of each call and what a text is parsed to are chosen by each test.
use shopback_cashback_ledger.Prelude.{
  ℕ, zero, suc, ◌*◌, ◌/◌, String, true, false, Option, none, some, List, [], ◌∷◌, ◌≡◌, ◌≢◌, refl,
  ap, ltb, arith, text_comparable, pair_comparable,
}
use shopback_cashback_ledger.Json.{Json, str, num, obj, field, end}
use shopback_cashback_ledger.Errors.{Outcome, success}
use shopback_cashback_ledger.Schema.{
  Order, CacheEntry, CashbackRule, LedgerEntry, OutboxEvent, InboxEvent, entry_key, key_scope,
  entry_type_comparable, OrderStatus, confirmed, credit,
}
use shopback_cashback_ledger.Services.{Services}
use shopback_cashback_ledger.World.{World, Metrics}
use shopback_cashback_ledger.Orders.{CreateOrderDto}
use shopback_cashback_ledger.Merchants.{UpsertCashbackRuleDto}
use shopback_cashback_ledger.Outbox.{Settings}
use shopback_cashback_ledger.Consumer.{Delivery}
use shopback_cashback_ledger.System.{
  Operation, create_order, confirm_order, deliver, publish, retry, process, set_rule, replay_inbox,
}
use shopback_cashback_ledger.Tests.Tables.{list_table}

abbrev pub unary : ℕ → String
unary zero = ""
unary (suc n) = String.◌∷◌ "i" (unary n)

abbrev pub size : String → ℕ
size String.[] = 0
size (String.◌∷◌ c s) = suc (size s)

pub size-unary : (n : ℕ) → size (unary n) ≡ n
size-unary zero = refl
size-unary (suc n) = ap suc (size-unary n)

-- A decimal is printed with a mark before its digits.
abbrev pub marked_size : String → ℕ
marked_size String.[] = 0
marked_size (String.◌∷◌ c s) = size s

pub unary_nonempty : (n : ℕ) → unary (suc n) ≢ ""
unary_nonempty n h = cc

pub ltb_irrefl : (a : ℕ) → ltb a a ≡ false
ltb_irrefl a = ground arith

-- A text as it is, and one text for every other value.
abbrev pub printed : Json ℕ → String
printed (str text) = text
printed other = "json"

abbrev pub toy_with : (ℕ → Outcome) → (String → Option (Json ℕ)) → Services
toy_with outcome parse = record {
  Decimal = ℕ;
  Number = ℕ;
  mul = λ a b. a * b / 100;
  greater_than = λ a b. ltb b a;
  to_decimal_places = λ n a. a;
  to_scale = λ n a. a;
  to_number = λ a. a;
  number_of_nat = λ n. n;
  truthy_number = λ n. ltb 0 n;
  count_of_text = λ s. some (size s);
  decimal_of_number = λ a. a;
  decimal_of_text = λ s. some (marked_size s);
  five_percent = 5;
  decimal_to_text = λ n. unary (suc n);
  decimal_to_text_nonempty = unary_nonempty;
  decimal_of_text-to_text = λ n. ap some (size-unary n);
  greater_than_irrefl = ltb_irrefl;
  rounding_mono = λ n a b h. h;
  orders = list_table Order.id;
  rules = list_table CashbackRule.merchant_id;
  ledger = list_table (entry_key ℕ);
  keys = list_table (key_scope ℕ);
  outbox = list_table OutboxEvent.id;
  inbox = list_table InboxEvent.id;
  cache = list_table CacheEntry.key;
  expired = λ n k. false;
  meanwhile = λ n c. c;
  outcome = outcome;
  clock = λ n. n * 1000;
  uuid = unary;
  aborts = true;
  stringify = printed;
  parse = parse;
  iso_text = unary;
  error_text = λ e. "error";
  json_text = λ j. "json";
  to_upper_case = λ s. s;
  sha256 = λ s. s;
}

-- The event of `o1`, as the consumer reads it.
abbrev pub event_json : String → Json ℕ
event_json type = obj (
    field "id" (str "e1")
      (field "type" (str type) (field "payload" (obj (field "orderId" (str "o1") end)) end)))

abbrev pub calm : ℕ → Outcome
calm n = success

abbrev pub parse_event : String → Option (Json ℕ)
parse_event s = some (event_json "OrderConfirmed")

abbrev pub toy : Services
toy = toy_with calm parse_event

abbrev pub no_metrics : Metrics
no_metrics = record {
  inbox_pending = 0;
  inbox_failed = 0;
  outbox_pending = 0;
  dlq_produced = 0;
  inbox_retries = 0;
  cache_hits = 0;
  cache_misses = 0;
  handler_success = 0;
  handler_error = 0;
}

abbrev pub order_with : OrderStatus → Order ℕ
order_with status = record {
  id = "o1";
  user_id = "u1";
  merchant_id = "m1";
  amount = 200;
  currency = "SGD";
  status = status;
  created_at = 0;
}

abbrev pub rule : CashbackRule ℕ
rule = record { merchant_id = "m1"; rate = 10; cap = some 15 }

-- One order, `o1`, in the given status, and a rule with a cap for its merchant.
abbrev pub world_of :
    (outcome : ℕ → Outcome) (parse : String → Option (Json ℕ))
    → OrderStatus
    → World (toy_with outcome parse)
world_of outcome parse status = record {
  db = record {
    orders = order_with status ∷ [];
    rules = rule ∷ [];
    ledger = [];
    keys = [];
    outbox = [];
    inbox = [];
  };
  cache = [];
  events = [];
  dead_letters = [];
  metrics = no_metrics;
  calls = 0;
  aborted = false;
}

abbrev pub world_with : OrderStatus → World toy
world_with = world_of calm parse_event

abbrev pub credit_row : LedgerEntry ℕ
credit_row = record {
  id = "l1";
  user_id = "u1";
  order_id = "o1";
  type = credit;
  amount = 15;
  currency = "SGD";
}

-- `o1` is confirmed and has its credit.
abbrev pub credited_world : World toy
credited_world = record (world_with confirmed) {
  db = record (world_with confirmed).db { ledger = credit_row ∷ [] };
}

abbrev pub dto_of :
    (outcome : ℕ → Outcome) (parse : String → Option (Json ℕ))
    → CreateOrderDto (toy_with outcome parse)
dto_of outcome parse = record {
  user_id = "u1";
  merchant_id = "m1";
  amount = 50;
  currency = "SGD";
  body = obj (field "amount" (num 50) end);
}

abbrev pub dto : CreateOrderDto toy
dto = dto_of calm parse_event

-- Half of the amount, up to 40.
abbrev pub rule_dto_of :
    (outcome : ℕ → Outcome) (parse : String → Option (Json ℕ))
    → UpsertCashbackRuleDto (toy_with outcome parse)
rule_dto_of outcome parse = record { rate = 50; cap = some (some 40) }

abbrev pub settings : Settings
settings = record { max_attempts = 5; batch_size = 50 }

abbrev pub delivery : Delivery
delivery = record { value = some "event"; key = some "o1" }

-- The life of `o1`, with a message delivered twice, a failed confirmation of an order that is not
-- there, a replay under a new rule, and a call of packages/domain at the end.
abbrev pub life : List (Operation toy)
life =
    confirm_order (some "k1") "o1"
    ∷ confirm_order none "o2"
    ∷ create_order (some "k2") dto
    ∷ publish settings
    ∷ deliver delivery
    ∷ deliver delivery
    ∷ retry settings
    ∷ set_rule "m1" (rule_dto_of calm parse_event)
    ∷ replay_inbox
        (record { source_event_id = some "e1"; status = none; limit = none; reset_attempts = true })
    ∷ retry settings
    ∷ process "o1"
    ∷ []
