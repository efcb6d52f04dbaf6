-- ===== src/Json.antt =====
-- JSON values, as `JSON.parse` returns them and `JSON.stringify` takes them.
use shopback_cashback_ledger.Prelude.{
  String, Option, none, some, Bool, ◌==◌, text_comparable, if◌then◌else◌,
}

mutual
  pub data Json (N : Type 0) : Type 0 where
    null : Json N
    bool : Bool → Json N
    num : N → Json N
    str : String → Json N
    arr : Items N → Json N
    obj : Fields N → Json N

  pub data Items (N : Type 0) : Type 0 where
    nil : Items N
    cons : Json N → Items N → Items N

  pub data Fields (N : Type 0) : Type 0 where
    end : Fields N
    field : String → Json N → Fields N → Fields N

module _ {N : Type 0} where
  abbrev pub lookup_field : String → Fields N → Option (Json N)
  lookup_field k end = none
  lookup_field k (field j v fs) = if j == k then some v else lookup_field k fs

  -- `v?.k`; `none` is `undefined`, which every value but an object gives here.
  abbrev pub member : String → Json N → Option (Json N)
  member k (obj fs) = lookup_field k fs
  member k _ = none

  -- `v ?? d`
  abbrev pub or_default : Option (Json N) → Json N → Json N
  or_default none d = d
  or_default (some null) d = d
  or_default (some v) d = v
