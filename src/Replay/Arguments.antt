-- ===== src/Replay/Arguments.antt =====
-- The arguments of the replay command of apps/worker/src/replay.ts, `must` and `parseArgs`, and
-- reading back what was put on the command line.
use shopback_cashback_ledger.Prelude.{
  String, Bool, true, false, Option, none, some, List, [], ◌∷◌, ◌==◌, text_comparable, ◌≡◌, refl,
  All, if◌then◌else◌,
}

-- `Record<string, string>`, the last value of a key first
abbrev pub Args : Type 0
Args = List (String × String)

-- `out[k] = v` and `args.k`
abbrev pub put : String → String → Args → Args
put k v out = (k, v) ∷ out

abbrev pub get : String → Args → Option String
get k [] = none
get k ((j, v) ∷ out) = if j == k then some v else get k out

-- `a.startsWith('--')` and `a.slice(2)`
abbrev pub starts_with_dashes : String → Bool
starts_with_dashes (String.◌∷◌ c (String.◌∷◌ d s)) = String.◌∷◌ c (String.◌∷◌ d "") == "--"
starts_with_dashes s = false

abbrev pub slice_two : String → String
slice_two (String.◌∷◌ c (String.◌∷◌ d s)) = s
slice_two s = ""

-- `argv[i + 1] && !argv[i + 1].startsWith('--')`, where there is such an argument
abbrev pub is_value : String → Bool
is_value b = if b == "" then false else if starts_with_dashes b then false else true

-- The loop, from one argument on.
unfoldable pub parse_from : List String → Args → Args
parse_from [] out = out
parse_from (a ∷ []) out = if starts_with_dashes a then put (slice_two a) "true" out else out
parse_from (a ∷ b ∷ rest) out = elim (starts_with_dashes a) [
  | false ↦ parse_from (b ∷ rest) out
  | true ↦ elim (is_value b) [
    | true ↦ parse_from rest (put (slice_two a) b out)
    | false ↦ parse_from (b ∷ rest) (put (slice_two a) "true" out)
  ]
]

unfoldable pub parse_args : List String → Args
unfolding parse_from
parse_args argv = parse_from argv []

-- `(args.resetAttempts ?? 'false') === 'true'`
abbrev pub resets_attempts : Option String → Bool
resets_attempts none = false
resets_attempts (some v) = v == "true"

abbrev pub reset_attempts_of : Args → Bool
reset_attempts_of args = resets_attempts (get "resetAttempts" args)

-- The command line of some flags with their values.
abbrev pub printed : List (String × String) → List String
printed [] = []
printed ((k, v) ∷ flags) = String.◌∷◌ "-" (String.◌∷◌ "-" k) ∷ v ∷ printed flags

abbrev pub IsValue : String × String → Type 0
IsValue flag = is_value flag.1 ≡ true

-- The value that a key was given last, or one from before.
abbrev pub last_value : String → Option String → List (String × String) → Option String
last_value k before [] = before
last_value k before ((j, v) ∷ flags) = last_value k (if j == k then some v else before) flags

parse_from-flag :
    (j v : String) (rest : List String) (out : Args)
    → is_value v ≡ true
    → parse_from (String.◌∷◌ "-" (String.◌∷◌ "-" j) ∷ v ∷ rest) out ≡ parse_from rest (put j v out)
unfolding parse_from
parse_from-flag j v rest out h = rw (h, parse_from) refl

parse_from-printed :
    (flags : List (String × String)) (out : Args) (k : String)
    → All IsValue flags
    → get k (parse_from (printed flags) out) ≡ last_value k (get k out) flags
unfolding parse_from
parse_from-printed [] out k h = refl
parse_from-printed ((j, v) ∷ flags) out k h =
    rw (parse_from-flag j v (printed flags) out h.0) (parse_from-printed flags (put j v out) k h.1)

-- If flags are written as `--key value` with values that are not empty and do not start with `--`,
-- `parseArgs` gives each key the value that it was given last, and no value to all other keys.
pub parse_args-printed :
    (flags : List (String × String)) (k : String)
    → All IsValue flags
    → get k (parse_args (printed flags)) ≡ last_value k none flags
unfolding parse_args
parse_args-printed flags k h = parse_from-printed flags [] k h
