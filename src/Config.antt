-- ===== src/Config.antt =====
-- The settings of main.go: the poll interval, the environment and the flags that exclude each other.
-- An `int` and a `time.Duration` have 64 bits.
pub mod Main
use pentameter.Prelude.{
  ℕ, ◌+◌, ◌-◌, ◌*◌, ◌%◌, ◌^◌, String, Bool, List, [], ◌∷◌, ◌==◌, ◌||◌, ltb, leb, arith,
  if◌then◌else◌,
}
use pentameter.Prelude.Int.{ℤ, pos, negsuc, ltb_ℤ, ◌≤ℤ◌, ◌<ℤ◌}
use pentameter.Prelude.Text.{atoi}

-- A nonnegative number as a 64-bit integer in two's complement.
unfoldable pub wrap64 : ℕ → ℤ
wrap64 n = let r : ℕ = n % 2 ^ 64 in if ltb r (2 ^ 63) then pos r else negsuc (2 ^ 64 - r - 1)

-- `time.Duration(n) * time.Second`, in nanoseconds; it is asked for a positive `n` only.
abbrev pub duration : ℤ → ℤ
duration (pos n) = wrap64 (n * 1_000_000_000)
duration (negsuc n) = pos 0

-- `determinePollInterval`
unfoldable pub determine_poll_interval : ℤ → Bool → ℤ
unfolding wrap64
determine_poll_interval seconds listen_mode =
    if ltb_ℤ (pos 0) seconds
    then (if ltb_ℤ seconds (pos 5) then pos 5_000_000_000 else duration seconds)
    else if listen_mode
    then pos 10_000_000_000
    else pos 60_000_000_000

-- `getEnvOrDefault` and `getEnvIntOrDefault`, over the value of the variable.
unfoldable pub get_env_or_default : String → String → String
get_env_or_default value default_value = if value == "" then default_value else value

unfoldable pub get_env_int_or_default : String → ℤ → ℤ
get_env_int_or_default env default_value =
    let (val, parsed) = atoi env in
    if env == "" then default_value else if parsed then val else default_value

-- `isZeroFlagValue`
unfoldable pub is_zero_flag_value : String → Bool
is_zero_flag_value v = (v == "") || ((v == "false") || (v == "0"))

-- `validateExclusiveFlags`, over the five flags: whether the program goes on.
unfoldable pub selected : List Bool → ℕ
selected [] = 0
selected (on ∷ flags) = let rest = selected flags in if on then rest + 1 else rest

unfoldable pub validate_exclusive_flags : List Bool → Bool
unfolding selected
validate_exclusive_flags exclusive = leb (selected exclusive) 1

-- For a setting of at most 9223372036 seconds, zero and negative ones included, the poll interval is
-- at least the minimum of five seconds, in both modes.
pub determine_poll_interval-ge-min :
    (seconds : ℤ) (listen_mode : Bool)
    → seconds ≤ℤ pos 9_223_372_036
    → pos 5_000_000_000 ≤ℤ determine_poll_interval seconds listen_mode
unfolding determine_poll_interval
determine_poll_interval-ge-min (pos n) listen_mode h = ground arith
determine_poll_interval-ge-min (negsuc n) listen_mode h = ground arith

-- From 9223372037 to 18446744073 seconds the product wraps around: the poll interval is negative.
pub determine_poll_interval-wraps :
    (seconds : ℤ) (listen_mode : Bool)
    → pos 9_223_372_037 ≤ℤ seconds
    → seconds ≤ℤ pos 18_446_744_073
    → determine_poll_interval seconds listen_mode <ℤ pos 0
unfolding determine_poll_interval
determine_poll_interval-wraps (pos n) listen_mode h k = ground arith
determine_poll_interval-wraps (negsuc n) listen_mode h k = ground arith
