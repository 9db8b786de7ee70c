-- ===== src/Config/Main.antt =====
-- What the program runs as: `defineFlags`, `parseCommandLineFlags` and `main` of main.go. The package
-- flag parses the arguments over the defaults; `parse` stands for it.
use pentameter.Prelude.{
  ◌≤◌, String, Bool, true, false, List, [], ◌∷◌, ◌==◌, ◌≡◌, refl, arith, if◌then◌else◌, if_split,
}
use pentameter.Prelude.Int.{ℤ, pos, ◌≤ℤ◌}
use pentameter.Config.{
  get_env_or_default, get_env_int_or_default, determine_poll_interval, selected,
  validate_exclusive_flags, determine_poll_interval-ge-min,
}

pub record CommandLineFlags : Type 0 where
  pub intelli_center_ip : String
  pub intelli_center_port : String
  pub http_port : String
  pub metrics : Bool
  pub listen_mode : Bool
  pub homebridge : Bool
  pub poll_interval : ℤ
  pub show_version : Bool
  pub discover_only : Bool

pub record AppConfig : Type 0 where
  pub intelli_center_ip : String
  pub intelli_center_port : String
  pub http_port : String
  pub listen_mode : Bool
  pub homebridge : Bool
  pub auto_discover : Bool
  -- in nanoseconds
  pub poll_interval : ℤ

-- `defineFlags`, by the environment
unfoldable pub define_flags : (String → String) → CommandLineFlags
unfolding get_env_or_default get_env_int_or_default
define_flags env = record {
  intelli_center_ip = get_env_or_default (env "PENTAMETER_IC_IP") "";
  intelli_center_port = get_env_or_default (env "PENTAMETER_IC_PORT") "6680";
  http_port = get_env_or_default (env "PENTAMETER_HTTP_PORT") "8080";
  metrics = get_env_or_default (env "PENTAMETER_METRICS") "false" == "true";
  listen_mode = get_env_or_default (env "PENTAMETER_LISTEN") "false" == "true";
  homebridge = get_env_or_default (env "PENTAMETER_HOMEBRIDGE") "false" == "true";
  poll_interval = get_env_int_or_default (env "PENTAMETER_INTERVAL") (pos 0);
  show_version = false;
  discover_only = false;
}

-- How the program goes on: with an error of usage, with a function that exits, or in a mode.
pub data Action : Type 0 where
  usage_error print_version discover : Action
  run_homebridge run_listen_engine run_metrics_engine : AppConfig → Action

-- The flags of `validateExclusiveFlags`.
abbrev pub exclusive : CommandLineFlags → List Bool
exclusive f = f.show_version ∷ f.discover_only ∷ f.metrics ∷ f.homebridge ∷ f.listen_mode ∷ []

-- The config of `parseCommandLineFlags`. A static address is taken as it is.
unfoldable pub config_of : CommandLineFlags → AppConfig
config_of f = record {
  intelli_center_ip = f.intelli_center_ip;
  intelli_center_port = f.intelli_center_port;
  http_port = f.http_port;
  listen_mode = f.listen_mode;
  homebridge = f.homebridge;
  auto_discover = f.intelli_center_ip == "";
  poll_interval = determine_poll_interval f.poll_interval f.listen_mode;
}

-- `main`, by the config
unfoldable pub run_mode : AppConfig → Action
run_mode cfg =
    if cfg.homebridge
    then run_homebridge cfg
    else if cfg.listen_mode
    then run_listen_engine cfg
    else run_metrics_engine cfg

-- `parseCommandLineFlags`, with `handleEarlyExitFlags`, and `main` behind it
unfoldable pub parse_command_line_flags : CommandLineFlags → Action
unfolding config_of run_mode validate_exclusive_flags
parse_command_line_flags f =
    if validate_exclusive_flags (exclusive f)
    then (if f.show_version
        then print_version
        else if f.discover_only
        then discover
        else run_mode (config_of f))
    else usage_error

unfoldable pub main : (CommandLineFlags → CommandLineFlags) → (String → String) → Action
unfolding parse_command_line_flags define_flags
main parse env = parse_command_line_flags (parse (define_flags env))

-- The settings of the flags, an automatic search exactly without an address, and an interval of at
-- least five seconds.
abbrev pub IsConfigured : CommandLineFlags → AppConfig → Type 0
IsConfigured f cfg =
    (cfg.intelli_center_ip ≡ f.intelli_center_ip)
    × (cfg.intelli_center_port ≡ f.intelli_center_port)
    × (cfg.http_port ≡ f.http_port)
    × (cfg.auto_discover ≡ (f.intelli_center_ip == ""))
    × (pos 5_000_000_000 ≤ℤ cfg.poll_interval)

-- What the flags must be for each way in which the program goes on.
abbrev pub IsAskedFor : CommandLineFlags → Action → Type 0
IsAskedFor f usage_error = 2 ≤ selected (exclusive f)
IsAskedFor f print_version = exclusive f ≡ true ∷ false ∷ false ∷ false ∷ false ∷ []
IsAskedFor f discover = exclusive f ≡ false ∷ true ∷ false ∷ false ∷ false ∷ []
IsAskedFor f (run_homebridge cfg) =
    (exclusive f ≡ false ∷ false ∷ false ∷ true ∷ false ∷ []) × IsConfigured f cfg
IsAskedFor f (run_listen_engine cfg) =
    (exclusive f ≡ false ∷ false ∷ false ∷ false ∷ true ∷ []) × IsConfigured f cfg
IsAskedFor f (run_metrics_engine cfg) =
    (exclusive f ≡ false ∷ false ∷ f.metrics ∷ false ∷ false ∷ []) × IsConfigured f cfg

config_of-IsConfigured :
    (f : CommandLineFlags) → f.poll_interval ≤ℤ pos 9_223_372_036 → IsConfigured f (config_of f)
unfolding config_of
config_of-IsConfigured f h =
    (refl, refl, refl, refl, determine_poll_interval-ge-min f.poll_interval f.listen_mode h)

run_mode-IsAskedFor :
    (f : CommandLineFlags)
    → f.poll_interval ≤ℤ pos 9_223_372_036
    → validate_exclusive_flags (exclusive f) ≡ true
    → f.show_version ≡ false
    → f.discover_only ≡ false
    → IsAskedFor f (run_mode (config_of f))
unfolding run_mode config_of validate_exclusive_flags selected
run_mode-IsAskedFor f h valid no_version no_discover =
    let configured = config_of-IsConfigured f h in
    if_split (IsAskedFor f) (config_of f).homebridge
      (λ home. (ground (arith, valid, no_version, no_discover, home), configured))
      (λ no_home.
        if_split (IsAskedFor f) (config_of f).listen_mode
          (λ listens.
            (ground (arith, valid, no_version, no_discover, no_home, listens), configured))
          (λ no_listen. (ground (arith, no_version, no_discover, no_home, no_listen), configured)))

-- For an interval of at most 9223372036 seconds, the program goes on in exactly the way that the flags
-- ask for: with an error of usage if two or more of the five exclusive ones are set, with the one
-- function or mode that is set, and with the metrics if none is; and a mode gets the settings of the
-- flags, an interval of at least five seconds, and a search exactly if there is no address.
pub parse_command_line_flags-IsAskedFor :
    (f : CommandLineFlags)
    → f.poll_interval ≤ℤ pos 9_223_372_036
    → IsAskedFor f (parse_command_line_flags f)
unfolding parse_command_line_flags validate_exclusive_flags selected
parse_command_line_flags-IsAskedFor f h =
    if_split (IsAskedFor f) (validate_exclusive_flags (exclusive f))
      (λ valid.
        if_split (IsAskedFor f) f.show_version (λ version. ground (arith, valid, version))
          (λ no_version.
            if_split (IsAskedFor f) f.discover_only
              (λ discovers. ground (arith, valid, no_version, discovers))
              (λ no_discover. run_mode-IsAskedFor f h valid no_version no_discover)))
      (λ invalid. ground (arith, invalid))
