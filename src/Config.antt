-- ===== src/Config.antt =====
-- include/Config.h: what the environment says about logging, and the logger made from it. The
-- environment is a parameter, as `std::getenv` gives it. What spdlog makes of a logger is outside the
-- model; whether its file sink can be opened is an argument.
pub mod Levels
use so_magazyn_firmy_spedycy.Base.{
  ℕ, Bool, true, false, not, ◌&&◌, Option, none, some, List, [], ◌∷◌, ◌++◌, map, Bytes, codes,
  tolower, bytes_eq, find_or, if◌then◌else◌,
}

abbrev pub Environment : Type 0
Environment = Bytes → Option Bytes

-- `spdlog::level::level_enum`, as far as the code names it
pub data Level : Type 0 where
  trace debug info warn err critical off : Level

pub data Sink : Type 0 where
  console : Sink
  -- with the path; it is appended to
  file : Bytes → Sink

pub record Logger : Type 0 where
  pub name : Bytes
  pub sinks : List Sink
  pub level : Level
  pub flushes_on : Level

abbrev or_default : Bytes → Option Bytes → Bytes
or_default default none = default
or_default default (some raw) = raw

unfoldable pub get_env : Environment → Bytes → Bytes → Bytes
get_env env key default = or_default default (env key)

-- `levels`
abbrev pub levels : List (Bytes × Level)
levels =
    (codes "trace", trace)
    ∷ (codes "debug", debug)
    ∷ (codes "info", info)
    ∷ (codes "warn", warn)
    ∷ (codes "err", err)
    ∷ (codes "crit", critical)
    ∷ (codes "off", off)
    ∷ []

unfoldable pub dispatch_log_level : Bytes → Level
unfolding find_or
dispatch_log_level level = find_or info (map tolower level) levels

abbrev pub log_path : Bytes
log_path = codes "logs/simulation_report.txt"

-- The logger that becomes the default one; `none` if the file sink throws, and the old one stays.
unfoldable pub setup_logger : Environment → Bool → Bytes → Option Logger
unfolding get_env dispatch_log_level
setup_logger env opens proc_name =
    let to_console =
      bytes_eq (get_env env (codes "LOG_TO_CONSOLE") (codes "true")) (codes "true") in
    let to_file = bytes_eq (get_env env (codes "LOG_TO_FILE") (codes "true")) (codes "true") in
    let level_str = get_env env (codes "LOG_LEVEL") (codes "info") in
    if to_file && not opens
    then none
    else some (record {
      name = proc_name;
      sinks =
          (if to_console then console ∷ [] else []) ++ (if to_file then file log_path ∷ [] else []);
      level = dispatch_log_level level_str;
      flushes_on = info;
    })
