-- ===== src/Config/Levels.antt =====
-- include/Config.h: the names of the log levels.
use so_magazyn_firmy_spedycy.Base.{
  ◌≡◌, ◌≢◌, refl, sym, ap, arith, true, none, some, List, [], ◌∷◌, ◌++◌, map, Bytes, codes, tolower,
  bytes_eq, bytes_eq-true, bytes_eq_refl, find_or, Bool-cases, inl, inr, ◌⊎◌, subst, if◌then◌else◌,
}
use so_magazyn_firmy_spedycy.Config.{
  Level, trace, debug, info, warn, err, critical, off, dispatch_log_level, Environment, get_env,
  setup_logger, Sink, console, file, log_path,
}

-- the name of each level in the documentation
pub level_name : Level → Bytes
level_name trace = codes "trace"
level_name debug = codes "debug"
level_name info = codes "info"
level_name warn = codes "warn"
level_name err = codes "err"
level_name critical = codes "crit"
level_name off = codes "off"

abbrev entry : Level → Bytes × Level
entry l = (level_name l, l)

abbrev all_levels : List Level
all_levels = trace ∷ debug ∷ info ∷ warn ∷ err ∷ critical ∷ off ∷ []

abbrev Listed : Level → List Level → Type 0
Listed l [] = ⊥
Listed l (k ∷ ks) = (l ≡ k) ⊎ Listed l ks

every_level : (l : Level) → Listed l all_levels
every_level trace = inl refl
every_level debug = inr (inl refl)
every_level info = inr (inr (inl refl))
every_level warn = inr (inr (inr (inl refl)))
every_level err = inr (inr (inr (inr (inl refl))))
every_level critical = inr (inr (inr (inr (inr (inl refl)))))
every_level off = inr (inr (inr (inr (inr (inr (inl refl))))))

-- the two ways in which a search among some levels ends
abbrev Found : Bytes → List Level → Type 0
Found key ks =
    ((l : Level) × (key ≡ level_name l) × (find_or info key (map entry ks) ≡ l))
    ⊎ (((l : Level) → Listed l ks → key ≢ level_name l) × (find_or info key (map entry ks) ≡ info))

search_levels : (key : Bytes) (ks : List Level) → Found key ks
unfolding find_or
search_levels key [] = inr ((λ l h. elim h [ ]), refl)
search_levels key (k ∷ ks) = elim (Bool-cases (bytes_eq key (level_name k))) [
  | inl here ↦ inl (k, bytes_eq-true key (level_name k) here, ground arith)
  | inr other ↦ elim (search_levels key ks) [
    | inl (l, same, e) ↦ inl (l, same, ground arith)
    | inr (none_of, e) ↦ inr (
      (λ l h same. elim h [
        | inl first ↦ cc (bytes_eq_refl key, ap level_name first)
        | inr later ↦ none_of l later same
      ]),
      ground arith,
    )
  ]
]

-- what a text says as a level
pub data LevelCase (text : Bytes) : Level → Type 0 where
  is_name : (l : Level) → map tolower text ≡ level_name l → LevelCase text l
  is_no_name : ((k : Level) → map tolower text ≢ level_name k) → LevelCase text info

-- In whatever letters, the seven documented names give their levels, and any other text gives `info`.
pub dispatch_log_level_lem : (text : Bytes) → LevelCase text (dispatch_log_level text)
unfolding dispatch_log_level level_name
dispatch_log_level_lem text = elim (search_levels (map tolower text) all_levels) [
  | inl (l, same, e) ↦ subst (LevelCase text) (sym e) (is_name l same)
  | inr (none_of, e) ↦ subst (LevelCase text) (sym e) (is_no_name (λ k. none_of k (every_level k)))
]

-- If LOG_TO_FILE is not set and the file can be opened, the logger writes to the report file, whatever
-- else the environment holds.
pub logs_to_file_by_default :
    (env : Environment) (proc_name : Bytes)
    → env (codes "LOG_TO_FILE") ≡ none
    → (console_part : List Sink) × (level : Level) × (setup_logger env true proc_name
        ≡ some (record {
          name = proc_name;
          sinks = console_part ++ file log_path ∷ [];
          level = level;
          flushes_on = info;
        }))
unfolding setup_logger bytes_eq
logs_to_file_by_default env proc_name unset = (
  (if bytes_eq (get_env env (codes "LOG_TO_CONSOLE") (codes "true")) (codes "true")
      then console ∷ []
      else []),
  dispatch_log_level (get_env env (codes "LOG_LEVEL") (codes "info")),
  rw unset refl,
)
