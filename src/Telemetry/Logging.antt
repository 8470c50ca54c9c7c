-- ===== src/Telemetry/Logging.antt =====
-- `configure_logging` of src/core/telemetry.py, as far as levels, handlers and formats go. The levels of
-- the library logging are its numbers; text is a list of code points.
use nimbus_commerce_platform.Common.{
  ℕ, ◌≤◌, ◌≡◌, refl, String, Bool, true, false, List, [], ◌∷◌, if◌then◌else◌, leb, str_eq, ◌⊎◌, inl,
  inr, ◌∙◌, sym, Bool-cases, arith,
}
use nimbus_commerce_platform.Common.Text.{codes, same_text}

-- How a line is written: as JSON, or for the console, with colours where the output is a terminal.
pub data Renderer : Type 0 where
  json : Renderer
  console : Bool → Renderer

-- The settings of the library: the handlers of the root logger by their renderers, its level, and the
-- levels of the other loggers.
pub record Logging : Type 0 where
  pub handlers : List Renderer
  pub root_level : ℕ
  pub level_of : String → ℕ

-- `getattr(logging, settings.log_level, logging.INFO)`, for the names that the settings take.
abbrev pub level_named : List ℕ → ℕ
level_named name =
    if same_text name (codes "DEBUG")
    then 10
    else if same_text name (codes "WARNING")
    then 30
    else if same_text name (codes "ERROR")
    then 40
    else if same_text name (codes "CRITICAL")
    then 50
    else 20

abbrev max : ℕ → ℕ → ℕ
max a b = if leb a b then b else a

abbrev noisy : List String
noisy = "sqlalchemy.engine.Engine" ∷ "aiokafka" ∷ "asyncio" ∷ "uvicorn.access" ∷ []

-- The loop that sets the levels of the chatty loggers.
abbrev set_levels : ℕ → List String → (String → ℕ) → String → ℕ
set_levels level [] levels = levels
set_levels level (name ∷ names) levels =
    set_levels level names (λ other. if str_eq name other then level else levels other)

unfoldable pub configure_logging : List ℕ → Bool → Bool → Logging → Logging
configure_logging log_level use_json_logs isatty logging = record {
  handlers = (if use_json_logs then json else console isatty) ∷ [];
  root_level = level_named log_level;
  level_of = set_levels (max (level_named log_level) 30) noisy logging.level_of;
}

is_in : String → List String → Bool
is_in other [] = false
is_in other (name ∷ names) = if is_in other names then true else str_eq name other

set_levels-is_in :
    (level : ℕ) (names : List String) (levels : String → ℕ) (other : String)
    → set_levels level names levels other ≡ (if is_in other names then level else levels other)
unfolding is_in
set_levels-is_in level [] levels other = refl
set_levels-is_in level (name ∷ names) levels other =
    ground
      (arith, set_levels-is_in level names (λ o. if str_eq name o then level else levels o) other)

-- A logger is left as it was, or is one of the chatty ones and stays at WARNING or above.
configure_logging_tames :
    (log_level : List ℕ) (use_json_logs isatty : Bool) (logging : Logging) (name : String)
    → ((configure_logging log_level use_json_logs isatty logging).level_of name
        ≡ logging.level_of name)
      ⊎ ((is_in name noisy ≡ true)
          × (30 ≤ (configure_logging log_level use_json_logs isatty logging).level_of name))
unfolding configure_logging
configure_logging_tames log_level use_json_logs isatty logging name =
    let q = set_levels-is_in (max (level_named log_level) 30) noisy logging.level_of name in
    elim (Bool-cases (is_in name noisy)) [
      | inl chatty ↦ inr (chatty, rw (q, chatty) (ground arith))
      | inr other ↦ inl (q ∙ rw other refl)
    ]

-- A second call with the same settings changes nothing, as its docstring says: no handler is added
-- twice, and every level stays.
configure_logging_idem :
    (log_level : List ℕ) (use_json_logs isatty : Bool) (logging : Logging) (name : String)
    → ((configure_logging log_level use_json_logs isatty
          (configure_logging log_level use_json_logs isatty logging)).handlers
        ≡ (configure_logging log_level use_json_logs isatty logging).handlers)
      × ((configure_logging log_level use_json_logs isatty
              (configure_logging log_level use_json_logs isatty logging)).level_of
            name
          ≡ (configure_logging log_level use_json_logs isatty logging).level_of name)
unfolding configure_logging
configure_logging_idem log_level use_json_logs isatty logging name =
    let level = max (level_named log_level) 30 in
    let once = set_levels-is_in level noisy logging.level_of name in
    let twice = set_levels-is_in level noisy (set_levels level noisy logging.level_of) name in
    (
      refl,
      elim (Bool-cases (is_in name noisy)) [
        | inl chatty ↦ twice ∙ rw chatty (sym (once ∙ rw chatty refl))
        | inr other ↦ twice ∙ rw other refl
      ],
    )
