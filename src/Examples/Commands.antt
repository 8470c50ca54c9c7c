-- ===== src/Examples/Commands.antt =====
-- Runs of the tools on commits and environments.
use nimbus_commerce_platform.Common.{
  ℕ, ◌≡◌, refl, Bool, true, false, ◌&&◌, Option, none, some, List, [], ◌∷◌, ◌==◌, leb,
}
use nimbus_commerce_platform.Common.Text.{codes, split_on}
use nimbus_commerce_platform.Tools.Commits.{
  Commit, Rules, default_types, default_scopes, check_message,
}
use nimbus_commerce_platform.Tools.Commits.Verdicts.{check_message_ordinary}
use nimbus_commerce_platform.Tools.EnvFile.{hook_audit, script_audit}
use nimbus_commerce_platform.Tools.EnvFile.Agreement.{audits_agree}
use nimbus_commerce_platform.Tools.Guards.{Parsed, Functions}

abbrev rules : Rules
rules = record {
  types = default_types;
  scopes = default_scopes;
  is_upper = λ c. leb b'A' c && leb c b'Z';
  upper = λ t. t;
  is_space = λ c. c == b' ';
  splitlines = split_on b'\n';
}

abbrev commit : Commit
commit = record {
  commit_type = codes "feat";
  scope = some (codes "orders");
  subject = codes "add idempotency key support";
  body = some (codes "BREAKING CHANGE: the key is required");
}

check_message_ordinary_example :
    check_message rules (codes "feat(orders): add idempotency key support") ≡ 1
check_message_ordinary_example =
    check_message_ordinary rules (record commit { body = none })
      (record { commit_type = refl; scope = refl; subject = refl; body = refl })

abbrev pub is_blank : ℕ → Bool
is_blank c = c == b' '

-- Two URLs, and a parser that knows them.
abbrev pub database : Parsed
database = record {
  scheme = codes "postgresql";
  url = record { hostname = some (codes "127.0.0.1"); path = codes "/nimbus_test" };
}

abbrev pub redis : Parsed
redis = record {
  scheme = codes "redis";
  url = record { hostname = some (codes "127.0.0.1"); path = codes "/1" };
}

abbrev pub parse : List ℕ → Option Parsed
parse [] = none
parse (c ∷ url) = elim (c == b'd') [ true ↦ some database | false ↦ some redis ]

abbrev pub functions : Functions
functions = record { urlparse = parse; lower = λ t. t; upper = λ t. t }

abbrev env_file : List (List ℕ)
env_file =
    codes "# settings" ∷ codes " ENVIRONMENT = test " ∷ codes "=odd" ∷ codes "APP_NAME=a=b" ∷ []

audits_agree_example :
    script_audit is_blank (codes ".env.test") env_file
    ≡ hook_audit is_blank (codes ".env.test") env_file
audits_agree_example = audits_agree is_blank refl refl (codes ".env.test") env_file
