-- ===== src/ConfigSystem/Validation.antt =====
-- validateConfig and the rules that addDefaultValidationRules registers. Fields that no check reads
-- (logging, features, custom settings, credentials) are left out of the configuration.
use advanced_golang_tutorial.Prelude.{
  Bool, true, false, ◌||◌, List, [], ◌∷◌, Option, none, some, if◌then◌else◌, ℤ, pos, ltb_ℤ, leb_ℤ,
  Text,
}

pub record ServerConfig : Type 0 where
  pub port : ℤ
  pub read_timeout : ℤ

pub record DatabaseConfig : Type 0 where
  pub host : Text
  pub port : ℤ

pub record ApplicationConfig : Type 0 where
  pub version : Text
  pub checksum : Text
  pub server : Option ServerConfig
  pub database : Option DatabaseConfig

-- The types of rule for which a validator is registered, and all others.
pub data RuleType : Type 0 where
  port_validation : RuleType
  timeout_validation : RuleType
  other_validation : RuleType

-- The parameters of a rule are its ports, `none` where they are no numbers.
pub record ValidationRule : Type 0 where
  pub type_name : RuleType
  pub min_port : Option ℤ
  pub max_port : Option ℤ
  pub required : Bool
  pub is_error : Bool

pub data ConfigError : Type 0 where
  no_server : ConfigError
  no_database : ConfigError
  invalid_server_port : ConfigError
  no_database_host : ConfigError
  invalid_database_port : ConfigError
  rule_failed : ValidationRule → ConfigError

abbrev default_to : ℤ → Option ℤ → ℤ
default_to d none = d
default_to d (some n) = n

abbrev second : ℤ
second = pos 1_000_000_000

unfoldable pub fails_ports : ℤ → ℤ → ServerConfig → DatabaseConfig → Bool
fails_ports min max s d =
    (ltb_ℤ s.port min || ltb_ℤ max s.port) || (ltb_ℤ d.port min || ltb_ℤ max d.port)

-- Whether the validator that is registered for the rule returns an error.
unfoldable pub fails_rule : ValidationRule → ServerConfig → DatabaseConfig → Bool
unfolding fails_ports
fails_rule rule s d = elim rule.type_name [
  | port_validation ↦
      fails_ports (default_to (pos 1) rule.min_port) (default_to (pos 65535) rule.max_port) s d
  | timeout_validation ↦ ltb_ℤ s.read_timeout second
  | other_validation ↦ false
]

-- The first rule that fails and is not a mere warning.
unfoldable pub check_rules :
    List ValidationRule → ServerConfig → DatabaseConfig → Option ConfigError
unfolding fails_rule
check_rules [] s d = none
check_rules (rule ∷ rules) s d =
    let rest = check_rules rules s d in
    if fails_rule rule s d
    then if rule.required || rule.is_error then some (rule_failed rule) else rest
    else rest

abbrev is_port : ℤ → Bool
is_port p = if leb_ℤ p (pos 0) then false else leb_ℤ p (pos 65535)

unfoldable pub check_parts :
    List ValidationRule → ServerConfig → DatabaseConfig → Option ConfigError
unfolding check_rules
check_parts rules s d =
    let by_rules = check_rules rules s d in
    let by_host : Option ConfigError = elim d.host [
      | [] ↦ some no_database_host
      | c ∷ host ↦ if is_port d.port then by_rules else some invalid_database_port
    ] in
    if is_port s.port then by_host else some invalid_server_port

-- `none` where the configuration is accepted.
unfoldable pub validate_config : List ValidationRule → ApplicationConfig → Option ConfigError
unfolding check_parts
validate_config rules c = elim c.server [
  | none ↦ some no_server
  | some s ↦ elim c.database [ none ↦ some no_database | some d ↦ check_parts rules s d ]
]

-- The rules of addDefaultValidationRules.
abbrev pub default_validation_rules : List ValidationRule
default_validation_rules =
    record {
      type_name = port_validation;
      min_port = some (pos 1);
      max_port = some (pos 65535);
      required = true;
      is_error = true;
    }
    ∷ record {
      type_name = timeout_validation;
      min_port = none;
      max_port = none;
      required = true;
      is_error = false;
    }
    ∷ []
