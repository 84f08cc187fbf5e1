-- ===== src/Client/RuleDb.antt =====
-- rule_db.cc: rules by operation and key.
pub mod Refines
use programmable_caching.Base.{String, Bool, true, false, Option, none, some, [], ◌≡◌, arith}
use programmable_caching.Base.Text.{◌⧺◌}
use programmable_caching.Base.Dict.{Dict, lookup, insert, erase}
use programmable_caching.Base.Exec.{Outcome, returns, at}
use programmable_caching.Proto.Common.{Rule, OperationType, operation_type_name}

pub record RuleDb : Type 0 where
  pub rules : Dict Rule

abbrev pub empty : RuleDb
empty = record { rules = [] }

unfoldable pub get_rule_key : String → OperationType → String
get_rule_key key op = operation_type_name op ⧺ ":" ⧺ key

unfoldable pub add_rule : RuleDb → Rule → RuleDb
add_rule db r = record { rules = insert (get_rule_key r.key r.op_type) r db.rules }

unfoldable pub remove_rule : RuleDb → Rule → RuleDb
remove_rule db r = record { rules = erase (get_rule_key r.key r.op_type) db.rules }

abbrev pub found : Option Rule → Bool
found none = false
found (some _) = true

unfoldable pub has_matching_rule : RuleDb → String → OperationType → Bool
has_matching_rule db key op = found (lookup (get_rule_key key op) db.rules)

unfoldable pub get_matching_rule : RuleDb → String → OperationType → Outcome Rule
get_matching_rule db key op = at (lookup (get_rule_key key op) db.rules)

-- Where GetMatchingRule returns a rule, HasMatchingRule holds.
pub has_matching_rule-get_matching_rule :
    (db : RuleDb) (key : String) (op : OperationType) (r : Rule)
    → get_matching_rule db key op ≡ returns r
    → has_matching_rule db key op ≡ true
unfolding get_matching_rule has_matching_rule
has_matching_rule-get_matching_rule db key op r e = ground (arith, e)
