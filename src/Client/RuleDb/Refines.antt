-- ===== src/Client/RuleDb/Refines.antt =====
-- The rule database as a map from a key and an operation.
use programmable_caching.Base.{
  String, Bool, true, false, Option, none, some, ◌≡◌, refl, ◌&&◌, ◌==◌, if◌then◌else◌, arith,
  eq_iff,
}
use programmable_caching.Base.Text.{colon_join-injective}
use programmable_caching.Base.Dict.{lookup, lookup-insert, lookup-erase}
use programmable_caching.Base.Exec.{at}
use programmable_caching.Proto.Common.{
  Rule, OperationType, operation_type_name, operation_type_name-IsPlain,
}
use programmable_caching.Client.RuleDb.{
  RuleDb, found, empty, get_rule_key, add_rule, remove_rule, has_matching_rule, get_matching_rule,
}

-- Operations that the database tells apart by their names.
abbrev pub same_op : OperationType → OperationType → Bool
same_op OperationType.get OperationType.get = true
same_op OperationType.put OperationType.put = true
same_op OperationType.remove OperationType.remove = true
same_op (OperationType.unrecognized _) (OperationType.unrecognized _) = true
same_op _ _ = false

op_names_differ :
    (a b : OperationType) → operation_type_name a ≡ operation_type_name b → same_op a b ≡ true
op_names_differ OperationType.get OperationType.get e = refl
op_names_differ OperationType.put OperationType.put e = refl
op_names_differ OperationType.remove OperationType.remove e = refl
op_names_differ (OperationType.unrecognized _) (OperationType.unrecognized _) e = refl
op_names_differ a b e = ground (arith, eq_iff (operation_type_name a) (operation_type_name b))

same_op-names :
    (a b : OperationType) → same_op a b ≡ true → operation_type_name a ≡ operation_type_name b
same_op-names a b h = ground arith

-- The keys of two rules are the same text exactly if operation and key are the same.
get_rule_key-same :
    (k key : String) (o op : OperationType)
    → (get_rule_key k o == get_rule_key key op) ≡ (same_op o op && k == key)
unfolding get_rule_key
get_rule_key-same k key o op = ground (
  arith,
  eq_iff (get_rule_key k o) (get_rule_key key op),
  eq_iff k key,
  same_op-names o op,
  op_names_differ o op,
  colon_join-injective (operation_type_name o) k (operation_type_name op) key
      (operation_type_name-IsPlain o) (operation_type_name-IsPlain op),
)

abbrev pub RuleMap : Type 0
RuleMap = String → OperationType → Option Rule

-- The database answers as the map does.
pub record Refines (db : RuleDb) (f : RuleMap) : Type 0 where
  pub finds : (key : String) (op : OperationType) → get_matching_rule db key op ≡ at (f key op)
  pub has : (key : String) (op : OperationType) → has_matching_rule db key op ≡ found (f key op)

abbrev pub with_rule : Rule → RuleMap → RuleMap
with_rule r f key op = if same_op r.op_type op && r.key == key then some r else f key op

abbrev pub without_rule : Rule → RuleMap → RuleMap
without_rule r f key op = if same_op r.op_type op && r.key == key then none else f key op

abbrev pub no_rules : RuleMap
no_rules key op = none

-- A new database answers as the map with no rules.
pub empty-Refines : Refines empty no_rules
unfolding get_matching_rule has_matching_rule lookup
empty-Refines = record { finds = λ key op. refl; has = λ key op. refl }

module _ (db : RuleDb) (r : Rule) (f : RuleMap) where
  -- AddRule sets the rule of its key and operation, and keeps every other rule.
  pub add_rule-Refines : Refines db f → Refines (add_rule db r) (with_rule r f)
  unfolding add_rule get_matching_rule has_matching_rule
  add_rule-Refines h = record {
    finds = λ key op. ground (
      arith,
      h.finds key op,
      get_rule_key-same r.key key r.op_type op,
      lookup-insert (get_rule_key key op) (get_rule_key r.key r.op_type) r db.rules,
    );
    has = λ key op. ground (
      arith,
      h.has key op,
      get_rule_key-same r.key key r.op_type op,
      lookup-insert (get_rule_key key op) (get_rule_key r.key r.op_type) r db.rules,
    );
  }

  -- RemoveRule clears the rule of its key and operation, and keeps every other rule.
  pub remove_rule-Refines : Refines db f → Refines (remove_rule db r) (without_rule r f)
  unfolding remove_rule get_matching_rule has_matching_rule
  remove_rule-Refines h = record {
    finds = λ key op. ground (
      arith,
      h.finds key op,
      get_rule_key-same r.key key r.op_type op,
      lookup-erase (get_rule_key key op) (get_rule_key r.key r.op_type) db.rules,
    );
    has = λ key op. ground (
      arith,
      h.has key op,
      get_rule_key-same r.key key r.op_type op,
      lookup-erase (get_rule_key key op) (get_rule_key r.key r.op_type) db.rules,
    );
  }
