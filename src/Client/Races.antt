-- ===== src/Client/Races.antt =====
-- The rule that Get and Put look up, with handlers of InstallRule and RemoveRule in between: the
-- check and the read take the mutex of RuleDb one after the other, not together.
use programmable_caching.Base.{
  String, Option, none, some, List, [], ◌∷◌, ◌≡◌, ◌∙◌, refl, ap, ◌&&◌, ◌==◌, if◌then◌else◌, arith,
}
use programmable_caching.Base.Dict.{lookup}
use programmable_caching.Base.Exec.{returns-injective, Outcome, returns, faults, at, assertion}
use programmable_caching.Proto.Common.{Rule, OperationType}
use programmable_caching.Client.RuleDb.{
  RuleDb, get_rule_key, has_matching_rule-get_matching_rule, add_rule, remove_rule,
  has_matching_rule, get_matching_rule,
}
use programmable_caching.Client.RuleDb.Refines.{
  Refines, RuleMap, same_op, with_rule, without_rule, add_rule-Refines, remove_rule-Refines,
}

-- The handlers InstallRule and RemoveRule of the client, on its database.
pub data Change : Type 0 where
  installs : (r : Rule) → Change
  removes : (r : Rule) → Change

unfoldable pub change : Change → RuleDb → RuleDb
change (installs r) db = add_rule db r
change (removes r) db = remove_rule db r

unfoldable pub change_all : List Change → RuleDb → RuleDb
unfolding change
change_all [] db = db
change_all (c ∷ rest) db = change_all rest (change c db)

-- assert(rule_db_.HasMatchingRule(...)), the changes, and then GetMatchingRule.
unfoldable pub find_rule : List Change → RuleDb → String → OperationType → Outcome Rule
unfolding change_all
find_rule changes db key op =
    if has_matching_rule db key op
    then get_matching_rule (change_all changes db) key op
    else faults assertion

-- What a change makes of the rule of the key and the operation: a rule, or none. It is about no
-- other.
abbrev pub about : Change → String → OperationType → Option (Option Rule)
about (installs r) key op = if same_op r.op_type op && r.key == key then some (some r) else none
about (removes r) key op = if same_op r.op_type op && r.key == key then some none else none

abbrev later : Option (Option Rule) → Option (Option Rule) → Option (Option Rule)
later none first = first
later (some o) first = some o

-- What the last change about the key and the operation makes of their rule.
unfoldable pub last_change : List Change → String → OperationType → Option (Option Rule)
last_change [] key op = none
last_change (c ∷ rest) key op = later (last_change rest key op) (about c key op)

abbrev pub or_before : Option (Option Rule) → Option Rule → Option Rule
or_before none before = before
or_before (some after) before = after

abbrev pub change_map : Change → RuleMap → RuleMap
change_map (installs r) f = with_rule r f
change_map (removes r) f = without_rule r f

abbrev pub change_all_map : List Change → RuleMap → RuleMap
change_all_map [] f = f
change_all_map (c ∷ rest) f = change_all_map rest (change_map c f)

-- A database after any sequence of AddRule and RemoveRule answers as the map after the same
-- sequence, in which each sets or clears the rule of one key and operation; the operations that the
-- enumeration does not declare count as one.
pub change_all-Refines :
    (changes : List Change) (db : RuleDb) (f : RuleMap)
    → Refines db f
    → Refines (change_all changes db) (change_all_map changes f)
unfolding change_all change
change_all-Refines [] db f h = h
change_all-Refines (installs r ∷ rest) db f h =
    change_all-Refines rest (add_rule db r) (with_rule r f) (add_rule-Refines db r f h)
change_all-Refines (removes r ∷ rest) db f h =
    change_all-Refines rest (remove_rule db r) (without_rule r f) (remove_rule-Refines db r f h)

change_map-about :
    (c : Change) (f : RuleMap) (key : String) (op : OperationType)
    → change_map c f key op ≡ or_before (about c key op) (f key op)
change_map-about (installs r) f key op = ground arith
change_map-about (removes r) f key op = ground arith

or_before-later :
    (last first : Option (Option Rule)) (before : Option Rule)
    → or_before last (or_before first before) ≡ or_before (later last first) before
or_before-later none first before = refl
or_before-later (some o) first before = refl

change_all_map-last :
    (changes : List Change) (f : RuleMap) (key : String) (op : OperationType)
    → change_all_map changes f key op ≡ or_before (last_change changes key op) (f key op)
unfolding last_change
change_all_map-last [] f key op = refl
change_all_map-last (c ∷ rest) f key op =
    change_all_map-last rest (change_map c f) key op
    ∙ ap (or_before (last_change rest key op)) (change_map-about c f key op)
    ∙ or_before-later (last_change rest key op) (about c key op) (f key op)

-- Every database answers as its own map.
abbrev own_map : RuleDb → RuleMap
own_map db key op = lookup (get_rule_key key op) db.rules

own_map-Refines : (db : RuleDb) → Refines db (own_map db)
unfolding get_matching_rule has_matching_rule
own_map-Refines db = record { finds = λ key op. refl; has = λ key op. refl }

at-returns : (o : Option Rule) {r : Rule} → at o ≡ returns r → o ≡ some r
at-returns none e = cc
at-returns (some r) e = ap some (returns-injective e)

-- Get and Put that find a rule at their check go on with the rule that was installed last under
-- their key and operation before they read it; where a RemoveRule of that key and operation came
-- last in between, the read throws std::out_of_range; and where no change was about them, they go
-- on with the rule that was there.
pub find_rule-last_change :
    (changes : List Change) (db : RuleDb) (key : String) (op : OperationType) (r : Rule)
    → get_matching_rule db key op ≡ returns r
    → find_rule changes db key op ≡ at (or_before (last_change changes key op) (some r))
unfolding find_rule get_matching_rule
find_rule-last_change changes db key op r e =
    let after = change_all-Refines changes db (own_map db) (own_map-Refines db) in
    let before : own_map db key op ≡ some r = at-returns (own_map db key op) e in
    rw (has_matching_rule-get_matching_rule db key op r e) (
      after.finds key op
      ∙ ap at (
          change_all_map-last changes (own_map db) key op
          ∙ ap (or_before (last_change changes key op)) before))
