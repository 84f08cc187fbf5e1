-- ===== src/Client/Tests.antt =====
-- The storage client with one rule for reading and one for writing, over servers that answer OK.
use programmable_caching.Base.{true, some, List, [], ◌∷◌, ◌≡◌, ◌≢◌, refl, All, arith, eq_iff}
use programmable_caching.Base.Dict.{insert, lookup, erase}
use programmable_caching.Base.Exec.{returns, returned, faults, at, out_of_range}
use programmable_caching.Proto.Common.{
  Rule, Manager, OperationType, get_action, put_action, copy_from_action,
}
use programmable_caching.Proto.Storage.{GetRequest, PutRequest, empty_view_reply}
use programmable_caching.Rpc.{ok, ManagerTransport, MasterTransport}
use programmable_caching.Client.RuleDb.{
  empty, add_rule, remove_rule, get_rule_key, get_matching_rule, has_matching_rule,
}
use programmable_caching.Client.RuleDb.Refines.{
  Refines, with_rule, without_rule, no_rules, empty-Refines,
}
use programmable_caching.Client.Service.{
  StorageClient, init, get_round, get, execute_copy_action, execute_get_action, put_round, put_case,
  put, execute_put_action, install_rule,
}
use programmable_caching.Client.Races.{
  Change, find_rule, change_all, last_change, or_before, installs, removes, find_rule-last_change,
  change_all-Refines,
}
use programmable_caching.Client.Faults.{IsWriting, IsReading, put-returned, get-returned}
use programmable_caching.Client.Answers.{Responds}
use programmable_caching.Client.Typing.{
  IsTyped, serve_all, reads, has_rule, serve, typed_client-answers,
}

abbrev disk : Manager
disk = record { name = "disk"; uri = "b:1" }

abbrev cache : Manager
cache = record { name = "cache"; uri = "a:1" }

abbrev read_rule : Rule
read_rule = record {
  op_type = OperationType.get;
  key = "in";
  action =
      copy_from_action (record { key = "in"; src_mgr = cache; dst_mgr = disk })
      ∷ get_action (record { key = "in"; mgr = cache })
      ∷ [];
}

abbrev write_rule : Rule
write_rule = record {
  op_type = OperationType.put;
  key = "out";
  action = put_action (record { key = "out"; mgr = disk }) ∷ [];
}

abbrev client : StorageClient
client = record (init "c" "1" "master" "1") {
  rule_db = add_rule (add_rule empty read_rule) write_rule;
}

-- Servers that answer OK to everything and keep nothing.
abbrev managers : ManagerTransport (Unit {0})
managers = record {
  send_put = λ uri wait request s. (returns ok, s);
  send_get = λ uri wait request s. (returns (ok, record { value = "data" }), s);
  send_remove = λ uri wait request s. (returns ok, s);
  send_copy_from = λ uri wait request s. (returns ok, s);
}

abbrev master : MasterTransport (Unit {0})
master = record {
  send_introduce = λ uri wait request s. (returns (ok, record { name = "" }), s);
  send_heartbeat = λ uri wait s. (returns ok, s);
  send_storage_change = λ uri wait request s. (returns ok, s);
  send_install_rule = λ uri wait request s. (returns ok, s);
  send_remove_rule = λ uri wait request s. (returns ok, s);
  send_get_view = λ uri wait s. (returns (ok, empty_view_reply), s);
}

abbrev put_out : PutRequest
put_out = record { key = "out"; value = "result" }

abbrev ask_in : GetRequest
ask_in = record { key = "in" }

put_out-returned : returned (put managers master client put_out tt).0 ≡ true
unfolding put execute_put_action add_rule get_rule_key insert lookup has_matching_rule
    get_matching_rule put_round put_case
put_out-returned = refl

ask_in-returned : returned (get managers master client ask_in tt).0 ≡ true
unfolding get execute_copy_action execute_get_action add_rule get_rule_key insert lookup
    has_matching_rule get_matching_rule get_round
ask_in-returned = refl

out_is_no_empty_text : put_out.key ≢ ""
out_is_no_empty_text e = ground (arith, (eq_iff "out" "").1 e)

put-returned_example :
    (r : Rule) × (get_matching_rule client.rule_db "out" OperationType.put ≡ returns r)
    × All (IsWriting "out") r.action
put-returned_example =
    put-returned managers master client put_out tt out_is_no_empty_text put_out-returned

get-returned_example :
    (r : Rule) × (get_matching_rule client.rule_db "in" OperationType.get ≡ returns r)
    × IsReading "in" r.action
get-returned_example = get-returned managers master client ask_in tt ask_in-returned

change_all-Refines_example :
    Refines
      (change_all (installs read_rule ∷ removes read_rule ∷ installs write_rule ∷ []) empty)
      (with_rule write_rule (without_rule read_rule (with_rule read_rule no_rules)))
change_all-Refines_example =
    change_all-Refines (installs read_rule ∷ removes read_rule ∷ installs write_rule ∷ []) empty
      no_rules empty-Refines

read_rule_found : get_matching_rule client.rule_db "in" OperationType.get ≡ returns read_rule
unfolding add_rule get_rule_key insert lookup get_matching_rule
read_rule_found = refl

find_rule-last_change_example :
    find_rule (installs read_rule ∷ removes read_rule ∷ []) client.rule_db "in" OperationType.get
    ≡ at (
        or_before
          (last_change (installs read_rule ∷ removes read_rule ∷ []) "in" OperationType.get)
          (some read_rule))
find_rule-last_change_example =
    find_rule-last_change (installs read_rule ∷ removes read_rule ∷ []) client.rule_db "in"
      OperationType.get read_rule read_rule_found

-- A removal between the check and the read.
removed_in_between :
    find_rule (removes read_rule ∷ []) client.rule_db "in" OperationType.get ≡ faults out_of_range
unfolding find_rule change_all add_rule remove_rule insert erase lookup get_rule_key
    get_matching_rule has_matching_rule
removed_in_between = refl

servers-Responds : Responds managers master
servers-Responds = record {
  puts = λ uri wait q s. (ok, s, refl);
  gets = λ uri wait q s. (_, s, refl);
  removes = λ uri wait q s. (ok, s, refl);
  copies = λ uri wait q s. (ok, s, refl);
  reports = λ uri wait q s. (s, refl);
}

abbrev two_rules : List Change
two_rules = installs read_rule ∷ installs write_rule ∷ []

read_rule-IsReading : IsReading "in" read_rule.action
read_rule-IsReading = record {
  preparations = copy_from_action (record { key = "in"; src_mgr = cache; dst_mgr = disk }) ∷ [];
  last = record { key = "in"; mgr = cache };
  in_order = refl;
  prepared = (tt, tt);
  of_key = refl;
}

two_rules-IsTyped : All IsTyped two_rules
two_rules-IsTyped = (read_rule-IsReading, ((refl, tt), tt))

read_rule_there :
    has_rule (serve_all two_rules (init "c" "1" "master" "1")).rule_db (reads ask_in) ≡ true
unfolding serve_all install_rule add_rule get_rule_key insert lookup has_matching_rule
read_rule_there = refl

typed_client-answers_example :
    (s' : Unit {0}) × (serve managers master
        (serve_all two_rules (init "c" "1" "master" "1"))
        (reads ask_in)
        tt
      ≡ (returns ok, s'))
typed_client-answers_example =
    typed_client-answers managers master servers-Responds two_rules "c" "1" "master" "1"
      two_rules-IsTyped (reads ask_in) tt read_rule_there
