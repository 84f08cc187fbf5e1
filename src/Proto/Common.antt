-- ===== src/Proto/Common.antt =====
-- proto/common.proto
use programmable_caching.Base.{String, List, Bool, true, false, if◌then◌else◌, ◌==◌}
use programmable_caching.Base.{Option, none, some, refl, ◌≡◌}
use programmable_caching.Base.Int.{ℤ, same_int}
use programmable_caching.Base.Text.{IsPlain, until_colon}

pub record Task : Type 0 where
  pub id : String
  pub input_file : String
  pub output_file : String

pub record Job : Type 0 where
  pub id : String
  pub task : List Task

abbrev pub empty_task : Task
empty_task = record { id = ""; input_file = ""; output_file = "" }

-- proto3 leaves enumerations open: `unrecognized` stands for a number that the enumeration does not
-- declare. Such a number has no name, for which the library gives the empty text.
pub data OperationType : Type 0 where
  get put remove : OperationType
  unrecognized : ℤ → OperationType

-- Action.Manager: the name is set by the scheduler, the uri by the storage master.
pub record Manager : Type 0 where
  pub name : String
  pub uri : String

pub record GetAction : Type 0 where
  pub key : String
  pub mgr : Manager

pub record CopyFromAction : Type 0 where
  pub key : String
  pub src_mgr : Manager
  pub dst_mgr : Manager

pub record RemoveAction : Type 0 where
  pub key : String
  pub mgr : Manager

pub record PutAction : Type 0 where
  pub key : String
  pub mgr : Manager

pub data Action : Type 0 where
  get_action : GetAction → Action
  copy_from_action : CopyFromAction → Action
  remove_action : RemoveAction → Action
  put_action : PutAction → Action
  action_type_not_set : Action

-- The accessor put_action(): the default message where another member is set.
abbrev pub put_action_of : Action → PutAction
put_action_of (put_action a) = a
put_action_of _ = record { key = ""; mgr = record { name = ""; uri = "" } }

pub record Rule : Type 0 where
  pub op_type : OperationType
  pub key : String
  pub action : List Action

pub data StorageName : Type 0 where
  ephemeral amazons3 redis fake_persistant : StorageName
  unrecognized : ℤ → StorageName

-- OperationType_Name
abbrev pub operation_type_name : OperationType → String
operation_type_name OperationType.get = "GET"
operation_type_name OperationType.put = "PUT"
operation_type_name OperationType.remove = "REMOVE"
operation_type_name (OperationType.unrecognized _) = ""

-- StorageName_Name
abbrev pub storage_name_name : StorageName → String
storage_name_name ephemeral = "EPHEMERAL"
storage_name_name amazons3 = "AMAZONS3"
storage_name_name redis = "REDIS"
storage_name_name fake_persistant = "FAKE_PERSISTANT"
storage_name_name (StorageName.unrecognized _) = ""

-- StorageName_Parse
unfoldable pub storage_name_parse : String → Option StorageName
storage_name_parse s =
    if s == "EPHEMERAL"
    then some ephemeral
    else if s == "AMAZONS3"
    then some amazons3
    else if s == "REDIS"
    then some redis
    else if s == "FAKE_PERSISTANT"
    then some fake_persistant
    else none

-- s_name == ephemeral_
abbrev pub same_storage_name : StorageName → StorageName → Bool
same_storage_name ephemeral ephemeral = true
same_storage_name amazons3 amazons3 = true
same_storage_name redis redis = true
same_storage_name fake_persistant fake_persistant = true
same_storage_name (StorageName.unrecognized a) (StorageName.unrecognized b) = same_int a b
same_storage_name _ _ = false

-- The name that is read back from its text: none for a number that is not declared.
abbrev pub declared : StorageName → Option StorageName
declared (StorageName.unrecognized _) = none
declared n = some n

pub storage_name_parse-storage_name_name :
    (n : StorageName) → storage_name_parse (storage_name_name n) ≡ declared n
unfolding storage_name_parse
storage_name_parse-storage_name_name ephemeral = refl
storage_name_parse-storage_name_name amazons3 = refl
storage_name_parse-storage_name_name redis = refl
storage_name_parse-storage_name_name fake_persistant = refl
storage_name_parse-storage_name_name (StorageName.unrecognized _) = refl

pub operation_type_name-IsPlain : (op : OperationType) → IsPlain (operation_type_name op)
unfolding until_colon
operation_type_name-IsPlain OperationType.get = refl
operation_type_name-IsPlain OperationType.put = refl
operation_type_name-IsPlain OperationType.remove = refl
operation_type_name-IsPlain (OperationType.unrecognized _) = refl

pub storage_name_name-IsPlain : (n : StorageName) → IsPlain (storage_name_name n)
unfolding until_colon
storage_name_name-IsPlain ephemeral = refl
storage_name_name-IsPlain amazons3 = refl
storage_name_name-IsPlain redis = refl
storage_name_name-IsPlain fake_persistant = refl
storage_name_name-IsPlain (StorageName.unrecognized _) = refl
