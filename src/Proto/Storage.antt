-- ===== src/Proto/Storage.antt =====
-- proto/storage_service.proto
use programmable_caching.Base.{String, List, []}
use programmable_caching.Base.Int.{ℤ}
use programmable_caching.Proto.Common.{Action, Rule, StorageName}

pub data StorageType : Type 0 where
  managed unmanaged : StorageType
  unrecognized : ℤ → StorageType

-- StorageType_Name
abbrev pub storage_type_name : StorageType → String
storage_type_name managed = "MANAGED"
storage_type_name unmanaged = "UNMANAGED"
storage_type_name (StorageType.unrecognized _) = ""

pub record FileId : Type 0 where
  pub key : String

pub record StorageManagerIntroduce : Type 0 where
  pub storage_type : StorageType
  pub storage_name : StorageName
  pub rpc_hostname : String
  pub rpc_port : String
  pub file : List FileId

pub record StorageClientIntroduce : Type 0 where
  pub rpc_hostname : String
  pub rpc_port : String

pub data IntroduceRequest : Type 0 where
  storage_manager : StorageManagerIntroduce → IntroduceRequest
  storage_client : StorageClientIntroduce → IntroduceRequest
  introduce_not_set : IntroduceRequest

pub record IntroduceReply : Type 0 where
  pub name : String

pub record CopyFromRequest : Type 0 where
  pub key : String
  pub dst_uri : String

pub record GetRequest : Type 0 where
  pub key : String

pub record GetReply : Type 0 where
  pub value : String

pub record PutRequest : Type 0 where
  pub key : String
  pub value : String

pub record RemoveRequest : Type 0 where
  pub key : String

pub record InstallRuleRequest : Type 0 where
  pub client : String
  pub rule : Rule

pub record RemoveRuleRequest : Type 0 where
  pub client : String
  pub rule : Rule

pub record StorageChangeRequest : Type 0 where
  pub storage_change : List Action

pub record ManagerView : Type 0 where
  pub name : String
  pub uri : String
  pub key : List String

pub record ClientView : Type 0 where
  pub name : String
  pub uri : String

pub record GetViewReply : Type 0 where
  pub view : List ManagerView
  pub client : List ClientView

-- A message in which nothing is set.
abbrev pub empty_view_reply : GetViewReply
empty_view_reply = record { view = []; client = [] }
