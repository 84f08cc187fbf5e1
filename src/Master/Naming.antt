-- ===== src/Master/Naming.antt =====
-- StorageMaster::GenerateName of storage_master.cc, and what its names determine.
use text.Mathlib.TextLemmas.{append_assoc, append_cancel_left}
use programmable_caching.Base.{
  String, ◌≡◌, refl, sym, ap, ◌∙◌, ◌↔◌, Option, none, some, arith, eq_iff,
}
use programmable_caching.Base.Text.{
  ◌⧺◌, colon_join, until_colon, until_colon-colon_join, colon_join-injective, IsPlain,
}
use programmable_caching.Proto.Common.{storage_name_name, storage_name_name-IsPlain}
use programmable_caching.Proto.Storage.{
  IntroduceRequest, storage_manager, storage_client, introduce_not_set, storage_type_name,
  StorageManagerIntroduce, StorageType, managed, unmanaged,
}

unfoldable pub generate_name : IntroduceRequest → String
generate_name (storage_manager introduce) =
    "manager:"
    ⧺ storage_name_name introduce.storage_name
    ⧺ ":"
    ⧺ storage_type_name introduce.storage_type
    ⧺ ":"
    ⧺ introduce.rpc_hostname
generate_name (storage_client introduce) = "client:" ⧺ introduce.rpc_hostname
generate_name introduce_not_set = "INVALID"

-- The name behind its first colon.
abbrev pub manager_tail : StorageManagerIntroduce → String
manager_tail i =
    colon_join (storage_name_name i.storage_name)
      (colon_join (storage_type_name i.storage_type) i.rpc_hostname)

pub manager_name_parts :
    (i : StorageManagerIntroduce)
    → generate_name (storage_manager i) ≡ colon_join "manager" (manager_tail i)
unfolding generate_name
manager_name_parts i = append_assoc "manager" ":" (manager_tail i)

-- Two introductions that get the same name.
abbrev pub SameIdentity : IntroduceRequest → IntroduceRequest → Type 0
SameIdentity (storage_manager a) (storage_manager b) =
    (storage_name_name a.storage_name ≡ storage_name_name b.storage_name)
    × (storage_type_name a.storage_type ≡ storage_type_name b.storage_type)
    × (a.rpc_hostname ≡ b.rpc_hostname)
SameIdentity (storage_client a) (storage_client b) = a.rpc_hostname ≡ b.rpc_hostname
SameIdentity introduce_not_set introduce_not_set = Unit
SameIdentity _ _ = ⊥

kind_of : IntroduceRequest → Option String
kind_of (storage_manager _) = some "manager"
kind_of (storage_client _) = some "client"
kind_of introduce_not_set = none

until_colon-generate_name : (r : IntroduceRequest) → until_colon (generate_name r) ≡ kind_of r
unfolding generate_name kind_of until_colon
until_colon-generate_name (storage_manager i) =
    rw manager_name_parts (until_colon-colon_join "manager" (manager_tail i) refl)
until_colon-generate_name (storage_client i) =
    ap until_colon (append_assoc "client" ":" i.rpc_hostname)
    ∙ until_colon-colon_join "client" i.rpc_hostname refl
until_colon-generate_name introduce_not_set = refl

storage_type_name-IsPlain : (t : StorageType) → IsPlain (storage_type_name t)
unfolding until_colon
storage_type_name-IsPlain managed = refl
storage_type_name-IsPlain unmanaged = refl
storage_type_name-IsPlain (StorageType.unrecognized _) = refl

same_kind : (a b : IntroduceRequest) → generate_name a ≡ generate_name b → kind_of a ≡ kind_of b
same_kind a b e = sym (until_colon-generate_name a) ∙ ap until_colon e ∙ until_colon-generate_name b

managers_same :
    (a b : StorageManagerIntroduce)
    → generate_name (storage_manager a) ≡ generate_name (storage_manager b)
    → SameIdentity (storage_manager a) (storage_manager b)
unfolding until_colon
managers_same a b e =
    let outer =
      colon_join-injective "manager" _ "manager" _ refl refl
        (sym (manager_name_parts a) ∙ e ∙ manager_name_parts b) in
    let middle =
      colon_join-injective _ _ _ _ (storage_name_name-IsPlain a.storage_name)
        (storage_name_name-IsPlain b.storage_name) outer.1 in
    let inner =
      colon_join-injective _ _ _ _ (storage_type_name-IsPlain a.storage_type)
        (storage_type_name-IsPlain b.storage_type) middle.1 in
    (middle.0, inner.0, inner.1)

same_name-SameIdentity :
    (a b : IntroduceRequest) → generate_name a ≡ generate_name b → SameIdentity a b
unfolding generate_name kind_of
same_name-SameIdentity (storage_manager a) (storage_manager b) e = managers_same a b e
same_name-SameIdentity (storage_client a) (storage_client b) e = append_cancel_left "client:" _ _ e
same_name-SameIdentity introduce_not_set introduce_not_set e = tt
same_name-SameIdentity a b e = ground (arith, same_kind a b e, eq_iff "manager" "client")

SameIdentity-same_name :
    (a b : IntroduceRequest) → SameIdentity a b → generate_name a ≡ generate_name b
unfolding generate_name
SameIdentity-same_name (storage_manager a) (storage_manager b) h = cc (h.0, h.1, h.2)
SameIdentity-same_name (storage_client a) (storage_client b) h = cc h
SameIdentity-same_name introduce_not_set introduce_not_set h = refl
SameIdentity-same_name a b h = absurd h

-- Two introductions get the same name exactly if they are of the same kind and agree in hostname
-- and, for managers, in the names of storage name and storage type. Ports and files make no
-- difference, nor do two numbers that the enumerations do not declare.
pub generate_name-eq_iff :
    (a b : IntroduceRequest) → (generate_name a ≡ generate_name b) ↔ SameIdentity a b
generate_name-eq_iff a b = (same_name-SameIdentity a b, SameIdentity-same_name a b)
