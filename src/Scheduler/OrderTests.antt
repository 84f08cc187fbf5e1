-- ===== src/Scheduler/OrderTests.antt =====
-- One reply in two orders.
use mathlib.Core.Path.{subst}
use mathlib.Core.HLevel.{hedberg}
use mathlib.Core.Logic.Or
use mathlib.Core.List.{Mem, not-mem-nil, eq-or-mem_of_mem-cons}
use mathlib.Core.List.Perm
use programmable_caching.Base.{true, String, List, [], ◌∷◌, ◌≡◌, ◌≢◌, ◌∙◌, refl, sym, ap}
use programmable_caching.Base.Text.{until_colon, after_colon}
use programmable_caching.Base.Exec.{returns}
use programmable_caching.Proto.Common.{StorageName, storage_name_parse}
use programmable_caching.Proto.Storage.{GetViewReply, ManagerView}
use programmable_caching.Scheduler.Uri.{uri_to_hostname, name_to_storage_name}
use programmable_caching.Scheduler.View.{
  SystemView, init, parse_get_view_reply, get_persistent_mgr_for_file,
}
use programmable_caching.Scheduler.Parsing.{IsReadable, keeps}
use programmable_caching.Scheduler.Orders.{
  String-discrete, HasSoleKeepers, parse_get_view_reply-Perm,
}

abbrev disk : ManagerView
disk = record { name = "managed:FAKE_PERSISTANT:a:b"; uri = "b:2"; key = "in" ∷ [] }

abbrev cache : ManagerView
cache = record { name = "managed:EPHEMERAL:a:b"; uri = "a:1"; key = "in" ∷ [] }

abbrev in_order : List ManagerView → GetViewReply
in_order views = record { view = views; client = [] }

abbrev view : SystemView
view = init StorageName.ephemeral StorageName.fake_persistant

disk-IsReadable : IsReadable disk
unfolding uri_to_hostname name_to_storage_name until_colon after_colon storage_name_parse
disk-IsReadable = ("b", StorageName.fake_persistant, refl, refl)

cache-IsReadable : IsReadable cache
unfolding uri_to_hostname name_to_storage_name until_colon after_colon storage_name_parse
cache-IsReadable = ("a", StorageName.ephemeral, refl, refl)

cache_keeps_nothing : (key : String) → keeps StorageName.ephemeral cache key ≢ true
unfolding name_to_storage_name until_colon after_colon storage_name_parse
cache_keeps_nothing key e = cc

keeper_is_disk :
    (a : ManagerView) (key : String)
    → Mem a (disk ∷ cache ∷ [])
    → keeps StorageName.ephemeral a key ≡ true
    → a.name ≡ disk.name
keeper_is_disk a key m k =
    Or.elim (hlevel (hedberg String-discrete)) (eq-or-mem_of_mem-cons m) (λ e. ap (λ x. x.name) e)
      λ n.
        Or.elim (hlevel (hedberg String-discrete)) (eq-or-mem_of_mem-cons n)
          (λ e.
            absurd
              (cache_keeps_nothing key (subst (λ x. keeps StorageName.ephemeral x key ≡ true) e k)))
          (λ none_left. absurd (not-mem-nil none_left))

disk-HasSoleKeepers : HasSoleKeepers StorageName.ephemeral (disk ∷ cache ∷ [])
disk-HasSoleKeepers a b ma mb key ka kb =
    keeper_is_disk a key ma ka ∙ sym (keeper_is_disk b key mb kb)

parse_get_view_reply-Perm_example :
    (w w' : SystemView) × (parse_get_view_reply view (in_order (disk ∷ cache ∷ [])) ≡ returns w)
    × (parse_get_view_reply view (in_order (cache ∷ disk ∷ [])) ≡ returns w')
    × ((key : String) → get_persistent_mgr_for_file w key ≡ get_persistent_mgr_for_file w' key)
parse_get_view_reply-Perm_example =
    parse_get_view_reply-Perm view (in_order (disk ∷ cache ∷ [])) (in_order (cache ∷ disk ∷ []))
      ((disk-IsReadable, (cache-IsReadable, tt)), tt)
      ((cache-IsReadable, (disk-IsReadable, tt)), tt) (Perm.swap cache disk []) disk-HasSoleKeepers
