-- ===== src/Master/Files.antt =====
-- StorageMaster::StorageFileView and its ManagerFileView of storage_master.cc.
pub mod Tracks
use programmable_caching.Base.{ℕ, String, List, [], ◌∷◌, ◌++◌}
use programmable_caching.Base.Dict.{Dict, keys, insert, erase, get_or}
use programmable_caching.Proto.Storage.{ManagerView, GetViewReply}

-- std::unordered_map<std::string, int> file_keys; the values are all 0.
pub record ManagerFileView : Type 0 where
  pub file_keys : Dict ℕ

abbrev pub empty_files : ManagerFileView
empty_files = record { file_keys = [] }

unfoldable pub add_file : ManagerFileView → String → ManagerFileView
add_file v file_key = record { file_keys = insert file_key 0 v.file_keys }

unfoldable pub remove_file : ManagerFileView → String → ManagerFileView
remove_file v file_key = record { file_keys = erase file_key v.file_keys }

-- One add_key for each file.
unfoldable pub populate_manager_view_reply : ManagerFileView → ManagerView → ManagerView
populate_manager_view_reply v view_reply = record view_reply {
  key = view_reply.key ++ keys v.file_keys;
}

pub record StorageFileView : Type 0 where
  pub manager_views : Dict ManagerFileView

unfoldable pub add_manager : StorageFileView → String → StorageFileView
add_manager v manager_name = record {
  manager_views = insert manager_name empty_files v.manager_views;
}

-- manager_views[manager_name] makes an empty view where there is none.
unfoldable pub add_file_to_manager : StorageFileView → String → String → StorageFileView
add_file_to_manager v manager_name file_key =
    let view : ManagerFileView = get_or manager_name empty_files v.manager_views in
    record { manager_views = insert manager_name (add_file view file_key) v.manager_views }

unfoldable pub remove_file_from_manager : StorageFileView → String → String → StorageFileView
remove_file_from_manager v manager_name file_key =
    let view : ManagerFileView = get_or manager_name empty_files v.manager_views in
    record { manager_views = insert manager_name (remove_file view file_key) v.manager_views }

-- The loop of StorageFileView::PopulateViewReply: one message for each manager, its uri not set.
unfoldable pub view_messages : Dict ManagerFileView → List ManagerView
unfolding populate_manager_view_reply
view_messages [] = []
view_messages ((name, view) ∷ rest) =
    populate_manager_view_reply view (record { name = name; uri = ""; key = [] })
    ∷ view_messages rest

unfoldable pub populate_views : StorageFileView → GetViewReply → GetViewReply
unfolding view_messages
populate_views v reply = record reply { view = reply.view ++ view_messages v.manager_views }
