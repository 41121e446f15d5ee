-- ===== src/Files/Sandbox.antt =====
-- No request of src/core/file_service.cpp changes anything outside the storage directory.
use remy_desk.Base.{◌≡◌, ◌⊎◌, true, false, List, [], ◌∷◌}
use remy_desk.Files.{
  FilePath, FileSystem, Reply, FileChange, create_directory, remove_all, write_file, rename,
  path_contains,
}
use remy_desk.Files.Paths.{Normal, Below}

-- What a change may touch.
pub data Confined (fs : FileSystem) (root : FilePath) : FileChange → Type 0 where
  makes : {path : FilePath} → Below root path → Confined fs root (create_directory path)
  removes : {path : FilePath} → Below root path → Confined fs root (remove_all path)
  writes : {path : FilePath} → Below root path → Confined fs root (write_file path)
  renames :
      {from to : FilePath}
      → Below root from
      → Below root to
      → (fs.is_directory from ≡ false) ⊎ (path_contains from to ≡ false)
      → Confined fs root (rename from to)

pub data AllConfined (fs : FileSystem) (root : FilePath) : List FileChange → Type 0 where
  no_change : AllConfined fs root []
  one_more :
      {change : FileChange} {changes : List FileChange}
      → Confined fs root change
      → AllConfined fs root changes
      → AllConfined fs root (change ∷ changes)

-- What `resolve` promises of a path.
record Inside (fs : FileSystem) (storage_root path : FilePath) : Type 0 where
  is_inside : path_contains (fs.canonical storage_root) path ≡ true
  is_normal : Normal path

module _ (fs : FileSystem) (storage_root : FilePath)
    (normal : (path : FilePath) → Normal (fs.canonical path)) where
  abbrev Safe : Reply × List FileChange → Type 0
  Safe result = AllConfined fs (fs.canonical storage_root) result.1
