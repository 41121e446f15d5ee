-- ===== src/Files.antt =====
-- The file service of src/core/file_service.cpp: where a request may reach. A path of std::filesystem
-- is the list of its parts; canonical forms and what a path leads to are answers of the file system.
pub mod Paths
pub mod Sandbox
pub mod Layout
pub mod Tests
use remy_desk.Base.{
  ℕ, Bool, true, false, ◌&&◌, ◌||◌, not, leb, Option, none, some, List, [], ◌∷◌, ◌++◌, ◌==◌,
  if◌then◌else◌,
}
use remy_desk.Base.Text.{codes, same_bytes}

abbrev pub FilePath : Type 0
FilePath = List (List ℕ)

-- fs::weakly_canonical, fs::exists and fs::is_directory
pub record FileSystem : Type 0 where
  pub canonical : FilePath → FilePath
  pub path_exists : FilePath → Bool
  pub is_directory : FilePath → Bool

-- What a request ends with; a path is that of the reply.
pub data Reply : Type 0 where
  escapes missing not_directory bad_name is_root into_itself name_taken failed_call : Reply
  done : FilePath → Reply

-- The changes of the file system that a request asks for.
pub data FileChange : Type 0 where
  create_directory remove_all write_file : FilePath → FileChange
  rename : (from to : FilePath) → FileChange

-- std::mismatch, asked for whether it reached the end of the first path
unfoldable pub path_contains : FilePath → FilePath → Bool
path_contains [] child = true
path_contains (p ∷ parent) [] = false
path_contains (p ∷ parent) (c ∷ child) = same_bytes p c && path_contains parent child

unfoldable pub same_path : FilePath → FilePath → Bool
same_path [] [] = true
same_path [] (y ∷ ys) = false
same_path (x ∷ xs) [] = false
same_path (x ∷ xs) (y ∷ ys) = same_bytes x y && same_path xs ys

-- A path that ends in a slash has an empty last part.
unfoldable pub without_slash : FilePath → FilePath
without_slash [] = []
without_slash (part ∷ []) = if same_bytes part [] then [] else part ∷ []
without_slash (part ∷ next ∷ parts) = part ∷ without_slash (next ∷ parts)

abbrev pub is_absolute : FilePath → Bool
is_absolute [] = false
is_absolute (part ∷ parts) = same_bytes part (codes "/")

-- operator/ of path: an absolute path takes the place of what stands before it.
unfoldable pub append_path : FilePath → FilePath → FilePath
unfolding without_slash
append_path [] more = more
append_path (p ∷ path) [] = without_slash (p ∷ path) ++ ([] ∷ [])
append_path (p ∷ path) (m ∷ more) =
    if is_absolute (m ∷ more) then m ∷ more else without_slash (p ∷ path) ++ (m ∷ more)

-- The loop over the parts of a relative path; `none` where one is `..`.
unfoldable pub clean_parts : FilePath → FilePath → Option FilePath
clean_parts clean [] = some clean
clean_parts clean (part ∷ parts) =
    let skipped = same_bytes part (codes ".") || same_bytes part [] in
    let next = if skipped then clean else append_path clean (part ∷ []) in
    let rest = clean_parts next parts in
    if not skipped && same_bytes part (codes "..") then none else rest

pub data Resolved : Type 0 where
  rejected : Reply → Resolved
  resolved : FilePath → Resolved

unfoldable pub resolve : FileSystem → FilePath → FilePath → Resolved
resolve fs storage_root relative = elim (clean_parts [] relative) [
  | none ↦ rejected escapes
  | some clean ↦
      let value = fs.canonical (append_path storage_root clean) in
      if not (path_contains (fs.canonical storage_root) value)
      then rejected escapes
      else if not (fs.path_exists value)
      then rejected missing
      else resolved value
]

abbrev pub has_byte : ℕ → List ℕ → Bool
has_byte b [] = false
has_byte b (x ∷ bytes) = x == b || has_byte b bytes

-- Names that `createDirectory` refuses; `writeUpload` refuses a backslash as well.
unfoldable pub is_bad_name : List ℕ → Bool
is_bad_name name =
    same_bytes name []
    || same_bytes name (codes ".")
    || same_bytes name (codes "..")
    || has_byte 47 name

-- Requests, with their paths taken apart; the calls of the file system fail or not.
pub data Request : Type 0 where
  create : (relative : FilePath) (name : List ℕ) (succeeds : Bool) → Request
  delete : (relative : FilePath) → Request
  move : (source destination : FilePath) (succeeds : Bool) → Request
  upload : (relative : FilePath) (name : List ℕ) (opens renames : Bool) → Request

unfoldable pub temporary_name : List ℕ → List ℕ
temporary_name name = codes "." ++ (name ++ codes ".uploading")

-- path::filename
abbrev pub filename : FilePath → List ℕ
filename [] = []
filename (part ∷ []) = part
filename (part ∷ next ∷ parts) = filename (next ∷ parts)

module _ (fs : FileSystem) (storage_root : FilePath) where
  unfoldable pub create_directory_in : FilePath → List ℕ → Bool → Reply × List FileChange
  create_directory_in relative name succeeds =
      if is_bad_name name then (bad_name, []) else elim (resolve fs storage_root relative) [
        | rejected reply ↦ (reply, [])
        | resolved parent ↦
            let target = append_path parent (name ∷ []) in
            ((if succeeds then done target else failed_call), create_directory target ∷ [])
      ]

  unfoldable pub remove : FilePath → Reply × List FileChange
  remove relative = elim (resolve fs storage_root relative) [
    | rejected reply ↦ (reply, [])
    | resolved target ↦
        if same_path target (fs.canonical storage_root)
        then (is_root, [])
        else (done target, remove_all target ∷ [])
  ]

  -- The part of `move` behind the two calls of `resolve`.
  unfoldable pub move_resolved : FilePath → FilePath → Bool → Reply × List FileChange
  move_resolved source destination succeeds =
      if same_path source (fs.canonical storage_root)
      then (is_root, [])
      else if not (fs.is_directory destination)
      then (not_directory, [])
      else if fs.is_directory source && path_contains source destination
      then (into_itself, [])
      else let target = append_path destination (filename source ∷ []) in
        if same_path target source
        then (done source, [])
        else if fs.path_exists target
        then (name_taken, [])
        else ((if succeeds then done target else failed_call), rename source target ∷ [])

  unfoldable pub move_path : FilePath → FilePath → Bool → Reply × List FileChange
  move_path from to succeeds = elim (resolve fs storage_root from) [
    | rejected reply ↦ (reply, [])
    | resolved source ↦ elim (resolve fs storage_root to) [
      | rejected reply ↦ (reply, [])
      | resolved destination ↦ move_resolved source destination succeeds
    ]
  ]

  -- The upload is written beside its target and takes its place.
  unfoldable pub write_upload : FilePath → List ℕ → Bool → Bool → Reply × List FileChange
  write_upload relative name opens renames =
      if is_bad_name name || has_byte 92 name
      then (bad_name, [])
      else elim (resolve fs storage_root relative) [
        | rejected reply ↦ (reply, [])
        | resolved directory ↦
            let target = append_path directory (name ∷ []) in
            let temporary = append_path directory (temporary_name name ∷ []) in
            if not opens then (failed_call, write_file temporary ∷ []) else (
              (if renames then done target else failed_call),
              write_file temporary ∷ rename temporary target ∷ [],
            )
      ]

  unfoldable pub handle : Request → Reply × List FileChange
  handle (create relative name succeeds) = create_directory_in relative name succeeds
  handle (delete relative) = remove relative
  handle (move from to succeeds) = move_path from to succeeds
  handle (upload relative name opens renames) = write_upload relative name opens renames
