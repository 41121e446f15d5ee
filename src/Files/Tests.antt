-- ===== src/Files/Tests.antt =====
-- Witness and tests of the file service.
use remy_desk.Base.{◌≡◌, refl, true, not, [], ◌∷◌, if◌then◌else◌}
use remy_desk.Base.Text.{codes}
use remy_desk.Files.{
  remove, FilePath, FileSystem, escapes, into_itself, done, rename, Request, delete, move, handle,
  move_path, move_resolved, resolve, clean_parts, append_path, without_slash, path_contains,
  same_path,
}
use remy_desk.Files.Paths.{plain}

-- A system without links: the canonical form leaves out what is no name.
abbrev names_of : FilePath → FilePath
names_of [] = []
names_of (part ∷ parts) = let rest = names_of parts in if plain part then part ∷ rest else rest

abbrev pub plain_system : FileSystem
plain_system = record {
  canonical = λ path. codes "/" ∷ names_of path;
  path_exists =
      λ path. not (same_path path (codes "/" ∷ codes "data" ∷ codes "b" ∷ codes "a" ∷ []));
  is_directory = λ path. true;
}

abbrev pub storage : FilePath
storage = codes "/" ∷ codes "data" ∷ []

abbrev a_into_b : Request
a_into_b = move (codes "a" ∷ []) (codes "b" ∷ []) true

moves_a : handle plain_system storage a_into_b ≡ (
  done (codes "/" ∷ codes "data" ∷ codes "b" ∷ codes "a" ∷ []),
  rename
        (codes "/" ∷ codes "data" ∷ codes "a" ∷ [])
        (codes "/" ∷ codes "data" ∷ codes "b" ∷ codes "a" ∷ [])
      ∷ [],
)
unfolding handle move_path move_resolved resolve clean_parts append_path without_slash path_contains
    same_path
moves_a = refl

-- b into b/a
no_loop :
    (handle plain_system storage (move (codes "b" ∷ []) (codes "b" ∷ codes "c" ∷ []) true)).0
    ≡ into_itself
unfolding handle move_path move_resolved resolve clean_parts append_path without_slash path_contains
    same_path
no_loop = refl

-- An absolute path takes the place of the storage directory, and is turned down.
absolute : (handle plain_system storage (delete (codes "/" ∷ codes "etc" ∷ []))).0 ≡ escapes
unfolding handle remove resolve clean_parts append_path without_slash path_contains
absolute = refl
