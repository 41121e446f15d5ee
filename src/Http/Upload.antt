-- ===== src/Http/Upload.antt =====
-- The route /api/upload: the body is written to a temporary file beside the target, which takes the
-- target's place at the end. The disk holds the files by their paths.
pub mod Result
use remy_desk.Base.{
  ℕ, ◌≡◌, ◌≢◌, ◌⊎◌, ap, sym, ◌∙◌, refl, inl, inr, ◌<◌, ◌+◌, length, length-append, Bool, true,
  false, ◌&&◌, ◌||◌, not, ◌==◌, Option, none, some, List, [], ◌∷◌, ◌++◌, arith, if◌then◌else◌,
  Bool-cases,
}
use remy_desk.Base.Text.{codes, same_bytes, same_bytes_sound, same_bytes_refl}
use remy_desk.Files.{
  FilePath, FileSystem, Reply, bad_name, failed_call, done, Resolved, rejected, resolved, resolve,
  append_path, same_path, is_bad_name, has_byte, filename, without_slash,
}

abbrev pub Disk : Type 0
Disk = FilePath → Option (List ℕ)

unfoldable pub put : FilePath → Option (List ℕ) → Disk → Disk
put path content disk p = if same_path p path then content else disk p

-- A piece of the body: all of it is written, or the stream fails behind the bytes that landed.
pub record Piece : Type 0 where
  pub bytes : List ℕ
  pub good : Bool
  pub landed : List ℕ

-- The answers of the calls, the digits of the clock, and the pieces of the body. `complete` says that
-- the client sent it to its end, `replies` that the reply can be made: fs::relative and the dump of the
-- JSON throw nothing, as the dump does of a name that is not UTF-8. `tells` says that the message of
-- what the rename or the reply threw can be sent: that of a failed rename holds the paths, and where
-- they are not UTF-8 the dump throws out of the handler, which cpp-httplib answers with 500.
pub record UploadCalls : Type 0 where
  pub nonce : List ℕ
  pub opens : Bool
  pub pieces : List Piece
  pub complete : Bool
  pub closes : Bool
  pub renames : Bool
  pub removes : Bool
  pub replies : Bool
  pub tells : Bool

-- What is in the temporary file behind the body, and whether all of it is.
unfoldable pub receive : List Piece → List ℕ × Bool
receive [] = ([], true)
receive (p ∷ later) =
    let (bytes, good) = receive later in
    if p.good then (p.bytes ++ bytes, good) else (p.landed, false)

unfoldable pub upload_name : List ℕ → List ℕ → List ℕ
upload_name name nonce = codes "." ++ (name ++ (codes ".uploading." ++ nonce))

abbrev pub removed : Bool → FilePath → Disk → Disk
removed true path disk = put path none disk
removed false path disk = disk

-- The status behind such a message.
abbrev pub told : UploadCalls → ℕ
told c = if c.tells then 400 else 500

-- Behind the tests of the name and of the directory: the status, the reply and the disk.
unfoldable pub upload_into : FilePath → List ℕ → UploadCalls → Disk → ℕ × Reply × Disk
unfolding put
upload_into directory name c disk =
    let target = append_path directory (name ∷ []) in
    let temporary = append_path directory (upload_name name c.nonce ∷ []) in
    let (bytes, good) = receive c.pieces in
    let written = put temporary (some bytes) disk in
    if not c.opens
    then (400, failed_call, removed c.removes temporary disk)
    else if not (good && c.complete) || not c.closes
    then (400, failed_call, removed c.removes temporary written)
    else if not c.renames
    then (told c, failed_call, removed c.removes temporary written)
    else (
      (if c.replies then 200 else told c),
      (if c.replies then done target else failed_call),
      put temporary none (put target (some bytes) written),
    )

unfoldable pub upload_route :
    FileSystem → FilePath → FilePath → List ℕ → UploadCalls → Disk → ℕ × Reply × Disk
unfolding upload_into
upload_route fs storage_root relative name c disk =
    if is_bad_name name || has_byte 92 name
    then (400, bad_name, disk)
    else elim (resolve fs storage_root relative) [
      | rejected reply ↦ (400, reply, disk)
      | resolved directory ↦ upload_into directory name c disk
    ]
