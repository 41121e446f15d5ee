-- ===== src/Http/Upload/Result.antt =====
-- What an upload leaves behind, on every path.
use mathlib.Core.Path.{subst}
use remy_desk.Base.{
  if◌then◌else◌, ℕ, ◌≡◌, ◌≢◌, ◌⊎◌, ap, sym, ◌∙◌, refl, inl, inr, ◌<◌, length, length-append, Bool,
  true, false, ◌&&◌, ◌||◌, Option, none, some, List, [], ◌∷◌, ◌++◌, arith, Bool-cases,
}
use remy_desk.Base.Text.{codes, same_bytes, same_bytes_sound, same_bytes_refl}
use remy_desk.Files.{
  FilePath, FileSystem, resolved, resolve, append_path, same_path, is_bad_name, has_byte, filename,
  without_slash,
}
use remy_desk.Files.Paths.{filename-append}
use remy_desk.Http.Upload.{
  Disk, put, Piece, UploadCalls, told, receive, upload_name, upload_into, upload_route,
}

-- All pieces came to the file.
abbrev pub all_good : List Piece → Bool
all_good [] = true
all_good (p ∷ later) = p.good && all_good later

abbrev pub body : List Piece → List ℕ
body [] = []
body (p ∷ later) = p.bytes ++ body later

receive-good : (l : List Piece) → (receive l).1 ≡ all_good l
unfolding receive
receive-good [] = refl
receive-good (p ∷ later) = ground (arith, receive-good later)

receive-body : (l : List Piece) → all_good l ≡ true → (receive l).0 ≡ body l
unfolding receive
receive-body [] h = refl
receive-body (p ∷ later) h =
    let here : p.good ≡ true = ground arith in
    let rest = receive-body later (ground arith) in rw (here, rest) refl

-- Nothing went wrong up to the rename.
abbrev pub succeeds : UploadCalls → Bool
succeeds c = c.opens && all_good c.pieces && c.complete && c.closes && c.renames

same_path_sound : (p q : FilePath) → same_path p q ≡ true → p ≡ q
unfolding same_path
same_path_sound [] [] h = refl
same_path_sound [] (y ∷ ys) h = ground arith
same_path_sound (x ∷ xs) [] h = ground arith
same_path_sound (x ∷ xs) (y ∷ ys) h =
    let first = same_bytes_sound x y (ground arith) in
    let rest = same_path_sound xs ys (ground arith) in rw (first, rest) refl

same_path_refl : (p : FilePath) → same_path p p ≡ true
unfolding same_path
same_path_refl [] = refl
same_path_refl (x ∷ xs) = ground (arith, same_bytes_refl x, same_path_refl xs)

-- The directory in front of a name.
abbrev front : FilePath → FilePath
front [] = []
front (p ∷ path) = without_slash (p ∷ path)

append_path-front :
    (directory : FilePath) (name : List ℕ)
    → same_bytes name (codes "/") ≡ false
    → append_path directory (name ∷ []) ≡ front directory ++ (name ∷ [])
unfolding append_path
append_path-front [] name h = refl
append_path-front (p ∷ path) name h = rw h refl

no_slash : (name : List ℕ) → has_byte 47 name ≡ false → same_bytes name (codes "/") ≡ false
no_slash [] h = refl
no_slash (b ∷ name) h = ground arith

-- Two names that are not `/`, of different lengths, are two files of a directory.
apart :
    (directory : FilePath) (name other : List ℕ)
    → same_bytes name (codes "/") ≡ false
    → same_bytes other (codes "/") ≡ false
    → length name < length other
    → same_path (append_path directory (name ∷ [])) (append_path directory (other ∷ [])) ≡ false
apart directory name other a b lt =
    let left = append_path-front directory name a in
    let right = append_path-front directory other b in
    let target = append_path directory (name ∷ []) in
    let temporary = append_path directory (other ∷ []) in
    elim (Bool-cases (same_path target temporary)) [
      | inr e ↦ e
      | inl e ↦
          let equal = sym left ∙ same_path_sound target temporary e ∙ right in
          let names =
            sym (filename-append (front directory) name)
            ∙ ap filename equal
            ∙ filename-append (front directory) other in
          let sizes = ap length names in absurd (omega arith)
    ]

-- The temporary file is not the target.
temporary_apart :
    (directory : FilePath) (name nonce : List ℕ)
    → is_bad_name name ≡ false
    → same_path
        (append_path directory (name ∷ []))
        (append_path directory (upload_name name nonce ∷ []))
      ≡ false
unfolding upload_name is_bad_name
temporary_apart directory name nonce good =
    let whole = length-append name (codes ".uploading." ++ nonce) in
    apart directory name (upload_name name nonce) (no_slash name (ground arith)) refl (omega arith)

-- The status behind a message that the server sends, or that it cannot send.
abbrev pub Told : UploadCalls → ℕ → Type 0
Told c status = ((c.tells ≡ true) × (status ≡ 400)) ⊎ ((c.tells ≡ false) × (status ≡ 500))

-- The status of an upload that took its place.
abbrev pub Answered : UploadCalls → ℕ → Type 0
Answered c status = ((c.replies ≡ true) × (status ≡ 200)) ⊎ ((c.replies ≡ false) × Told c status)

-- All is in the temporary file, and it is closed.
abbrev pub is_whole : UploadCalls → Bool
is_whole c = c.opens && all_good c.pieces && c.complete && c.closes

-- The status of an upload that did not take its place: behind a rename that failed, or before it.
abbrev pub Refused : UploadCalls → ℕ → Type 0
Refused c status = ((is_whole c ≡ true) × Told c status) ⊎ ((is_whole c ≡ false) × (status ≡ 400))

-- What is at `p` now: the content where `p` is the target, else what was there.
abbrev pub Replaced : FilePath → List ℕ → Disk → FilePath → Option (List ℕ) → Type 0
Replaced target content disk p now =
    ((p ≡ target) × (now ≡ some content)) ⊎ ((p ≢ target) × (now ≡ disk p))

told-Told : (c : UploadCalls) → Told c (told c)
told-Told c = elim (Bool-cases c.tells) [
  | inl so ↦ inl (so, rw so refl)
  | inr so ↦ inr (so, rw so refl)
]

put-Replaced :
    (target p : FilePath) (content : List ℕ) (disk : Disk)
    → Replaced target content disk p (put target (some content) disk p)
unfolding put
put-Replaced target p content disk = elim (Bool-cases (same_path p target)) [
  | inl same ↦ inl (same_path_sound p target same, rw same refl)
  | inr other ↦ inr (
    (λ e.
        let itself = same_path_refl target in
        let differs = subst (λ q. same_path q target ≡ false) e other in ground arith),
    rw other refl,
  )
]

into_result :
    (directory p : FilePath) (name : List ℕ) (c : UploadCalls) (disk : Disk)
    → same_path p (append_path directory (upload_name name c.nonce ∷ [])) ≡ false
    → let (status, reply, after) = upload_into directory name c disk in
      ((succeeds c ≡ true)
        × (status ≡ (if c.replies then 200 else told c))
        × (after p ≡ put (append_path directory (name ∷ [])) (some (body c.pieces)) disk p))
      ⊎ ((succeeds c ≡ false)
          × (status ≡ (if is_whole c then told c else 400))
          × (after p ≡ disk p))
unfolding upload_into put
into_result directory p name c disk other =
    let same = receive-good c.pieces in
    elim (Bool-cases (succeeds c)) [
      | inl ok ↦
          let whole = receive-body c.pieces (ground arith) in inl (ok, ground arith, ground arith)
      | inr bad ↦ inr (bad, ground arith, ground arith)
    ]

answered :
    (c : UploadCalls) (status : ℕ)
    → status ≡ (if c.replies then 200 else told c)
    → Answered c status
answered c status e = elim (Bool-cases c.replies) [
  | inl so ↦ inl (so, rw so at e)
  | inr so ↦ inr (so, subst (Told c) (sym (rw so at e)) (told-Told c))
]

turned_down :
    (c : UploadCalls) (status : ℕ)
    → status ≡ (if is_whole c then told c else 400)
    → Refused c status
turned_down c status e = elim (Bool-cases (is_whole c)) [
  | inl so ↦ inl (so, subst (Told c) (sym (rw so at e)) (told-Told c))
  | inr so ↦ inr (so, rw so at e)
]

into_stated :
    (directory p : FilePath) (name : List ℕ) (c : UploadCalls) (disk : Disk)
    → same_path p (append_path directory (upload_name name c.nonce ∷ [])) ≡ false
    → let (status, reply, after) = upload_into directory name c disk in
      ((succeeds c ≡ true)
        × Answered c status
        × Replaced (append_path directory (name ∷ [])) (body c.pieces) disk p (after p))
      ⊎ ((succeeds c ≡ false) × Refused c status × (after p ≡ disk p))
into_stated directory p name c disk other =
    let target = append_path directory (name ∷ []) in
    let status = (upload_into directory name c disk).0 in
    let replaced = put-Replaced target p (body c.pieces) disk in
    elim (into_result directory p name c disk other) [
      | inl (all, code, at) ↦ inl (
        all,
        answered c status code,
        subst (Replaced target (body c.pieces) disk p) (sym at) replaced,
      )
      | inr (bad, code, at) ↦ inr (bad, turned_down c status code, at)
    ]

into_clean :
    (directory : FilePath) (name : List ℕ) (c : UploadCalls) (disk : Disk)
    → c.removes ≡ true
    → let (status, reply, after) = upload_into directory name c disk in
      after (append_path directory (upload_name name c.nonce ∷ [])) ≡ none
unfolding upload_into put
into_clean directory name c disk removes =
    let itself = same_path_refl (append_path directory (upload_name name c.nonce ∷ [])) in
    ground arith

pub upload_route_result :
    (fs : FileSystem) (storage_root relative directory p : FilePath) (name : List ℕ)
    (c : UploadCalls) (disk : Disk)
    → resolve fs storage_root relative ≡ resolved directory
    → (is_bad_name name || has_byte 92 name) ≡ false
    → same_path p (append_path directory (upload_name name c.nonce ∷ [])) ≡ false
    → let (status, reply, after) = upload_route fs storage_root relative name c disk in
      ((succeeds c ≡ true)
        × Answered c status
        × Replaced (append_path directory (name ∷ [])) (body c.pieces) disk p (after p))
      ⊎ ((succeeds c ≡ false) × Refused c status × (after p ≡ disk p))
unfolding upload_route
upload_route_result fs storage_root relative directory p name c disk e good other =
    rw (upload_route, good, e) (into_stated directory p name c disk other)

-- Whatever the status, and where the removal of the temporary file works, there is none behind
-- the call.
pub upload_route_clean :
    (fs : FileSystem) (storage_root relative directory : FilePath) (name : List ℕ) (c : UploadCalls)
    (disk : Disk)
    → resolve fs storage_root relative ≡ resolved directory
    → (is_bad_name name || has_byte 92 name) ≡ false
    → c.removes ≡ true
    → let (status, reply, after) = upload_route fs storage_root relative name c disk in
      after (append_path directory (upload_name name c.nonce ∷ [])) ≡ none
unfolding upload_route
upload_route_clean fs storage_root relative directory name c disk e good removes =
    rw (upload_route, good, e) (into_clean directory name c disk removes)

-- The target itself is replaced as a whole or left alone.
pub upload_route_replaces :
    (fs : FileSystem) (storage_root relative directory : FilePath) (name : List ℕ) (c : UploadCalls)
    (disk : Disk)
    → resolve fs storage_root relative ≡ resolved directory
    → (is_bad_name name || has_byte 92 name) ≡ false
    → let (status, reply, after) = upload_route fs storage_root relative name c disk in
      let target = append_path directory (name ∷ []) in
      ((succeeds c ≡ true) × Answered c status × (after target ≡ some (body c.pieces)))
      ⊎ ((succeeds c ≡ false) × Refused c status × (after target ≡ disk target))
upload_route_replaces fs storage_root relative directory name c disk e good =
    let target = append_path directory (name ∷ []) in
    let other = temporary_apart directory name c.nonce (ground arith) in
    elim (upload_route_result fs storage_root relative directory target name c disk e good other) [
      | inl (all, status, inl (same, at)) ↦ inl (all, status, at)
      | inl (all, status, inr (different, at)) ↦ absurd (different refl)
      | inr failed ↦ inr failed
    ]
