-- ===== src/Http/Tests.antt =====
-- Requests to the server: credentials, hosts, types, and an upload that succeeds or breaks off.
use remy_desk.Base.{ℕ, ◌+◌, ◌≡◌, refl, true, false, ◌++◌, none, some, List, [], ◌∷◌}
use remy_desk.Base.Text.{codes}
use remy_desk.Files.{
  FilePath, FileSystem, resolve, path_contains, clean_parts, append_path, is_bad_name, same_path,
}
use remy_desk.Download.Name.{to_lower}
use remy_desk.Http.{Credentials, serve, mime_type}
use remy_desk.Http.Host.{bracketed, host_text, port_text, request_host-port, request_host}
use remy_desk.Http.Upload.{Disk, put, UploadCalls, receive, upload_name, upload_route}

-- Not the encoding of cpp-httplib, but one that keeps the two apart.
abbrev header : List ℕ → List ℕ → List ℕ
header user password = codes "Basic " ++ (user ++ (58 ∷ password))

abbrev admin : Credentials
admin = record { auth_user = codes "admin"; auth_password = codes "secret" }

-- A route that counts its calls.
abbrev counting : ℕ → ℕ × ℕ
counting n = (200, n + 1)

let_in : serve header admin (some (codes "Basic admin:secret")) counting 0 ≡ (200, 1)
unfolding serve
let_in = refl

kept_out : serve header admin none counting 0 ≡ (401, 0)
unfolding serve
kept_out = refl

no_host : request_host [] ≡ codes "127.0.0.1"
unfolding request_host
no_host = refl

upper_case : mime_type (codes ".PNG") ≡ "image/png"
unfolding mime_type to_lower
upper_case = refl

unknown_type : mime_type (codes ".exe") ≡ "application/octet-stream"
unfolding mime_type to_lower
unknown_type = refl

-- A file system of directories that are their own canonical forms.
abbrev fs : FileSystem
fs = record { canonical = λ p. p; path_exists = λ p. true; is_directory = λ p. true }

abbrev root : FilePath
root = codes "/" ∷ codes "data" ∷ []

abbrev photos : FilePath
photos = codes "/" ∷ codes "data" ∷ codes "photos" ∷ []

abbrev target : FilePath
target = codes "/" ∷ codes "data" ∷ codes "photos" ∷ codes "a" ∷ []

-- The target is there, with one byte.
abbrev disk : Disk
disk = put target (some (9 ∷ [])) (λ p. none)

abbrev two_pieces : UploadCalls
two_pieces = record {
  nonce = codes "17";
  opens = true;
  pieces =
      record { bytes = 1 ∷ 2 ∷ []; good = true; landed = [] }
      ∷ record { bytes = 3 ∷ []; good = true; landed = [] }
      ∷ [];
  complete = true;
  closes = true;
  renames = true;
  removes = true;
  replies = true;
  tells = true;
}

-- The client goes away.
abbrev broken_off : UploadCalls
broken_off = record two_pieces { complete = false }

replaced :
    (upload_route fs root (codes "photos" ∷ []) (codes "a") two_pieces disk).2 target
    ≡ some (1 ∷ 2 ∷ 3 ∷ [])
unfolding upload_route resolve path_contains clean_parts append_path is_bad_name receive upload_name
    put same_path
replaced = refl

left_alone :
    (upload_route fs root (codes "photos" ∷ []) (codes "a") broken_off disk).2 target
    ≡ some (9 ∷ [])
unfolding upload_route resolve path_contains clean_parts append_path is_bad_name receive upload_name
    put same_path
left_alone = refl

-- A name that is no UTF-8: the file takes its place, and the reply is an error.
unspeakable :
    ((upload_route fs root
        (codes "photos" ∷ [])
        (codes "a")
        (record two_pieces { replies = false })
        disk).0
      ≡ 400)
    × ((upload_route fs root
            (codes "photos" ∷ [])
            (codes "a")
            (record two_pieces { replies = false })
            disk).2
          target
        ≡ some (1 ∷ 2 ∷ 3 ∷ []))
unfolding upload_route resolve path_contains clean_parts append_path is_bad_name receive upload_name
    put same_path
unspeakable = (refl, refl)

request_host-port_example :
    request_host (host_text (bracketed (codes "::1")) ++ port_text (some (codes "8080")))
    ≡ host_text (bracketed (codes "::1"))
request_host-port_example = request_host-port (bracketed (codes "::1")) (some (codes "8080")) refl
