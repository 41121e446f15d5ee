-- ===== src/Http.antt =====
-- The HTTP server of src/core/http_server.cpp: who may call it, the host that a request names, the
-- types of files, and the upload (Http/Upload). cpp-httplib parses the requests and makes the header
-- of a user's credentials; the handlers of the other routes pass their arguments to the services.
pub mod Upload
pub mod Host
mod Tests
use remy_desk.Base.{
  ℕ, ◌≡◌, ◌⊎◌, inl, inr, refl, Bool, true, false, ◌||◌, not, Option, none, some, List, [], ◌∷◌,
  arith, if◌then◌else◌, map, Bool-cases,
}
use remy_desk.Base.Text.{codes, same_bytes, same_bytes_sound}
use remy_desk.Download.Name.{to_lower}
use Prim.Native.String.{String}

-- The fields of Config that `authorized` reads.
pub record Credentials : Type 0 where
  pub auth_user : List ℕ
  pub auth_password : List ℕ

abbrev header_value : Option (List ℕ) → List ℕ
header_value none = []
header_value (some v) = v

-- `make_header` is httplib::make_basic_authentication_header, `sent` the header Authorization.
unfoldable pub authorized : (List ℕ → List ℕ → List ℕ) → Credentials → Option (List ℕ) → Bool
authorized make_header c sent =
    if same_bytes c.auth_password []
    then true
    else if same_bytes (header_value sent) []
    then false
    else if not (same_bytes (header_value sent) (make_header c.auth_user c.auth_password))
    then false
    else true

-- The handler in front of the routes: a request that is not authorized gets 401 and goes no further.
-- A route answers with a status and changes the state of the services.
unfoldable pub serve :
    {S : Type 0}
    → (List ℕ → List ℕ → List ℕ)
    → Credentials
    → Option (List ℕ)
    → (S → ℕ × S)
    → S
    → ℕ × S
unfolding authorized
serve make_header c sent route s =
    let answered = route s in if authorized make_header c sent then answered else (401, s)

-- Where a password is set, a request whose header is not the one of the user and the password gets
-- 401, and no route runs: the services stay as they are.
pub serve_guarded :
    {S : Type 0} (make_header : List ℕ → List ℕ → List ℕ) (c : Credentials) (sent : Option (List ℕ))
    (route : S → ℕ × S) (s : S)
    → same_bytes c.auth_password [] ≡ false
    → (sent ≡ some (make_header c.auth_user c.auth_password))
      ⊎ (serve make_header c sent route s ≡ (401, s))
unfolding serve
serve_guarded make_header c none route s set = inr (rw set refl)
serve_guarded make_header c (some v) route s set =
    elim (Bool-cases (same_bytes v (make_header c.auth_user c.auth_password))) [
      | inl same ↦ inl (rw (same_bytes_sound v _ same) refl)
      | inr other ↦ inr (elim (Bool-cases (same_bytes v [])) [
        | inl empty ↦ rw (serve, set, empty) refl
        | inr full ↦ rw (serve, set, full, other) refl
      ])
    ]

-- The table of `mimeType`, by the extension in lower case.
abbrev pub mime_table : List (String × String)
mime_table =
    (".html", "text/html; charset=utf-8")
    ∷ (".css", "text/css; charset=utf-8")
    ∷ (".js", "application/javascript; charset=utf-8")
    ∷ (".json", "application/json; charset=utf-8")
    ∷ (".txt", "text/plain; charset=utf-8")
    ∷ (".log", "text/plain; charset=utf-8")
    ∷ (".md", "text/markdown; charset=utf-8")
    ∷ (".markdown", "text/markdown; charset=utf-8")
    ∷ (".svg", "image/svg+xml")
    ∷ (".png", "image/png")
    ∷ (".jpg", "image/jpeg")
    ∷ (".jpeg", "image/jpeg")
    ∷ (".gif", "image/gif")
    ∷ (".webp", "image/webp")
    ∷ (".bmp", "image/bmp")
    ∷ (".mp4", "video/mp4")
    ∷ (".m4v", "video/mp4")
    ∷ (".webm", "video/webm")
    ∷ (".mov", "video/quicktime")
    ∷ (".mp3", "audio/mpeg")
    ∷ (".wav", "audio/wav")
    ∷ (".ogg", "audio/ogg")
    ∷ (".pdf", "application/pdf")
    ∷ (".epub", "application/epub+zip")
    ∷ []

unfoldable pub look_up : List (String × String) → List ℕ → String
look_up [] extension = "application/octet-stream"
look_up ((e, type) ∷ later) extension =
    let rest = look_up later extension in if same_bytes extension (codes e) then type else rest

-- The type of a file by its path::extension.
unfoldable pub mime_type : List ℕ → String
unfolding look_up
mime_type extension = look_up mime_table (map to_lower extension)
