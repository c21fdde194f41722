-- ===== src/Server/HttpSession/Names.antt =====
-- `mime_type` and `path_cat` of src/gss-server/http_session.cpp.
use gss.Base.{
  ℕ, ◌≡◌, ◌↔◌, Bool, true, false, ◌&&◌, List, [], ◌∷◌, ◌++◌, map, ◌==◌, if◌then◌else◌, leb, ◌+◌,
}
use gss.Base.Text.{Text, codes}

-- `path.rfind(".")` and `path.substr(pos)`: from the last dot on, or nothing.
unfoldable pub extension_from : Text → Text → Text
extension_from [] found = found
extension_from (c ∷ path) found = extension_from path (if c == b'.' then c ∷ path else found)

unfoldable pub extension : Text → Text
unfolding extension_from
extension path = extension_from path []

-- `beast::iequals` compares ASCII letters without their case.
unfoldable pub to_lower : ℕ → ℕ
to_lower c = if leb b'A' c && leb c b'Z' then c + 32 else c

pub record Comparison : Type 0 where
  pub iequals : Text → Text → Bool
  pub iequals_iff : (s t : Text) → (iequals s t ≡ true) ↔ (map to_lower s ≡ map to_lower t)

-- The ladder of `mime_type`, in its order.
abbrev pub mime_types : List (Text × Text)
mime_types =
    (codes ".htm", codes "text/html")
    ∷ (codes ".html", codes "text/html")
    ∷ (codes ".php", codes "text/html")
    ∷ (codes ".css", codes "text/css")
    ∷ (codes ".txt", codes "text/plain")
    ∷ (codes ".js", codes "application/javascript")
    ∷ (codes ".json", codes "application/json")
    ∷ (codes ".xml", codes "application/xml")
    ∷ (codes ".swf", codes "application/x-shockwave-flash")
    ∷ (codes ".flv", codes "video/x-flv")
    ∷ (codes ".png", codes "image/png")
    ∷ (codes ".jpe", codes "image/jpeg")
    ∷ (codes ".jpeg", codes "image/jpeg")
    ∷ (codes ".jpg", codes "image/jpeg")
    ∷ (codes ".gif", codes "image/gif")
    ∷ (codes ".bmp", codes "image/bmp")
    ∷ (codes ".ico", codes "image/vnd.microsoft.icon")
    ∷ (codes ".tiff", codes "image/tiff")
    ∷ (codes ".tif", codes "image/tiff")
    ∷ (codes ".svg", codes "image/svg+xml")
    ∷ (codes ".svgz", codes "image/svg+xml")
    ∷ []

unfoldable pub mime_lookup : (Text → Text → Bool) → Text → List (Text × Text) → Text
mime_lookup iequals ext [] = codes "application/text"
mime_lookup iequals ext ((e, type) ∷ types) =
    if iequals ext e then type else mime_lookup iequals ext types

unfoldable pub mime_type : Comparison → Text → Text
mime_type c path = mime_lookup c.iequals (extension path) mime_types

-- `result.resize(result.size() - 1)` if `result.back()` is a slash.
unfoldable pub strip_slash : Text → Text
strip_slash [] = []
strip_slash (c ∷ []) = if c == b'/' then [] else c ∷ []
strip_slash (c ∷ d ∷ text) = c ∷ strip_slash (d ∷ text)

-- On other platforms than MSVC.
unfoldable pub path_cat : Text → Text → Text
unfolding strip_slash
path_cat [] path = path
path_cat (c ∷ base) path = strip_slash (c ∷ base) ++ path

-- `target.back() == '/'`
unfoldable pub ends_with_slash : Text → Bool
ends_with_slash [] = false
ends_with_slash (c ∷ []) = c == b'/'
ends_with_slash (c ∷ d ∷ text) = ends_with_slash (d ∷ text)

-- The path of the file that is opened for a target.
unfoldable pub file_path : Text → Text → Text
unfolding path_cat ends_with_slash
file_path doc_root target =
    let path = path_cat doc_root target in
    if ends_with_slash target then path ++ codes "index.html" else path
