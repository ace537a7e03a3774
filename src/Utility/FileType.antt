-- ===== src/Utility/FileType.antt =====
-- File types and their texts: include/simpleserv/utility/file_manager.hpp and
-- src/simpleserv/utility/file_manager.cpp.
use mathlib.Core.Option
use simple_serv.Common.{
  ◌-◌, Bool, false, List, [], ◌∷◌, Bytes, codes, str_eq, ◌==◌, if◌then◌else◌, length, take, drop,
  ltb, any,
}
use simple_serv.Common.Dict.{Dict, lookup}

pub data FileType : Type 0 where
  text_html text_css text_js text_plain image_png image_svg font_ttf font_woff font_woff2 : FileType

pub data FileEncoding : Type 0 where
  none brotli deflate gzip : FileEncoding

-- `file_type_map`, which has every file type
abbrev file_type_map : FileType → Bytes
file_type_map text_html = codes "text/html"
file_type_map text_css = codes "text/css"
file_type_map text_js = codes "text/javascript"
file_type_map text_plain = codes "text/plain"
file_type_map image_png = codes "image/png"
file_type_map image_svg = codes "image/svg+xml"
file_type_map font_ttf = codes "font/ttf"
file_type_map font_woff = codes "font/woff"
file_type_map font_woff2 = codes "font/woff2"

abbrev extension_map : Dict FileType
extension_map =
    (codes ".html", text_html)
    ∷ (codes ".css", text_css)
    ∷ (codes ".js", text_js)
    ∷ (codes ".png", image_png)
    ∷ (codes ".svg", image_svg)
    ∷ (codes ".ttf", font_ttf)
    ∷ (codes ".woff", font_woff)
    ∷ (codes ".woff2", font_woff2)
    ∷ []

-- `file_encoding_map`, which has every encoding
abbrev file_encoding_map : FileEncoding → Bytes
file_encoding_map none = []
file_encoding_map brotli = codes "br"
file_encoding_map deflate = codes "deflate"
file_encoding_map gzip = codes "gzip"

-- The part of a path behind its last slash: `path::filename`
unfoldable pub filename : Bytes → Bytes
filename [] = []
filename (x ∷ s) = let behind = filename s in if any (λ c. c == b'/') (x ∷ s) then behind else x ∷ s

-- The text from the last dot on.
unfoldable pub from_last_dot : Bytes → Bytes
from_last_dot [] = []
from_last_dot (x ∷ s) =
    let behind = from_last_dot s in
    if any (λ c. c == b'.') s then behind else if x == b'.' then x ∷ s else []

-- A dot in front is no extension, and ".." has none.
abbrev extension_of_filename : Bytes → Bytes
extension_of_filename [] = []
extension_of_filename (x ∷ s) = if str_eq (x ∷ s) (codes "..") then [] else from_last_dot s

-- `path::extension`
unfoldable pub extension : Bytes → Bytes
unfolding filename from_last_dot str_eq
extension path = extension_of_filename (filename path)

unfoldable pub encode_filetype : Bytes → FileType
unfolding extension lookup str_eq
encode_filetype name = Option.get_or (lookup (extension name) extension_map) text_plain

unfoldable pub decode_filetype : FileType → Bytes
decode_filetype t = file_type_map t

unfoldable pub decode_file_encoding : FileEncoding → Bytes
decode_file_encoding e = file_encoding_map e

unfoldable pub is_extension : Bytes → Bytes → Bool
unfolding str_eq
is_extension str ext =
    let len = length ext in
    if ltb (length str) len then false else str_eq (take len (drop (length str - len) str)) ext

abbrev supported_extensions : List Bytes
supported_extensions =
    codes ".html"
    ∷ codes ".js"
    ∷ codes ".css"
    ∷ codes ".png"
    ∷ codes ".jpg"
    ∷ codes ".svg"
    ∷ codes ".ttf"
    ∷ codes ".woff"
    ∷ codes ".woff2"
    ∷ codes ".ico"
    ∷ []

unfoldable pub is_supported_extension : Bytes → Bool
unfolding is_extension
is_supported_extension str = any (is_extension str) supported_extensions
