-- ===== src/HttpUtil.antt =====
-- http_util.hpp: the responses, content types, and the decoding of a query.
pub mod Decode
pub mod Query
pub mod Mime
use mathlib.Core.Option
use kedge.Base.{
  ℕ, suc, ◌+◌, ◌≡◌, Bool, true, false, ◌&&◌, ◌||◌, Option, none, some, List, [], ◌∷◌, ◌++◌, ◌==◌,
  leb, if◌then◌else◌, length, take, drop,
}
use kedge.Bytes.{Bytes, codes, bytes_eq, find, find_from, rfind, substr, substr_from, c_str}
use kedge.Number.{strtol16, to_u8}

pub data Verb : Type 0 where
  get head post put delete_ other : Verb

-- A request: of its header fields, those that the program reads.
pub record Request : Type 0 where
  pub method : Verb
  pub target : Bytes
  pub version : ℕ
  pub keep_alive : Bool
  pub content_length : Option Bytes
  pub content_type : Option Bytes
  pub save_path : Option Bytes
  pub body : Bytes

pub data Status : Type 0 where
  ok no_content bad_request not_found internal_server_error : Status

abbrev pub is_no_content : Status → Bool
is_no_content no_content = true
is_no_content _ = false

-- A response as it is handed to `prepare_payload` of Beast.
pub record Response : Type 0 where
  pub status : Status
  pub version : ℕ
  pub server : Bytes
  pub content_type : Bytes
  pub cache_control : Bytes
  pub pragma : Bytes
  pub content_length : ℕ
  pub keep_alive : Bool
  pub body : Bytes

abbrev pub ct_json : Bytes
ct_json = codes "application/json"

abbrev pub ct_text : Bytes
ct_text = codes "text/plain"

abbrev pub ct_torrent : Bytes
ct_torrent = codes "application/x-bittorrent"

abbrev pub server_signature : Bytes
server_signature = codes "Kedge/0.0.2"

unfoldable pub make_resp : Request → Bytes → Bytes → Status → Response
make_resp req body ct sc = record {
  status = sc;
  version = req.version;
  server = server_signature;
  content_type = ct;
  cache_control = codes "no-cache, no-store, must-revalidate";
  pragma = codes "no-cache";
  content_length = length body;
  keep_alive = req.keep_alive;
  body = if is_no_content sc then [] else body;
}

unfoldable pub make_resp_204 : Request → Response
unfolding make_resp
make_resp_204 req = make_resp req [] [] no_content

unfoldable pub make_resp_400 : Request → Bytes → Response
unfolding make_resp
make_resp_400 req why = make_resp req (codes "Bad request: " ++ why) ct_text bad_request

unfoldable pub make_resp_404 : Request → Response
unfolding make_resp
make_resp_404 req =
    make_resp req (codes "The resource '" ++ req.target ++ codes "' was not found.") ct_text
      not_found

unfoldable pub make_resp_500 : Request → Bytes → Response
unfolding make_resp
make_resp_500 req what =
    make_resp req (codes "An error occurred: '" ++ what ++ codes "'") ct_text internal_server_error

-- beast::iequals: equality up to the case of ASCII letters.
unfoldable pub to_lower : ℕ → ℕ
to_lower c = if leb 65 c && leb c 90 then c + 32 else c

abbrev pub map_bytes : (ℕ → ℕ) → Bytes → Bytes
map_bytes f [] = []
map_bytes f (c ∷ s) = f c ∷ map_bytes f s

unfoldable pub iequals : Bytes → Bytes → Bool
unfolding to_lower
iequals s t = bytes_eq (map_bytes to_lower s) (map_bytes to_lower t)

-- The text from the last dot of the whole path.
unfoldable pub extension : Bytes → Bytes
extension path = elim (rfind 46 path) [ none ↦ [] | some i ↦ drop i path ]

-- The chain of tests of `mime_type`, in its order.
abbrev pub mime_table : List (Bytes × Bytes)
mime_table =
    (codes ".html", codes "text/html")
    ∷ (codes ".css", codes "text/css")
    ∷ (codes ".txt", codes "text/plain")
    ∷ (codes ".js", codes "application/javascript")
    ∷ (codes ".json", codes "application/json")
    ∷ (codes ".png", codes "image/png")
    ∷ (codes ".jpe", codes "image/jpeg")
    ∷ (codes ".jpeg", codes "image/jpeg")
    ∷ (codes ".jpg", codes "image/jpeg")
    ∷ (codes ".gif", codes "image/gif")
    ∷ (codes ".ico", codes "image/vnd.microsoft.icon")
    ∷ (codes ".svg", codes "image/svg+xml")
    ∷ (codes ".svgz", codes "image/svg+xml")
    ∷ []

unfoldable pub mime_of : Bytes → List (Bytes × Bytes) → Bytes
mime_of ext [] = codes "application/text"
mime_of ext ((e, ct) ∷ rest) = if iequals ext e then ct else mime_of ext rest

unfoldable pub mime_type : Bytes → Bytes
unfolding extension mime_of
mime_type path = mime_of (extension path) mime_table

-- A byte outside an escape.
unfoldable pub plain : ℕ → ℕ
plain ch = if ch == b'+' then b' ' else ch

-- The byte of an escape: strtol over the two bytes, cast to char.
unfoldable pub escape_value : ℕ → ℕ → ℕ
escape_value a b = to_u8 (strtol16 (c_str (a ∷ b ∷ [])))

unfoldable pub url_decode : Bytes → Bytes
unfolding plain escape_value
url_decode [] = []
url_decode (ch ∷ []) = plain ch ∷ []
url_decode (ch ∷ a ∷ []) = plain ch ∷ url_decode (a ∷ [])
url_decode (ch ∷ a ∷ b ∷ s) =
    let escaped = escape_value a b ∷ url_decode s in
    let literal = plain ch ∷ url_decode (a ∷ b ∷ s) in if ch == b'%' then escaped else literal

-- `none` is the exception of `substr`; npos as a count takes the rest.
unfoldable pub query_arg_one : Bytes → Bytes → Option Bytes
query_arg_one uri keypre = elim (find keypre uri) [
  | none ↦ some []
  | some i ↦ elim (find_from (codes "&") i uri) [
    | none ↦ substr_from (i + length keypre) uri
    | some n ↦ substr (i + length keypre) n uri
  ]
]
