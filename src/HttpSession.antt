-- ===== src/HttpSession.antt =====
-- http_session.cpp: the answer to a request, by the API or from the files of the web UI, and the
-- callbacks of an HTTP connection.
pub mod Files
pub mod Connection
use kedge.Base.{
  ℕ, suc, ◌≡◌, Bool, true, false, ◌&&◌, ◌||◌, not, Option, none, some, List, [], ◌∷◌, ◌++◌, ◌==◌,
  if◌then◌else◌,
}
use kedge.Bytes.{Bytes, codes, find}
use kedge.Fault.{Result, done, ◌>>=◌}
use kedge.Util.{HashText, path_cat}
use kedge.HttpUtil.{
  Verb, head, Request, Response, Status, bad_request, not_found, internal_server_error, make_resp,
  ct_text, mime_type,
}
use kedge.Json.{Json}
use kedge.Handlers.{SheathOps, sb_call}

-- What opening a file gives: its size, or an error.
pub data Opened : Type 0 where
  opened : ℕ → Opened
  no_such_file : Opened
  failed : Bytes → Opened

-- The response from a file: with its content, or without for HEAD.
pub record FileResponse : Type 0 where
  pub path : Bytes
  pub version : ℕ
  pub content_type : Bytes
  pub content_length : ℕ
  pub keep_alive : Bool
  pub with_body : Bool

pub data Reply : Type 0 where
  text : Response → Reply
  file : FileResponse → Reply

abbrev pub is_head : Verb → Bool
is_head head = true
is_head _ = false

abbrev pub first_is : ℕ → Bytes → Bool
first_is c [] = false
first_is c (b ∷ s) = b == c

unfoldable pub last_is : ℕ → Bytes → Bool
last_is c [] = false
last_is c (b ∷ []) = b == c
last_is c (b ∷ d ∷ s) = last_is c (d ∷ s)

abbrev pub is_found : Option ℕ → Bool
is_found none = false
is_found (some _) = true

-- Empty, not absolute, or with ".." in it.
unfoldable pub is_illegal : Bytes → Bool
is_illegal target = not (first_is b'/' target) || is_found (find (codes "..") target)

-- The path of the file for a target.
unfoldable pub file_path : Bytes → Bytes → Bytes
unfolding path_cat last_is
file_path ui_root target =
    if last_is b'/' target
    then path_cat ui_root target ++ codes "index.html"
    else path_cat ui_root target

unfoldable pub serve_file : Request → Bytes → Opened → Reply
unfolding make_resp mime_type
serve_file req path no_such_file = text (
    make_resp req (codes "The resource '" ++ req.target ++ codes "' was not found.") ct_text
      not_found)
serve_file req path (failed what) = text (
    make_resp req (codes "An error occurred: '" ++ what ++ codes "'") ct_text internal_server_error)
serve_file req path (opened size) = file (record {
  path = path;
  version = req.version;
  content_type = mime_type path;
  content_length = size;
  keep_alive = req.keep_alive;
  with_body = not (is_head req.method);
})

module _ (t : HashText) {S : Type 0} (ops : SheathOps t.Hash S) (serialize : Json → Bytes)
    (ui_root : Bytes) (open_file : Bytes → Opened) where
  abbrev or_file : Request → S × Option Response → S × Reply
  or_file req (s, some r) = (s, text r)
  or_file req (s, none) =
      (s, serve_file req (file_path ui_root req.target) (open_file (file_path ui_root req.target)))

  unfoldable pub handle_request : Request → S → Result (S × Reply)
  unfolding is_illegal sb_call serve_file file_path make_resp
  handle_request req s =
      let answered = do x ← sb_call t ops serialize req s; done (or_file req x)
      in if is_illegal req.target
        then done (s, text (make_resp req (codes "Illegal request-target") ct_text bad_request))
        else answered

-- The error codes that the callbacks tell apart.
pub data HttpError : Type 0 where
  success end_of_stream timeout operation_aborted other_error : HttpError

-- What a callback calls. A read is limited to 1 MB and thirty seconds; a write carries `need_eof`.
pub data HttpCall : Type 0 where
  async_read : ℕ → ℕ → HttpCall
  async_write : Bool → HttpCall
  shutdown_send upgrade : HttpCall
  log : Bytes → HttpCall

unfoldable pub do_read : List HttpCall
do_read = async_read 1048576 30 ∷ []

unfoldable pub fail : HttpError → Bytes → List HttpCall
fail operation_aborted what = []
fail _ what = log what ∷ []

-- `upgraded` says whether the request asks for a WebSocket, `need_eof` whether its response closes.
unfoldable pub on_read : HttpError → Bool → Bool → List HttpCall
unfolding fail
on_read end_of_stream upgraded need_eof = shutdown_send ∷ []
on_read timeout upgraded need_eof = shutdown_send ∷ []
on_read success true need_eof = upgrade ∷ []
on_read success false need_eof = async_write need_eof ∷ []
on_read ec upgraded need_eof = fail ec (codes "http on_read")

unfoldable pub on_write : HttpError → Bool → List HttpCall
unfolding fail do_read
on_write success true = shutdown_send ∷ []
on_write success false = do_read
on_write ec close = fail ec (codes "http on_write")
