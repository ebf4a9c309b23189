-- ===== src/Websocket.antt =====
-- http_websocket.cpp and http_websocket.hpp: one WebSocket connection with its queue of messages.
pub mod Queue
use kedge.Base.{
  ℕ, suc, Bool, true, false, Option, none, some, List, [], ◌∷◌, ◌++◌, ltb, if◌then◌else◌, length,
}
use kedge.Bytes.{Bytes, codes}
use kedge.HttpUtil.{Request, url_decode, query_arg_one}

-- The error codes that the callbacks tell apart.
pub data ErrorCode : Type 0 where
  success closed_error operation_aborted other_error : ErrorCode

-- What a callback calls: the stream's asynchronous operations, and the caller.
pub data WsCall : Type 0 where
  async_accept async_read join leave : WsCall
  async_write : Bytes → WsCall
  async_close : Bytes → WsCall
  broadcast : Bytes → WsCall
  log : Bytes → WsCall

pub record WsSession : Type 0 where
  pub queue : List Bytes
  pub uri : Bytes
  pub qid : Bytes
  pub closed : Bool

unfoldable pub new_session : WsSession
new_session = record { queue = []; uri = []; qid = []; closed = false }

unfoldable pub destroy : WsSession → WsSession × List WsCall
destroy w = (record w { closed = true }, leave ∷ [])

unfoldable pub fail : ErrorCode → Bytes → List WsCall
fail operation_aborted what = []
fail closed_error what = []
fail _ what = log what ∷ []

abbrev pub is_error : ErrorCode → Bool
is_error success = false
is_error _ = true

abbrev pub is_closed_error : ErrorCode → Bool
is_closed_error closed_error = true
is_closed_error _ = false

-- `none` is an exception of `substr`.
unfoldable pub run : Request → WsSession → Option (WsSession × List WsCall)
run req w = elim (query_arg_one req.target (codes "id=")) [
  | none ↦ none
  | some v ↦ some (record w { uri = req.target; qid = url_decode v }, async_accept ∷ [])
]

unfoldable pub on_accept : ErrorCode → WsSession → WsSession × List WsCall
unfolding fail
on_accept ec w =
    if is_error ec then (w, fail ec (codes "ws on_accept")) else (w, join ∷ async_read ∷ [])

-- `message` is the content of the buffer, which is emptied behind the broadcast.
unfoldable pub on_read : ErrorCode → Bytes → WsSession → WsSession × List WsCall
unfolding fail
on_read ec message w =
    let w' = if is_closed_error ec then record w { closed = true } else w in
    if is_error ec
    then (w', fail ec (codes "ws on_read"))
    else if w'.closed
    then (w', [])
    else (w', broadcast message ∷ async_read ∷ [])

unfoldable pub close : Bytes → WsSession → WsSession × List WsCall
close msg w = (record w { closed = true }, async_close msg ∷ [])

-- The front of the queue is written.
abbrev pub write_front : List Bytes → List WsCall
write_front [] = []
write_front (m ∷ ms) = async_write m ∷ []

-- With more than the new message in the queue a write is under way already.
unfoldable pub start_write : List Bytes → List WsCall
start_write queue = if ltb 1 (length queue) then [] else write_front queue

unfoldable pub on_send : Bytes → WsSession → WsSession × List WsCall
unfolding start_write
on_send message w =
    (record w { queue = w.queue ++ message ∷ [] }, start_write (w.queue ++ message ∷ []))

abbrev pub erase_front : List Bytes → List Bytes
erase_front [] = []
erase_front (m ∷ ms) = ms

unfoldable pub on_write : ErrorCode → WsSession → WsSession × List WsCall
unfolding close fail
on_write closed_error w = close (codes "ws Write error") w
on_write success w =
    let queue' = erase_front w.queue in (record w { queue = queue' }, write_front queue')
on_write ec w = (w, fail ec (codes "ws on_write"))
