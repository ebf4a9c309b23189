-- ===== src/Startup/Accepting.antt =====
-- listener.cpp: the socket that accepts connections, and which connections are served.
use kedge.Base.{ℕ, suc, ◌≡◌, Option, none, some, List, [], ◌∷◌, ◌++◌}
use kedge.Bytes.{Bytes, codes}

pub data AcceptError : Type 0 where
  operation_aborted : AcceptError
  other_error : AcceptError

-- What the listener does: calls of its acceptor, the session of a socket, and lines of the log.
pub data ListenCall (Socket : Type 0) : Type 0 where
  open_acceptor reuse_address bind_endpoint start_listening async_accept : ListenCall Socket
  run_session : Socket → ListenCall Socket
  log_failure : (what : Bytes) → ListenCall Socket

module _ {Socket : Type 0} where
  unfoldable pub fail : AcceptError → Bytes → List (ListenCall Socket)
  fail operation_aborted what = []
  fail other_error what = log_failure what ∷ []

  -- A call of the constructor, with its result: what follows it is done only without an error.
  abbrev pub unless_failed :
      Bytes → Option AcceptError → List (ListenCall Socket) → List (ListenCall Socket)
  unfolding fail
  unless_failed what (some ec) rest = fail ec what
  unless_failed what none rest = rest

  unfoldable pub new_listener :
      (opened set bound listening : Option AcceptError) → List (ListenCall Socket)
  unfolding fail
  new_listener opened set bound listening =
      open_acceptor
      ∷ unless_failed (codes "open") opened (
          reuse_address
          ∷ unless_failed (codes "set_option") set (
              bind_endpoint
              ∷ unless_failed (codes "bind") bound
                  (start_listening ∷ unless_failed (codes "listen") listening [])))

  unfoldable pub run : List (ListenCall Socket)
  run = async_accept ∷ []

  unfoldable pub on_accept : Option AcceptError → Socket → List (ListenCall Socket)
  unfolding fail
  on_accept (some ec) socket = fail ec (codes "accept")
  on_accept none socket = run_session socket ∷ async_accept ∷ []

-- The accepts under way, the accepts that failed, and the sockets served, the first one first.
pub record Listener (Socket : Type 0) : Type 0 where
  pub pending : ℕ
  pub failures : ℕ
  pub served : List Socket

module _ {Socket : Type 0} where
  abbrev pub idle : Listener Socket
  idle = record { pending = 0; failures = 0; served = [] }

  unfoldable pub perform : List (ListenCall Socket) → Listener Socket → Listener Socket
  perform [] l = l
  perform (async_accept ∷ calls) l = perform calls (record l { pending = suc l.pending })
  perform (run_session s ∷ calls) l = perform calls (record l { served = l.served ++ s ∷ [] })
  perform (_ ∷ calls) l = perform calls l

  abbrev pub completed : ℕ → Option AcceptError → Listener Socket → Listener Socket
  completed n none l = record l { pending = n }
  completed n (some ec) l = record l { pending = n; failures = suc l.failures }

  -- One accept under way completes.
  pub data Step : Listener Socket → Listener Socket → Type 0 where
    complete :
        (l : Listener Socket) (n : ℕ) (ec : Option AcceptError) (socket : Socket)
        → l.pending ≡ suc n
        → Step l (perform (on_accept ec socket) (completed n ec l))

  pub data Reach (start : Listener Socket) : Listener Socket → Type 0 where
    here : Reach start start
    then_ : (l l' : Listener Socket) → Reach start l → Step l l' → Reach start l'
