-- ===== src/Witness/Startup.antt =====
-- The start and the end of the program.
use kedge.Base.{
  ℕ, ◌+◌, ◌≤◌, ◌≡◌, refl, ap, ◌∙◌, ◌≢◌, true, false, Option, none, some, List, [], ◌∷◌, ◌++◌, All,
  Bool-cases, inl, inr, ◌<◌,
}
use kedge.Base.Int.{pos}
use kedge.Bytes.{Bytes, codes, bytes_eq, rfind}
use kedge.Number.{atoi, to_u16}
use kedge.Sheath.Ending.{new_sheath_dirs, save_session}
use kedge.Startup.Environment.{
  Environment, lookup, or_else, get_conf_dir, get_store_dir, get_web_ui,
}
use kedge.Startup.Files.{
  Disk, create_directory, create_all, load_file, save_file, file_limit, conf_dirs, prepare_dirs,
}
use kedge.Startup.Prepared.{IsDirectory, load_file-save_file}
use kedge.Startup.Parameters.{rate_based_choker, SessionLib, SessionParams, load_sess_params}
use kedge.Startup.Restart.{run_saves, load_sess_params-save_session}
use kedge.Startup.Options.{
  OptionLib, Options, ready, mapper, to_upper, init_from, parsed, configured, prepared, options_of,
  or_port,
}
use kedge.Startup.Precedence.{AreOff, first_some, renamed, IsOptionLib, given, init_from-Precedence}
use kedge.Startup.Accepting.{
  Listener, run, on_accept, perform, completed, complete, other_error, Reach, here, then_,
}
use kedge.Startup.Served.{started, accepting_until_failure}

-- A disk on which everything is allowed, with nothing on it.
abbrev blank_disk : Disk
blank_disk = record { entries = λ p. none; may_create = λ there p. true; may_write = λ p. true }

load_file-save_file_example :
    let d' = (save_file blank_disk (codes "/a") (codes "data")).0 in
    (4 ≤ file_limit → load_file d' (codes "/a") file_limit ≡ some (codes "data"))
    × (file_limit < 4 → load_file d' (codes "/a") file_limit ≡ none)
    × ((q : Bytes) → q ≢ codes "/a" → load_file d' q file_limit ≡ load_file blank_disk q file_limit)
unfolding save_file
load_file-save_file_example =
    load_file-save_file blank_disk (codes "/a") (codes "data") file_limit refl

abbrev fresh_params : SessionParams ℕ
fresh_params = record {
  settings = record {
    cache_size = pos 1024;
    choking_algorithm = rate_based_choker;
    user_agent = [];
    alert_mask = [];
    enable_upnp = true;
    enable_natpmp = true;
    enable_dht = true;
    enable_lsd = true;
    validate_https_trackers = true;
    listen_interfaces = [];
    peer_fingerprint = [];
    dht_bootstrap_nodes = [];
    others = 0;
  };
  privacy_lookups = false;
  dht_state = [];
}

-- A state is a text, and none is read from a text that is empty.
abbrev node_of : Bytes → Option Bytes
node_of [] = none
node_of (c ∷ s) = some (c ∷ s)

abbrev session_lib : SessionLib
session_lib = record {
  Others = ℕ;
  Node = Bytes;
  Session = Bytes;
  version = codes "1.2";
  fresh = fresh_params;
  save_state = λ s. s;
  bencode = λ n. n;
  bdecode = node_of;
  read_session_params = λ n. fresh_params;
}

abbrev home : Environment
home = record {
  variables = (codes "HOME", codes "/home/u") ∷ (codes "kedge_http_addr", codes "0.0.0.0") ∷ [];
  pw_dir = none;
}

load_sess_params-save_session_example :
    let conf = get_conf_dir home in
    let dirs = new_sheath_dirs conf (codes "/store") [] in
    let saves = save_session session_lib dirs false (codes "d1:xe") in
    load_sess_params session_lib (run_saves saves blank_disk) conf fresh_params
    ≡ load_sess_params session_lib blank_disk conf fresh_params
load_sess_params-save_session_example =
    load_sess_params-save_session session_lib home (codes "/store") [] blank_disk false
      (codes "d1:xe") fresh_params

-- Options as the words of the command line come in pairs.
abbrev pairs_of : List Bytes → List (Bytes × Bytes)
pairs_of [] = []
pairs_of (k ∷ []) = (k, []) ∷ []
pairs_of (k ∷ v ∷ rest) = (k, v) ∷ pairs_of rest

abbrev option_lib : OptionLib
unfolding lookup renamed atoi to_u16
option_lib = record {
  VariablesMap = List (Bytes × Bytes);
  no_variables = [];
  parse_command_line = λ argv. some (pairs_of argv);
  parse_environment = renamed;
  store = λ options vm. some (vm ++ options);
  value = lookup;
  to_port = λ text. to_u16 (atoi text);
}

lookup-append :
    (k : Bytes) (xs ys : List (Bytes × Bytes))
    → lookup k (xs ++ ys) ≡ first_some (lookup k xs) (lookup k ys)
unfolding lookup
lookup-append k [] ys = refl
lookup-append k ((j, v) ∷ xs) ys = elim (Bool-cases (bytes_eq j k)) [
  | inl y ↦ rw y refl
  | inr n ↦ rw n (lookup-append k xs ys)
]

option_lib-IsOptionLib : IsOptionLib option_lib
unfolding option_lib lookup
option_lib-IsOptionLib = record {
  value-none = λ k. refl;
  value-store = λ options vm vm' k h.
      let same : vm' ≡ vm ++ options = cc in ap (λ v. lookup k v) same ∙ lookup-append k vm options;
  parse_environment_lem = λ f variables. refl;
}

abbrev words : List Bytes
words = codes "store-root" ∷ codes "/data" ∷ []

abbrev command_line : List (Bytes × Bytes)
command_line = (codes "store-root", codes "/data") ∷ []

abbrev home_disk : Disk
home_disk = (prepare_dirs blank_disk (get_conf_dir home)).0

abbrev home_options : Options session_lib
unfolding option_lib
home_options =
    options_of option_lib session_lib home
      (command_line ++ (codes "http-addr", codes "0.0.0.0") ∷ [])
      (load_sess_params session_lib home_disk (get_conf_dir home) fresh_params)

starts : init_from option_lib session_lib words home blank_disk ≡ ready home_disk home_options
unfolding init_from option_lib home_options mapper to_upper parsed configured prepared lookup
    renamed prepare_dirs create_all create_directory bytes_eq rfind
starts = refl

init_from-Precedence_example :
    let value = given option_lib option_lib-IsOptionLib session_lib home command_line in
    All (IsDirectory home_disk) (conf_dirs (get_conf_dir home))
    × (home_options.listens ≡ or_else (value (codes "listens")) (codes "0.0.0.0:16188"))
    × (home_options.peer_id ≡ or_else (value (codes "peer-id")) (codes "-LT-"))
    × (home_options.moved_root ≡ or_else (value (codes "moved-root")) [])
    × (home_options.store_root ≡ or_else (value (codes "store-root")) (get_store_dir home))
    × (home_options.webui_root ≡ or_else (value (codes "webui-root")) (get_web_ui home))
    × (home_options.http_port ≡ or_port option_lib session_lib (value (codes "http-port")))
    × (home_options.http_addr ≡ codes "127.0.0.1")
    × (home_options.params.settings.listen_interfaces ≡ home_options.listens)
    × (home_options.params.settings.peer_fingerprint ≡ home_options.peer_id)
    × (home_options.params.settings.dht_bootstrap_nodes
        ≡ or_else (value (codes "dht-bootstrap-nodes")) (codes "dht.transmissionbt.com:6881"))
    × AreOff home_options.params.settings
unfolding option_lib
init_from-Precedence_example =
    init_from-Precedence option_lib option_lib-IsOptionLib session_lib home blank_disk home_disk
      words command_line home_options refl starts

-- A listener that has accepted one connection, and then none.
abbrev listening : Listener ℕ
listening = started

abbrev failed_accept : Listener ℕ
failed_accept = perform (on_accept (some other_error) 7) (completed 0 (some other_error) listening)

one_pending : listening.pending ≡ 1
unfolding perform run started
one_pending = refl

accepting_until_failure_example :
    (failed_accept.pending + failed_accept.failures ≡ 1)
    × (1 ≤ failed_accept.failures → (l' : Listener ℕ) → Reach failed_accept l' → l' ≡ failed_accept)
accepting_until_failure_example =
    accepting_until_failure failed_accept
      (then_ listening failed_accept here (complete listening 0 (some other_error) 7 one_pending))
