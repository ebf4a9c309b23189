-- ===== src/Startup/Options.antt =====
-- option.hpp: the names of variables, the options, and init_from with what it sets.
use kedge.Base.{
  ℕ, Bool, true, false, ◌||◌, ◌-◌, ◌&&◌, Option, none, some, List, [], ◌∷◌, leb, if◌then◌else◌,
}
use kedge.Bytes.{Bytes, codes, bytes_eq}
use kedge.Sheath.Ending.{Dirs, new_sheath_dirs}
use kedge.Startup.Environment.{Environment, or_else, get_conf_dir, get_store_dir, get_web_ui}
use kedge.Startup.Files.{Disk, prepare_dirs}
use kedge.Startup.Parameters.{SessionLib, Settings, Params, load_sess_params}

-- toupper in the C locale.
unfoldable pub to_upper : Bytes → Bytes
to_upper [] = []
to_upper (c ∷ s) = (if leb 97 c && leb c 122 then c - 32 else c) ∷ to_upper s

abbrev mapped : Bytes → Bytes
mapped env_var =
    if bytes_eq env_var (codes "LT_PEERID_PREFIX") || bytes_eq env_var (codes "TR_PEERID_PREFIX")
    then codes "peer-id"
    else if bytes_eq env_var (codes "DHT_BOOTSTRAP_NODES")
    then codes "dht-bootstrap-nodes"
    else if bytes_eq env_var (codes "KEDGE_MOVED_ROOT")
    then codes "moved-root"
    else if bytes_eq env_var (codes "KEDGE_STORE_ROOT")
    then codes "store-root"
    else if bytes_eq env_var (codes "KEDGE_WEBUI_ROOT")
    then codes "webui-root"
    else if bytes_eq env_var (codes "KEDGE_HTTP_ADDR")
    then codes "http-addr"
    else if bytes_eq env_var (codes "KEDGE_HTTP_PORT")
    then codes "http-port"
    else []

unfoldable pub mapper : Bytes → Bytes
unfolding to_upper
mapper env_var = mapped (to_upper env_var)

-- What the source uses of Boost.Program_options, for its own description of the options. `none` is
-- an exception. `value` is a value that was stored: a default is none. `to_port` is the conversion
-- of a text that `store` has accepted.
pub record OptionLib : Type 1 where
  pub VariablesMap : Type 0
  pub no_variables : VariablesMap
  pub parse_command_line : List Bytes → Option (List (Bytes × Bytes))
  pub parse_environment : (Bytes → Bytes) → List (Bytes × Bytes) → List (Bytes × Bytes)
  pub store : List (Bytes × Bytes) → VariablesMap → Option VariablesMap
  pub value : Bytes → VariablesMap → Option Bytes
  pub to_port : Bytes → ℕ

pub record Options (lib : SessionLib) : Type 0 where
  pub peer_id : Bytes
  pub listens : Bytes
  pub moved_root : Bytes
  pub store_root : Bytes
  pub webui_root : Bytes
  pub http_addr : Bytes
  pub http_port : ℕ
  pub params : Params lib

-- How init_from ends: by an exception, with false, or with true.
pub data Outcome (lib : SessionLib) : Type 0 where
  thrown : Outcome lib
  refused : Disk → Outcome lib
  ready : Disk → Options lib → Outcome lib

abbrev pub is_some {ℓ} : {A : Type ℓ} → Option A → Bool
is_some none = false
is_some (some _) = true

module _ (po : OptionLib) (lib : SessionLib) where
  -- Both calls of `store`.
  abbrev pub stored : List (Bytes × Bytes) → Option po.VariablesMap → Option po.VariablesMap
  stored options none = none
  stored options (some vm) = po.store options vm

  unfoldable pub parsed : List Bytes → Option po.VariablesMap
  parsed argv = elim (po.parse_command_line argv) [
    | none ↦ none
    | some options ↦ po.store options po.no_variables
  ]

  -- The three settings that come from options, each of which has a default.
  abbrev pub set_strings : Bytes → Bytes → Bytes → Settings lib.Others → Settings lib.Others
  set_strings listens peer_id nodes settings = record settings {
    listen_interfaces = listens;
    peer_fingerprint = peer_id;
    dht_bootstrap_nodes = nodes;
  }

  abbrev pub with_strings : Bytes → Bytes → Bytes → Params lib → Params lib
  with_strings listens peer_id nodes params = record params {
    settings = set_strings listens peer_id nodes params.settings;
  }

  abbrev pub or_port : Option Bytes → ℕ
  or_port none = 16180
  or_port (some text) = po.to_port text

  -- `notify` and what follows it. `http-addr` is bound to no member.
  unfoldable pub options_of : Environment → po.VariablesMap → Params lib → Options lib
  unfolding get_store_dir get_web_ui
  options_of e vm params =
      let listens = or_else (po.value (codes "listens") vm) (codes "0.0.0.0:16188") in
      let peer_id = or_else (po.value (codes "peer-id") vm) (codes "-LT-") in
      record {
        peer_id = peer_id;
        listens = listens;
        moved_root = or_else (po.value (codes "moved-root") vm) [];
        store_root = or_else (po.value (codes "store-root") vm) (get_store_dir e);
        webui_root = or_else (po.value (codes "webui-root") vm) (get_web_ui e);
        http_addr = codes "127.0.0.1";
        http_port = or_port (po.value (codes "http-port") vm);
        params =
            with_strings listens peer_id
              (or_else (po.value (codes "dht-bootstrap-nodes") vm)
                (codes "dht.transmissionbt.com:6881"))
              params;
      }

  unfoldable pub prepared : Environment → po.VariablesMap → Disk × Bool → Outcome lib
  unfolding get_conf_dir load_sess_params options_of
  prepared e vm (disk, ok) =
      if ok
      then ready disk (options_of e vm (load_sess_params lib disk (get_conf_dir e) lib.fresh))
      else refused disk

  unfoldable pub configured : Environment → Disk → Option po.VariablesMap → Outcome lib
  unfolding prepared get_conf_dir prepare_dirs
  configured e disk none = thrown
  configured e disk (some vm) =
      if is_some (po.value (codes "help") vm)
      then refused disk
      else prepared e vm (prepare_dirs disk (get_conf_dir e))

  unfoldable pub init_from : List Bytes → Environment → Disk → Outcome lib
  unfolding mapper parsed configured
  init_from argv e disk =
      configured e disk (stored (po.parse_environment mapper e.variables) (parsed argv))

-- The session with the parameters, and the directories of the sheath over it.
unfoldable pub make_context : {lib : SessionLib} → Environment → Options lib → Params lib × Dirs
unfolding get_conf_dir new_sheath_dirs
make_context e opt = (opt.params, new_sheath_dirs (get_conf_dir e) opt.store_root opt.moved_root)
