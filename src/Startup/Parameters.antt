-- ===== src/Startup/Parameters.antt =====
-- load_sess_params of option.hpp: the parameters of the session at the start.
use kedge.Base.{Bool, true, false, Option, none, some, List, [], ◌∷◌, ◌++◌}
use kedge.Base.Int.{ℤ, negsuc}
use kedge.Bytes.{Bytes, codes}
use kedge.Util.{path_cat}
use kedge.Startup.Files.{Disk, load_file, file_limit}

-- Names of settings_pack and alert_category that the source uses.
pub data Choker : Type 0 where
  rate_based_choker other_choker : Choker

pub data AlertCategory : Type 0 where
  error peer port_mapping storage tracker connect status ip_block performance_warning :
      AlertCategory
  dht incoming_request dht_operation port_mapping_log file_progress other_category : AlertCategory

-- The settings that the source sets, and the others as they came.
pub record Settings (Others : Type 0) : Type 0 where
  pub cache_size : ℤ
  pub choking_algorithm : Choker
  pub user_agent : Bytes
  pub alert_mask : List AlertCategory
  pub enable_upnp : Bool
  pub enable_natpmp : Bool
  pub enable_dht : Bool
  pub enable_lsd : Bool
  pub validate_https_trackers : Bool
  pub listen_interfaces : Bytes
  pub peer_fingerprint : Bytes
  pub dht_bootstrap_nodes : Bytes
  pub others : Others

pub record SessionParams (Others : Type 0) : Type 0 where
  pub settings : Settings Others
  pub privacy_lookups : Bool
  pub dht_state : Bytes

-- What the program uses of libtorrent's sessions. The flags of `save_state` and
-- `read_session_params` are save_settings and save_dht_state in both places.
pub record SessionLib : Type 1 where
  pub Others : Type 0
  pub Node : Type 0
  pub Session : Type 0
  pub version : Bytes
  pub fresh : SessionParams Others
  pub save_state : Session → Node
  pub bencode : Node → Bytes
  pub bdecode : Bytes → Option Node
  pub read_session_params : Node → SessionParams Others

abbrev pub Params : SessionLib → Type 0
Params lib = SessionParams lib.Others

abbrev pub sess_file : Bytes
sess_file = codes ".ses_state"

module _ (lib : SessionLib) where
  abbrev pub with_privacy : Params lib → Params lib
  with_privacy params = record params { privacy_lookups = true }

  -- The parameters read from the file replace all that there were.
  abbrev pub parsed_or : Params lib → Option lib.Node → Params lib
  parsed_or params none = params
  parsed_or params (some e) = lib.read_session_params e

  abbrev pub restored : Params lib → Option Bytes → Params lib
  restored params none = params
  restored params (some text) = parsed_or (with_privacy params) (lib.bdecode text)

  abbrev pub alert_categories : List AlertCategory
  alert_categories =
      error ∷ peer ∷ port_mapping ∷ storage ∷ tracker ∷ connect ∷ status ∷ ip_block
      ∷ performance_warning ∷ dht ∷ incoming_request ∷ dht_operation ∷ port_mapping_log
      ∷ file_progress ∷ []

  unfoldable pub force_settings : Settings lib.Others → Settings lib.Others
  force_settings settings = record settings {
    cache_size = negsuc 0;
    choking_algorithm = rate_based_choker;
    user_agent = codes "Kedge/0.0.2 lt/" ++ lib.version;
    alert_mask = alert_categories;
    enable_upnp = false;
    enable_natpmp = false;
    enable_dht = false;
    enable_lsd = false;
    validate_https_trackers = false;
  }

  abbrev pub with_forced : Params lib → Params lib
  unfolding force_settings
  with_forced params = record params { settings = force_settings params.settings }

  unfoldable pub load_sess_params : Disk → Bytes → Params lib → Params lib
  unfolding path_cat load_file force_settings
  load_sess_params disk cd params =
      with_forced (restored params (load_file disk (path_cat cd sess_file) file_limit))
