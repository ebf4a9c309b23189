-- ===== src/Startup/Environment.antt =====
-- The directories that util.cpp takes from the environment.
use kedge.Base.{Option, none, some, List, [], ◌∷◌, if◌then◌else◌}
use kedge.Bytes.{Bytes, codes, bytes_eq}
use kedge.Util.{path_join}

-- The value that stands first under a name.
unfoldable pub lookup : Bytes → List (Bytes × Bytes) → Option Bytes
lookup k [] = none
lookup k ((j, v) ∷ rest) = if bytes_eq j k then some v else lookup k rest

-- The variables, and the home directory of the user in the password file.
pub record Environment : Type 0 where
  pub variables : List (Bytes × Bytes)
  pub pw_dir : Option Bytes

abbrev getenv : Environment → Bytes → Option Bytes
unfolding lookup
getenv e key = lookup key e.variables

abbrev pub or_else : Option Bytes → Bytes → Bytes
or_else none dft = dft
or_else (some val) dft = val

module _ (e : Environment) where
  unfoldable pub get_env_str : Bytes → Bytes → Bytes
  unfolding lookup
  get_env_str key dft = or_else (getenv e key) dft

  unfoldable pub get_home_dir : Bytes
  unfolding lookup
  get_home_dir = or_else (getenv e (codes "HOME")) (or_else e.pw_dir [])

  abbrev pub app_name : Bytes
  app_name = codes "kedge"

  unfoldable pub get_conf_dir : Bytes
  unfolding lookup get_env_str get_home_dir path_join
  get_conf_dir =
      path_join (get_env_str (codes "XDG_CONFIG_HOME") (path_join get_home_dir (codes ".config")))
        app_name

  unfoldable pub get_logs_dir : Bytes
  unfolding get_home_dir path_join
  get_logs_dir = path_join get_home_dir (codes "logs")

  unfoldable pub get_store_dir : Bytes
  unfolding get_home_dir path_join
  get_store_dir = path_join get_home_dir (codes "Downloads")

  unfoldable pub get_web_ui : Bytes
  unfolding get_conf_dir path_join
  get_web_ui = path_join get_conf_dir (codes "webui")
