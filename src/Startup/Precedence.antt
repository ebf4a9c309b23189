-- ===== src/Startup/Precedence.antt =====
-- Which of the command line, the environment and the defaults sets an option, and what a start that
-- succeeds has done.
use mathlib.Core.Path.{subst}
use kedge.Base.{
  false, ℕ, ◌-◌, ◌≡◌, refl, sym, ap, ◌∙◌, true, inl, inr, Option, none, some, List, [], ◌∷◌, All,
  Bool-cases,
}
use kedge.Bytes.{Bytes, codes}
use kedge.Startup.Environment.{
  Environment, lookup, or_else, get_conf_dir, get_store_dir, get_web_ui,
}
use kedge.Startup.Files.{Disk, prepare_dirs, conf_dirs}
use kedge.Startup.Options.{
  mapper, OptionLib, Options, ready, refused, is_some, stored, parsed, options_of, prepared,
  configured, init_from, or_port,
}
use kedge.Startup.Parameters.{force_settings, Settings, SessionLib, Params, load_sess_params}
use kedge.Startup.Process.{begin_main, serving_at, thread_count}
use kedge.Startup.Prepared.{IsDirectory, prepare_dirs-Prepares}

abbrev pub first_some : Option Bytes → Option Bytes → Option Bytes
first_some none second = second
first_some (some v) second = some v

abbrev pub under_name : Bytes → Bytes → List (Bytes × Bytes) → List (Bytes × Bytes)
under_name [] v rest = rest
under_name (c ∷ k) v rest = (c ∷ k, v) ∷ rest

-- The variables under the names that a mapper gives them, without those that it gives none.
unfoldable pub renamed : (Bytes → Bytes) → List (Bytes × Bytes) → List (Bytes × Bytes)
renamed name_mapper [] = []
renamed name_mapper ((k, v) ∷ rest) = under_name (name_mapper k) v (renamed name_mapper rest)

-- The ways to peers that the program does without.
abbrev pub AreOff : {Others : Type 0} → Settings Others → Type 0
AreOff s =
    (s.enable_dht ≡ false)
    × (s.enable_lsd ≡ false)
    × (s.enable_upnp ≡ false)
    × (s.enable_natpmp ≡ false)

-- Boost.Program_options: what was stored first is kept, and the environment is taken by a mapper.
pub record IsOptionLib (po : OptionLib) : Type 0 where
  pub value-none : (k : Bytes) → po.value k po.no_variables ≡ none
  pub value-store :
      (options : List (Bytes × Bytes)) (vm vm' : po.VariablesMap) (k : Bytes)
      → po.store options vm ≡ some vm'
      → po.value k vm' ≡ first_some (po.value k vm) (lookup k options)
  pub parse_environment_lem :
      (f : Bytes → Bytes) (variables : List (Bytes × Bytes))
      → po.parse_environment f variables ≡ renamed f variables

module _ (po : OptionLib) (lib : SessionLib) (e : Environment) (d : Disk) where
  abbrev loaded : Disk → Params lib
  loaded d' = load_sess_params lib d' (get_conf_dir e) lib.fresh

  -- What lies behind a start that succeeds.
  record IsReady (x : Option po.VariablesMap) (d' : Disk) (o : Options lib) : Type 0 where
    vm : po.VariablesMap
    read : x ≡ some vm
    made : (prepare_dirs d (get_conf_dir e)).1 ≡ true
    disk : d' ≡ (prepare_dirs d (get_conf_dir e)).0
    options : o ≡ options_of po lib e vm (loaded d')

  configured-IsReady :
      (x : Option po.VariablesMap) (d' : Disk) (o : Options lib)
      → configured po lib e d x ≡ ready d' o
      → IsReady x d' o
  unfolding configured prepared
  configured-IsReady none d' o h = cc
  configured-IsReady (some vm) d' o h = elim (Bool-cases (is_some (po.value (codes "help") vm))) [
    | inl y ↦ let wrong : refused d ≡ ready d' o = rw (y, configured) at h in cc
    | inr n ↦ elim (Bool-cases (prepare_dirs d (get_conf_dir e)).1) [
      | inl ok ↦
          let d'' : Disk = (prepare_dirs d (get_conf_dir e)).0 in
          let same : ready d'' (options_of po lib e vm (loaded d'')) ≡ ready d' o =
            rw ok at (rw n at h) in
          let disk : d' ≡ d'' = cc in
          let options : o ≡ options_of po lib e vm (loaded d') = cc in
          record { vm = vm; read = refl; made = ok; disk = disk; options = options }
      | inr bad ↦
          let wrong : refused (prepare_dirs d (get_conf_dir e)).0 ≡ ready d' o =
            rw bad at (rw n at h) in
          cc
    ]
  ]

module _ (po : OptionLib) (laws : IsOptionLib po) (lib : SessionLib) (e : Environment) where
  -- The value given for an option: on the command line, or else in the environment, or else `dft`.
  abbrev pub given : List (Bytes × Bytes) → Bytes → Option Bytes
  given cmd k = first_some (lookup k cmd) (lookup k (renamed mapper e.variables))

  parsed_command_line :
      (argv : List Bytes) (cmd : List (Bytes × Bytes))
      → po.parse_command_line argv ≡ some cmd
      → parsed po lib argv ≡ po.store cmd po.no_variables
  unfolding parsed
  parsed_command_line argv cmd h = rw (h, parsed) refl

  value-stored :
      (cmd : List (Bytes × Bytes)) (x : Option po.VariablesMap) (vm : po.VariablesMap) (k : Bytes)
      → po.store cmd po.no_variables ≡ x
      → stored po lib (po.parse_environment mapper e.variables) x ≡ some vm
      → po.value k vm ≡ given cmd k
  value-stored cmd none vm k s r = cc
  value-stored cmd (some vm') vm k s r =
      let first : po.value k vm' ≡ lookup k cmd =
        rw laws.value-none at (laws.value-store _ _ _ k s) in
      rw (first, laws.parse_environment_lem) at (laws.value-store _ _ _ k r)

  value-given :
      (argv : List Bytes) (cmd : List (Bytes × Bytes)) (vm : po.VariablesMap) (k : Bytes)
      → po.parse_command_line argv ≡ some cmd
      → stored po lib (po.parse_environment mapper e.variables) (parsed po lib argv) ≡ some vm
      → po.value k vm ≡ given cmd k
  value-given argv cmd vm k h r =
      value-stored cmd (parsed po lib argv) vm k (sym (parsed_command_line argv cmd h)) r

  -- If the command line is read and init_from succeeds, with Boost.Program_options as documented,
  -- then the four directories of the program are there, each option has its value on the command
  -- line, or else that of the environment, or else its default, the HTTP address is 127.0.0.1
  -- whatever was given, and the session has the interfaces, the fingerprint and the bootstrap nodes
  -- of these options, and no DHT, local discovery, UPnP or NAT-PMP, whatever the state file holds.
  pub init_from-Precedence :
      (d d' : Disk) (argv : List Bytes) (cmd : List (Bytes × Bytes)) (o : Options lib)
      → po.parse_command_line argv ≡ some cmd
      → init_from po lib argv e d ≡ ready d' o
      → All (IsDirectory d') (conf_dirs (get_conf_dir e))
        × (o.listens ≡ or_else (given cmd (codes "listens")) (codes "0.0.0.0:16188"))
        × (o.peer_id ≡ or_else (given cmd (codes "peer-id")) (codes "-LT-"))
        × (o.moved_root ≡ or_else (given cmd (codes "moved-root")) [])
        × (o.store_root ≡ or_else (given cmd (codes "store-root")) (get_store_dir e))
        × (o.webui_root ≡ or_else (given cmd (codes "webui-root")) (get_web_ui e))
        × (o.http_port ≡ or_port po lib (given cmd (codes "http-port")))
        × (o.http_addr ≡ codes "127.0.0.1")
        × (o.params.settings.listen_interfaces ≡ o.listens)
        × (o.params.settings.peer_fingerprint ≡ o.peer_id)
        × (o.params.settings.dht_bootstrap_nodes
            ≡ or_else
                (given cmd (codes "dht-bootstrap-nodes"))
                (codes "dht.transmissionbt.com:6881"))
        × AreOff o.params.settings
  unfolding init_from options_of load_sess_params force_settings
  init_from-Precedence d d' argv cmd o h r =
      let start = configured-IsReady po lib e d _ d' o r in
      let v : (k : Bytes) → po.value k start.vm ≡ given cmd k =
        λ k. value-given argv cmd start.vm k h start.read in
      let at_disk : All (IsDirectory d') (conf_dirs (get_conf_dir e)) =
        subst (λ x. All (IsDirectory x) (conf_dirs (get_conf_dir e))) (sym start.disk)
          ((prepare_dirs-Prepares d (get_conf_dir e)).0.0 start.made) in
      (
        at_disk,
        ap (λ (x : Options lib). x.listens) start.options
            ∙ ap (λ x. or_else x (codes "0.0.0.0:16188")) (v (codes "listens")),
        ap (λ (x : Options lib). x.peer_id) start.options
            ∙ ap (λ x. or_else x (codes "-LT-")) (v (codes "peer-id")),
        ap (λ (x : Options lib). x.moved_root) start.options
            ∙ ap (λ x. or_else x []) (v (codes "moved-root")),
        ap (λ (x : Options lib). x.store_root) start.options
            ∙ ap (λ x. or_else x (get_store_dir e)) (v (codes "store-root")),
        ap (λ (x : Options lib). x.webui_root) start.options
            ∙ ap (λ x. or_else x (get_web_ui e)) (v (codes "webui-root")),
        ap (λ (x : Options lib). x.http_port) start.options
            ∙ ap (or_port po lib) (v (codes "http-port")),
        ap (λ (x : Options lib). x.http_addr) start.options,
        ap (λ (x : Options lib). x.params.settings.listen_interfaces) start.options
            ∙ sym (ap (λ (x : Options lib). x.listens) start.options),
        ap (λ (x : Options lib). x.params.settings.peer_fingerprint) start.options
            ∙ sym (ap (λ (x : Options lib). x.peer_id) start.options),
        ap (λ (x : Options lib). x.params.settings.dht_bootstrap_nodes) start.options
            ∙ ap (λ x. or_else x (codes "dht.transmissionbt.com:6881"))
                (v (codes "dht-bootstrap-nodes")),
        (
          ap (λ (x : Options lib). x.params.settings.enable_dht) start.options,
          ap (λ (x : Options lib). x.params.settings.enable_lsd) start.options,
          ap (λ (x : Options lib). x.params.settings.enable_upnp) start.options,
          ap (λ (x : Options lib). x.params.settings.enable_natpmp) start.options,
        ),
      )

  -- If the command line is read, init_from succeeds with Boost.Program_options as documented, and
  -- 127.0.0.1 is an address, then main serves at that address, whatever http-addr is given, at the
  -- port of http-port, with one worker fewer than the threads it computes.
  pub main_serves :
      {A : Type 0} (make_address : Bytes → Option A) (a : A) (hc : ℕ)
      → (d d' : Disk) (argv : List Bytes) (cmd : List (Bytes × Bytes)) (o : Options lib)
      → make_address (codes "127.0.0.1") ≡ some a
      → po.parse_command_line argv ≡ some cmd
      → init_from po lib argv e d ≡ ready d' o
      → begin_main make_address hc (init_from po lib argv e d)
        ≡ serving_at a (or_port po lib (given cmd (codes "http-port"))) (thread_count hc - 1)
  unfolding begin_main
  main_serves make_address a hc d d' argv cmd o known h r =
      let all_set = init_from-Precedence d d' argv cmd o h r in
      let port : o.http_port ≡ or_port po lib (given cmd (codes "http-port")) = all_set.6 in
      let host : o.http_addr ≡ codes "127.0.0.1" = all_set.7 in rw (r, host, known, port) refl
