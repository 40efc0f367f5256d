-- ===== src/Configuration.antt =====
-- internal/config/config.go: the configuration file, its defaults and its validation. Reading the
-- file, YAML, paths, durations and `net` are arguments.
pub mod Valid
use bg_pls.Base.{
  ℕ, ◌*◌, ◌^◌, Text, text, Option, none, some, List, [], ◌∷◌, ◌++◌, Bool, true, false, not, ◌&&◌,
  ◌||◌, ◌==◌, any, map, text_eq, is_empty, if◌then◌else◌,
}
use bg_pls.Base.Fallible.{Fallible, ok, err, require, ◌>>=◌}
use bg_pls.Entities.{Domain, Peer, PeerSessionState}
use bg_pls.Api.Filter.{no_entries}

-- `int32` and `time.Duration`.
pub data ℤ : Type 0 where
  pos : ℕ → ℤ
  negsuc : ℕ → ℤ

pub record RoleMapping : Type 0 where
  pub role : Text
  pub uri_sans : List Text
  pub dns_sans : List Text

pub record Tls : Type 0 where
  pub certificate : Text
  pub private_key : Text
  pub client_cas : List Text
  pub development_insecure : Bool
  pub allow_anonymous_reader : Bool

pub record Api : Type 0 where
  pub listen : Text
  pub ui_listen : Text
  pub tls : Tls
  pub rbac : List RoleMapping
  pub metrics_listen : Text

pub record Bgp : Type 0 where
  pub router_id : Text
  pub listen_port : ℤ
  pub listen_addresses : List Text

pub record Retention : Type 0 where
  pub duration : ℤ
  pub duration_text : Text
  pub max_bytes : ℕ

pub record DomainConfig : Type 0 where
  pub id : Text
  pub name : Text
  pub description : Text

pub record PeerConfig : Type 0 where
  pub id : Text
  pub domain_id : Text
  pub name : Text
  pub remote_address : Text
  pub local_address : Text
  pub local_as : ℕ
  pub remote_as : ℕ
  pub source_preference : ℕ
  pub enabled : Option Bool
  pub passive : Bool
  pub ebgp_multihop : Bool
  pub multihop_ttl : ℕ
  pub gtsm : Bool
  pub tcp_md5_secret : Text

pub record Config : Type 0 where
  pub data_dir : Text
  pub api : Api
  pub bgp : Bgp
  pub retention : Retention
  pub domains : List DomainConfig
  pub peers : List PeerConfig

-- `Default`; a duration is in nanoseconds.
unfoldable pub default_config : Config
default_config = record {
  data_dir = text "./data";
  api = record {
    listen = text "127.0.0.1:7443";
    ui_listen = [];
    tls = record {
      certificate = [];
      private_key = [];
      client_cas = [];
      development_insecure = false;
      allow_anonymous_reader = false;
    };
    rbac = [];
    metrics_listen = text "127.0.0.1:9090";
  };
  bgp = record { router_id = text "127.0.0.1"; listen_port = negsuc 0; listen_addresses = [] };
  retention = record {
    duration = pos (30 * (24 * (3600 * 1000000000)));
    duration_text = text "720h";
    max_bytes = 50 * 2 ^ 30;
  };
  domains = [];
  peers = [];
}

pub data ConfigError : Type 0 where
  data_dir_required api_listen api_ui_listen insecure_not_loopback tls_required : ConfigError
  duration_not_positive max_bytes_zero domain_id_required peer_id_required : ConfigError
  duplicate_domain duplicate_peer invalid_remote_address as_zero : Text → ConfigError
  unknown_domain : Text → Text → ConfigError

-- `if problem { errs = append(errs, e) }`
unfoldable pub report : Bool → ConfigError → List ConfigError
report problem e = if problem then e ∷ [] else []

abbrev pub among : Text → List Text → Bool
among id seen = any (λ s. text_eq s id) seen

unfoldable pub is_positive : ℤ → Bool
is_positive (pos n) = not (n == 0)
is_positive (negsuc n) = false

-- The loop over the domains; `seen` holds the keys of the map `domains`.
unfoldable pub domain_errors : List Text → List DomainConfig → List ConfigError
unfolding report
domain_errors seen [] = []
domain_errors seen (d ∷ ds) =
    report (is_empty d.id) domain_id_required
    ++ (report (among d.id seen) (duplicate_domain d.id) ++ domain_errors (d.id ∷ seen) ds)

-- `net.SplitHostPort` gives the host and whether the address is good, `net.ParseIP` an address or
-- nil, of which `IsLoopback` is asked.
module _ {Ip : Type 0} (split_host_port : Text → Text × Bool) (parse_ip : Text → Option Ip)
    (is_loopback : Ip → Bool) where
  abbrev pub has_ip : Text → Bool
  has_ip address = elim (parse_ip address) [ none ↦ false | some _ ↦ true ]

  unfoldable pub peer_errors : List Text → List Text → List PeerConfig → List ConfigError
  unfolding report
  peer_errors domains seen [] = []
  peer_errors domains seen (p ∷ ps) =
      report (is_empty p.id) peer_id_required
      ++ (report (among p.id seen) (duplicate_peer p.id)
          ++ (report (not (among p.domain_id domains)) (unknown_domain p.id p.domain_id)
              ++ (report (not (has_ip p.remote_address)) (invalid_remote_address p.id)
                  ++ (report (p.local_as == 0 || p.remote_as == 0) (as_zero p.id)
                      ++ peer_errors domains (p.id ∷ seen) ps))))

  unfoldable pub binds_loopback : Text → Bool
  binds_loopback listen =
      let host = (split_host_port listen).0 in
      text_eq host (text "localhost")
      || elim (parse_ip host) [ none ↦ false | some ip ↦ is_loopback ip ]

  unfoldable pub tls_errors : Api → List ConfigError
  unfolding report binds_loopback
  tls_errors api =
      if api.tls.development_insecure
      then report (not (binds_loopback api.listen)) insecure_not_loopback
      else report
          (is_empty api.tls.certificate
            || is_empty api.tls.private_key
            || no_entries api.tls.client_cas)
          tls_required

  -- `errors.Join` of no errors is nil.
  unfoldable pub validate : Config → List ConfigError
  unfolding report is_positive domain_errors peer_errors tls_errors
  validate c =
      report (is_empty c.data_dir) data_dir_required
      ++ (report (not (split_host_port c.api.listen).1) api_listen
          ++ (report (not (is_empty c.api.ui_listen) && not (split_host_port c.api.ui_listen).1)
                api_ui_listen
              ++ (tls_errors c.api
                  ++ (report (not (is_positive c.retention.duration)) duration_not_positive
                      ++ (report (c.retention.max_bytes == 0) max_bytes_zero
                          ++ (domain_errors [] c.domains
                              ++ peer_errors (map (λ d. d.id) c.domains) [] c.peers))))))

  pub data LoadError : Type 0 where
    unreadable unparsable bad_duration : LoadError
    invalid : List ConfigError → LoadError

  -- `Load`: what it answers is a configuration and an error, of which only a nil one lets the caller
  -- go on. `read_file`, `unmarshal` into the defaults and `parse_duration` may fail.
  module _ (read_file : Text → Option Text) (unmarshal : Text → Config → Option Config)
      (parse_duration : Text → Option ℤ) (is_abs : Text → Bool)
      (join_base : Text → Text → Text) where
    unfoldable pub resolve_dir : Text → Config → Config
    resolve_dir path c =
        if is_abs c.data_dir then c else record c { data_dir = join_base path c.data_dir }

    unfoldable pub set_duration : Config → Option Config
    set_duration c =
        if is_empty c.retention.duration_text
        then some c
        else elim (parse_duration c.retention.duration_text) [
          | none ↦ none
          | some d ↦ some (record c { retention = record c.retention { duration = d } })
        ]

    unfoldable pub load : Text → Fallible LoadError Config
    unfolding default_config resolve_dir set_duration validate
    load path = do
      bytes ← require unreadable (read_file path)
      parsed ← require unparsable (unmarshal bytes default_config)
      timed ← require bad_duration (set_duration parsed)
      let c = resolve_dir path timed
      if no_entries (validate c) then ok c else err (invalid (validate c))

unfoldable pub domain_proto : DomainConfig → Domain
domain_proto d = record { id = d.id; name = d.name; description = d.description; revision = 0 }

unfoldable pub peer_proto : PeerConfig → Peer
peer_proto p = record {
  id = p.id;
  domain_id = p.domain_id;
  name = p.name;
  remote_address = p.remote_address;
  local_address = p.local_address;
  local_as = p.local_as;
  remote_as = p.remote_as;
  source_preference = p.source_preference;
  enabled = elim p.enabled [ none ↦ true | some b ↦ b ];
  passive = p.passive;
  ebgp_multihop = p.ebgp_multihop;
  multihop_ttl = p.multihop_ttl;
  gtsm = p.gtsm;
  tcp_md5_secret = p.tcp_md5_secret;
  session_state = PeerSessionState.idle;
  router_id = [];
  established_at = none;
  last_state_change = none;
  last_error = [];
  received_updates = 0;
  rejected_updates = 0;
  resource_version = 0;
  capabilities = [];
}
