-- ===== src/Tests/Configs.antt =====
-- A configuration with one domain and one peer.
use bg_pls.Base.{
  ◌≡◌, ◌↔◌, refl, Text, text, Option, none, some, [], ◌∷◌, Bool, true, false, ◌==◌, text_eq,
  if◌then◌else◌,
}
use bg_pls.Configuration.{Config, pos, validate}
use bg_pls.Configuration.Valid.{IsValid, validate_iff}

abbrev before_colon : Text → Text × Bool
before_colon [] = ([], false)
before_colon (b ∷ bs) =
    let (host, found) = before_colon bs in if b == 58 then ([], true) else (b ∷ host, found)

abbrev as_ip : Text → Option Text
as_ip [] = none
as_ip (b ∷ bs) = some (b ∷ bs)

abbrev one_peer_config : Config
one_peer_config = record {
  data_dir = text "/data";
  api = record {
    listen = text "127.0.0.1:7443";
    ui_listen = [];
    tls = record {
      certificate = [];
      private_key = [];
      client_cas = [];
      development_insecure = true;
      allow_anonymous_reader = false;
    };
    rbac = [];
    metrics_listen = [];
  };
  bgp = record { router_id = text "127.0.0.1"; listen_port = pos 179; listen_addresses = [] };
  retention = record { duration = pos 5; duration_text = text "5ns"; max_bytes = 1 };
  domains = record { id = text "d"; name = []; description = [] } ∷ [];
  peers =
      record {
        id = text "p";
        domain_id = text "d";
        name = [];
        remote_address = text "10.0.0.1";
        local_address = [];
        local_as = 64512;
        remote_as = 64513;
        source_preference = 0;
        enabled = none;
        passive = false;
        ebgp_multihop = false;
        multihop_ttl = 0;
        gtsm = false;
        tcp_md5_secret = [];
      }
      ∷ [];
}

abbrev is_home : Text → Bool
is_home ip = text_eq ip (text "127.0.0.1")

config_accepted : validate before_colon as_ip is_home one_peer_config ≡ []
unfolding validate text_eq
config_accepted = refl

validate_iff_example :
    (validate before_colon as_ip is_home one_peer_config ≡ [])
    ↔ IsValid before_colon as_ip is_home one_peer_config
validate_iff_example = validate_iff before_colon as_ip is_home one_peer_config
