-- ===== src/Main/Options.antt =====
-- The command line's flags and the options that `main` makes of them.
use ansible_operator.Base.{String, Bool, true, false, not, List, [], ◌∷◌, if◌then◌else◌, ◌==◌}
use ansible_operator.Manager.{TlsConfig, MetricsServerOptions, WebhookServerOptions, ManagerOptions}

-- the variables of `main` after `flag.Parse`
pub record Flags : Type 0 where
  pub metrics_addr : String
  pub probe_addr : String
  pub enable_leader_election : Bool
  pub secure_metrics : Bool
  pub webhook_cert_path : String
  pub webhook_cert_name : String
  pub webhook_cert_key : String
  pub metrics_cert_path : String
  pub metrics_cert_name : String
  pub metrics_cert_key : String
  pub enable_http2 : Bool

-- what they are where the command line is empty
abbrev pub default_flags : Flags
default_flags = record {
  metrics_addr = "0";
  probe_addr = ":8081";
  enable_leader_election = false;
  secure_metrics = true;
  webhook_cert_path = "";
  webhook_cert_name = "tls.crt";
  webhook_cert_key = "tls.key";
  metrics_cert_path = "";
  metrics_cert_name = "tls.crt";
  metrics_cert_key = "tls.key";
  enable_http2 = false;
}

unfoldable pub disable_http2 : TlsConfig → TlsConfig
disable_http2 c = record c { next_protos = "http/1.1" ∷ [] }

unfoldable pub tls_opts : Flags → List (TlsConfig → TlsConfig)
unfolding disable_http2
tls_opts flags = if not flags.enable_http2 then disable_http2 ∷ [] else []

unfoldable pub webhook_server_options : Flags → WebhookServerOptions
unfolding tls_opts
webhook_server_options flags =
    let bare : WebhookServerOptions = record {
      webhook_tls_opts = tls_opts flags;
      webhook_cert_dir = "";
      webhook_cert_name = "";
      webhook_key_name = "";
    } in
    if flags.webhook_cert_path == "" then bare else record bare {
      webhook_cert_dir = flags.webhook_cert_path;
      webhook_cert_name = flags.webhook_cert_name;
      webhook_key_name = flags.webhook_cert_key;
    }

unfoldable pub metrics_server_options : Flags → MetricsServerOptions
unfolding tls_opts
metrics_server_options flags =
    let bare : MetricsServerOptions = record {
      bind_address = flags.metrics_addr;
      secure_serving = flags.secure_metrics;
      tls_opts = tls_opts flags;
      authenticates = if flags.secure_metrics then true else false;
      cert_dir = "";
      cert_name = "";
      key_name = "";
    } in
    if flags.metrics_cert_path == "" then bare else record bare {
      cert_dir = flags.metrics_cert_path;
      cert_name = flags.metrics_cert_name;
      key_name = flags.metrics_cert_key;
    }

unfoldable pub manager_options : Flags → ManagerOptions
unfolding webhook_server_options metrics_server_options
manager_options flags = record {
  metrics = metrics_server_options flags;
  webhook_server = webhook_server_options flags;
  health_probe_bind_address = flags.probe_addr;
  leader_election = flags.enable_leader_election;
  leader_election_id = "81e18e54.lightjack.de";
}
