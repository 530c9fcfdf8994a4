-- ===== src/Main.antt =====
-- cmd/main.go: the settings that the flags give, and what is built from them.
pub mod Boot
pub mod Refined
pub mod Settings
pub mod Steps
use node_updater.Base.{
  ℕ, String, ◌!=◌, Bool, true, false, List, [], ◌∷◌, ◌++◌, ◌+◌, ◌-◌, ◌*◌, ◌%◌, ◌^◌, zero, suc, ltb,
  if◌then◌else◌, Option, some, none,
}
use node_updater.Base.Int.{ℤ, pos, negsuc}
use node_updater.Controller.Defs.{Config}

-- The variables behind the flags.
pub record Flags : Type 0 where
  pub metrics_addr : String
  pub probe_addr : String
  pub enable_leader_election : Bool
  pub secure_metrics : Bool
  pub webhook_cert_path : String
  pub webhook_cert_name : String
  pub webhook_cert_key : String
  pub metrics_cert_path : String
  pub metrics_cert_name : String
  pub metrics_cert_key : String
  pub enable_http2 : Bool
  pub error_reconcile_time : ℤ
  pub success_reconcile_time : ℤ
  pub upgrade_frequency : ℤ
  pub run_in_vs_code : Bool
  pub log_level : ℤ

-- What the variables hold from their registration until `flag.Parse` runs.
abbrev pub default_flags : Flags
default_flags = record {
  metrics_addr = "0";
  probe_addr = ":8081";
  enable_leader_election = false;
  secure_metrics = true;
  webhook_cert_path = "";
  webhook_cert_name = "tls.crt";
  webhook_cert_key = "tls.key";
  metrics_cert_path = "";
  metrics_cert_name = "tls.crt";
  metrics_cert_key = "tls.key";
  enable_http2 = false;
  error_reconcile_time = pos 10;
  success_reconcile_time = pos 10;
  upgrade_frequency = pos 3600;
  run_in_vs_code = false;
  log_level = pos 1;
}

pub data ZapLevel : Type 0 where
  debug_level info_level warn_level error_level : ZapLevel

unfoldable pub zap_level : ℤ → ZapLevel
zap_level (pos zero) = debug_level
zap_level (pos (suc zero)) = info_level
zap_level (pos (suc (suc zero))) = warn_level
zap_level (pos (suc (suc (suc zero)))) = error_level
zap_level _ = info_level

-- An `int64` keeps the low 64 bits.
unfoldable pub to_int64 : ℤ → ℤ
to_int64 (pos n) = let r = n % 2 ^ 64 in if ltb r (2 ^ 63) then pos r else negsuc (2 ^ 64 - 1 - r)
to_int64 (negsuc n) =
    let r = n % 2 ^ 64 in if ltb r (2 ^ 63) then negsuc r else pos (2 ^ 64 - 1 - r)

abbrev pub nanoseconds : ℕ
nanoseconds = 1000000000

-- The product with 10^9, as an integer.
abbrev pub billions : ℤ → ℤ
billions (pos n) = pos (n * nanoseconds)
billions (negsuc n) = negsuc (n * nanoseconds + (nanoseconds - 1))

-- `time.Duration(n)*time.Second`
unfoldable pub seconds : ℤ → ℤ
seconds n = to_int64 (billions n)

unfoldable pub new_config : Flags → Config
new_config flags = record {
  error_reconcile_time = seconds flags.error_reconcile_time;
  success_reconcile_time = seconds flags.success_reconcile_time;
  upgrade_frequency = seconds flags.upgrade_frequency;
}

-- The files of a certificate: `filepath.Join` of the directory with either name.
pub record CertFiles : Type 0 where
  pub directory : String
  pub certificate : String
  pub key : String

-- A function that changes the TLS settings of a server.
pub data TlsOption : Type 0 where
  only_http1 : TlsOption
  watched : CertFiles → TlsOption

-- What the options change of a server's settings: `NextProtos`, and the certificate's source.
pub record TlsConfig : Type 0 where
  pub next_protos : List String
  pub certificate : Option CertFiles

unfoldable pub apply_option : TlsOption → TlsConfig → TlsConfig
apply_option only_http1 config = record config { next_protos = "http/1.1" ∷ [] }
apply_option (watched files) config = record config { certificate = some files }

-- What the options make of the settings when they are applied in order.
unfoldable pub configured : List TlsOption → TlsConfig → TlsConfig
configured [] config = config
configured (opt ∷ opts) config = configured opts (apply_option opt config)

pub record MetricsOptions : Type 0 where
  pub bind_address : String
  pub secure_serving : Bool
  pub authorized : Bool
  pub tls : List TlsOption

pub record ManagerOptions : Type 0 where
  pub metrics : MetricsOptions
  pub webhook_tls : List TlsOption
  pub health_probe_address : String
  pub leader_election : Bool
  pub leader_election_id : String

unfoldable pub tls_opts : Flags → List TlsOption
tls_opts flags = if flags.enable_http2 then [] else only_http1 ∷ []

abbrev pub webhook_files : Flags → CertFiles
webhook_files flags = record {
  directory = flags.webhook_cert_path;
  certificate = flags.webhook_cert_name;
  key = flags.webhook_cert_key;
}

abbrev pub metrics_files : Flags → CertFiles
metrics_files flags = record {
  directory = flags.metrics_cert_path;
  certificate = flags.metrics_cert_name;
  key = flags.metrics_cert_key;
}

-- The watcher of a certificate, nil where no directory is given.
unfoldable pub watcher : CertFiles → Option CertFiles
watcher files = if files.directory != "" then some files else none

unfoldable pub with_watcher : List TlsOption → Option CertFiles → List TlsOption
with_watcher opts none = opts
with_watcher opts (some files) = opts ++ watched files ∷ []

unfoldable pub manager_options : Flags → ManagerOptions
manager_options flags = record {
  metrics = record {
    bind_address = flags.metrics_addr;
    secure_serving = flags.secure_metrics;
    authorized = flags.secure_metrics;
    tls = with_watcher (tls_opts flags) (watcher (metrics_files flags));
  };
  webhook_tls = with_watcher (tls_opts flags) (watcher (webhook_files flags));
  health_probe_address = flags.probe_addr;
  leader_election = flags.enable_leader_election;
  leader_election_id = "a3a1ffc7.norbinto";
}
