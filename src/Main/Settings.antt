-- ===== src/Main/Settings.antt =====
-- cmd/main.go: what the settings of the flags come to.
use node_updater.Base.Int.{ℤ, pos, negsuc}
use node_updater.Main.{
  seconds, new_config, to_int64, Flags, billions, manager_options, configured, CertFiles,
  apply_option, TlsConfig, metrics_files, with_watcher, tls_opts, webhook_files, watcher,
}
use node_updater.Base.{String, ◌≡◌, ◌≤◌, arith, ◌<◌, if◌then◌else◌, ◌∷◌, [], ◌!=◌, some, refl}

-- What a `time.Duration` in nanoseconds can hold, in whole seconds.
abbrev pub IsExact : ℤ → Type 0
IsExact (pos n) = n ≤ 9223372036
IsExact (negsuc n) = n < 9223372036

seconds_lem : (n : ℤ) → IsExact n → seconds n ≡ billions n
unfolding seconds to_int64
seconds_lem (pos n) h = ground arith
seconds_lem (negsuc n) h = ground arith

-- Each of the three times is exact if it is at most 9223372036 seconds, about 292 years, in either
-- direction: the product with the nanoseconds of a second does not wrap around.
pub new_config-exact :
    (flags : Flags)
    → IsExact flags.error_reconcile_time
    → IsExact flags.success_reconcile_time
    → IsExact flags.upgrade_frequency
    → new_config flags ≡ record {
      error_reconcile_time = billions flags.error_reconcile_time;
      success_reconcile_time = billions flags.success_reconcile_time;
      upgrade_frequency = billions flags.upgrade_frequency;
    }
unfolding new_config
new_config-exact flags e s u = simp (seconds_lem _ e, seconds_lem _ s, seconds_lem _ u) refl

-- What a server is to have: HTTP/2 only if it is asked for, and the certificate of the directory
-- that is given, if any.
abbrev pub wanted_tls : Flags → String → String → String → TlsConfig → TlsConfig
wanted_tls flags directory certificate key config = record {
  next_protos = if flags.enable_http2 then config.next_protos else "http/1.1" ∷ [];
  certificate =
      if directory != ""
      then some (record { directory = directory; certificate = certificate; key = key })
      else config.certificate;
}

configured_lem :
    (flags : Flags) (files : CertFiles) (config : TlsConfig)
    → configured (with_watcher (tls_opts flags) (watcher files)) config
      ≡ wanted_tls flags files.directory files.certificate files.key config
unfolding configured apply_option with_watcher tls_opts watcher
configured_lem flags files config = ground arith

-- Both servers speak only HTTP/1.1 unless HTTP/2 is enabled, and then keep their protocols. The
-- metrics server serves the certificate at `metrics-cert-path`, by the names of the flags for the
-- metrics, and the webhook server that at `webhook-cert-path`, by the names of its own flags, if
-- the path is not empty; else a server keeps its certificate.
pub manager_options-tls :
    (flags : Flags) (config : TlsConfig)
    → let options = manager_options flags in
      (configured options.metrics.tls config
        ≡ wanted_tls flags flags.metrics_cert_path flags.metrics_cert_name flags.metrics_cert_key
            config)
      × (configured options.webhook_tls config
          ≡ wanted_tls flags flags.webhook_cert_path flags.webhook_cert_name flags.webhook_cert_key
              config)
unfolding manager_options
manager_options-tls flags config = (
  configured_lem flags (metrics_files flags) config,
  configured_lem flags (webhook_files flags) config,
)
