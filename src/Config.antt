-- ===== src/Config.antt =====
-- crates/common/src/config.rs: the configuration of a server and of a client, with the defaults of
-- the fields that a file may leave out.
use gpustat4cluster.Base.{ℕ, Bool, true, false, Option, none, List, []}
use gpustat4cluster.Base.Text.{Text, text}

pub record ConnectingConfig : Type 0 where
  pub port_range : ℕ × ℕ
  pub multicast_addr : Text
  pub tcp_port : ℕ
  pub udp_port : ℕ
  pub udp_mtu : ℕ
  pub protocol : Text
  pub heartbeat_interval : ℕ
  pub connection_idle_timeout : ℕ
  pub max_connections : ℕ
  pub discover_wait_secs : ℕ
  pub multicast_retry_limit : ℕ
  pub multicast_outbound_ip : List Text

pub record LogConfig : Type 0 where
  pub max_size : Text

pub record ServicesConfig : Type 0 where
  pub cache_ttl_ms : ℕ
  pub collector_interval_ms : ℕ
  pub latency_display : Bool
  pub uds_path : Option Text

pub record RuntimeConfig : Type 0 where
  pub nvml_lib_path : Option Text
  pub test_inventory_path : Option Text
  pub test_runtime_path : Option Text
  pub test_inventory_reload : Bool

pub record Config : Type 0 where
  pub connecting : ConnectingConfig
  pub log : LogConfig
  pub services : ServicesConfig
  pub runtime : RuntimeConfig

abbrev pub default_heartbeat_interval_secs : ℕ
default_heartbeat_interval_secs = 5

abbrev pub default_connection_idle_timeout_secs : ℕ
default_connection_idle_timeout_secs = 10

abbrev pub default_max_connections : ℕ
default_max_connections = 64

abbrev pub default_protocol : Text
default_protocol = text "udp"

abbrev pub default_tcp_port : ℕ
default_tcp_port = 0

abbrev pub default_udp_port : ℕ
default_udp_port = 0

abbrev pub default_udp_mtu : ℕ
default_udp_mtu = 0

abbrev pub default_discover_wait_secs : ℕ
default_discover_wait_secs = 5

abbrev pub default_multicast_retry_limit : ℕ
default_multicast_retry_limit = 5

abbrev pub default_log_max_size : Text
default_log_max_size = text "5mb"

abbrev pub default_cache_ttl_ms : ℕ
default_cache_ttl_ms = 40

abbrev pub default_collector_interval_ms : ℕ
default_collector_interval_ms = 25

abbrev pub default_latency_display : Bool
default_latency_display = true

-- What a file that gives the ports, the multicast address and no more is read as.
abbrev pub least_config : ℕ × ℕ → Text → Config
least_config ports addr = record {
  connecting = record {
    port_range = ports;
    multicast_addr = addr;
    tcp_port = default_tcp_port;
    udp_port = default_udp_port;
    udp_mtu = default_udp_mtu;
    protocol = default_protocol;
    heartbeat_interval = default_heartbeat_interval_secs;
    connection_idle_timeout = default_connection_idle_timeout_secs;
    max_connections = default_max_connections;
    discover_wait_secs = default_discover_wait_secs;
    multicast_retry_limit = default_multicast_retry_limit;
    multicast_outbound_ip = [];
  };
  log = record { max_size = default_log_max_size };
  services = record {
    cache_ttl_ms = default_cache_ttl_ms;
    collector_interval_ms = default_collector_interval_ms;
    latency_display = default_latency_display;
    uds_path = none;
  };
  runtime = record {
    nvml_lib_path = none;
    test_inventory_path = none;
    test_runtime_path = none;
    test_inventory_reload = false;
  };
}
