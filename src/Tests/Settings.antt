-- ===== src/Tests/Settings.antt =====
-- Configurations at concrete inputs.
use gpustat4cluster.Base.{ℕ, ◌≡◌, ◌↔◌, refl, ltb, false, some, none, [], ◌∷◌, ◌++◌, ok, arith}
use gpustat4cluster.Base.Bytes.{bytes_eq}
use gpustat4cluster.Base.Text.{text}
use gpustat4cluster.Base.Scan.{to_ascii_lowercase, is_digit}
use gpustat4cluster.Base.Scan.Digits.{decimal}
use gpustat4cluster.Config.{least_config}
use gpustat4cluster.Server.Startup.{Resolver, validate_config, parse_log_size_bytes, multiplier}
use gpustat4cluster.Server.Startup.Valid.{IsRunnable, validate_config_lem}
use gpustat4cluster.Server.Startup.LogSize.{parse_log_size_bytes-decimal}

-- Every name is resolved to one address, which is a multicast one.
abbrev resolver : Resolver
resolver = record {
  SocketAddr = ℕ;
  Ipv4Addr = ℕ;
  to_socket_addrs = λ raw. some (224 ∷ []);
  is_multicast = λ addr. ltb 223 addr;
  parse_ipv4 = λ raw. none;
}

validate_config_lem_example :
    (validate_config resolver (least_config (4000, 4010) (text "239.0.0.1:7000")) ≡ ok tt)
    ↔ IsRunnable resolver (least_config (4000, 4010) (text "239.0.0.1:7000"))
validate_config_lem_example =
    validate_config_lem resolver (least_config (4000, 4010) (text "239.0.0.1:7000"))

megabytes : multiplier (to_ascii_lowercase (text "MB")) ≡ some 1048576
unfolding multiplier to_ascii_lowercase bytes_eq
megabytes = refl

not_a_digit : is_digit b'M' ≡ false
not_a_digit = refl

parse_log_size_bytes-decimal_example : parse_log_size_bytes (decimal 5 ++ text "MB") ≡ ok 5242880
parse_log_size_bytes-decimal_example =
    parse_log_size_bytes-decimal 5 1048576 b'M' (b'B' ∷ []) (omega arith) (omega arith) not_a_digit
      megabytes (omega arith) (omega arith)
