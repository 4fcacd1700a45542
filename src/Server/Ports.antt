-- ===== src/Server/Ports.antt =====
-- crates/server/src/main.rs: the choice of ports.
pub mod Picked
use gpustat4cluster.Base.{
  ℕ, zero, suc, ◌+◌, ◌-◌, ◌%◌, ◌||◌, ltb, ◌==◌, if◌then◌else◌, Bool, true, false, Option, none,
  some, List, [], ◌∷◌, Result, ok, err,
}
use gpustat4cluster.ErrorCode.{ErrorCode, config_invalid, port_exhausted}

-- Errors are their codes, without texts.
unfoldable pub validate_port_range : ℕ × ℕ → Result (Unit {0}) ErrorCode
validate_port_range (start, end) =
    if start == 0 || end == 0 || ltb end start then err config_invalid else ok tt

-- The candidates from number `idx` on, `rounds` of them.
unfoldable pub candidates_from : ℕ → ℕ → ℕ → ℕ → ℕ → List ℕ
candidates_from start count offset zero idx = []
candidates_from start count offset (suc rounds) idx =
    (start + (offset + idx) % count) ∷ candidates_from start count offset rounds (idx + 1)

-- The nanoseconds of the clock are an argument.
unfoldable pub port_candidates : ℕ × ℕ → ℕ → List ℕ
port_candidates (start, end) nanos =
    let count = end - start + 1 in candidates_from start count (nanos % count) count 0

unfoldable pub is_excluded : ℕ → Option ℕ → Bool
is_excluded port none = false
is_excluded port (some excluded) = port == excluded

-- Whether `bind` succeeds for a port is an argument.
module _ (is_free : ℕ → Bool) (exclude : Option ℕ) where
  -- The loop over the candidates.
  unfoldable pub first_free : List ℕ → Result ℕ ErrorCode
  first_free [] = err port_exhausted
  first_free (port ∷ rest) =
      let later = first_free rest in
      if is_excluded port exclude then later else if is_free port then ok port else later

  -- `pick_udp_port_excluding`, and `pick_tcp_port`, which has the same body for TCP
  unfoldable pub pick_port : ℕ × ℕ → ℕ → ℕ → Result ℕ ErrorCode
  pick_port range requested nanos =
      let any = first_free (port_candidates range nanos) in
      if requested == 0
      then any
      else if is_excluded requested exclude
      then err port_exhausted
      else if is_free requested
      then ok requested
      else err port_exhausted
