-- ===== src/Protocol/Ports.antt =====
-- internal/transform/protocol/tcp_udp.go: port numbers, and the port at the end of a name.
pub mod Names
pub mod RoundTrip
use pangolin_kube_controller.Prelude.{
  ℕ, zero, suc, ◌+◌, Bool, ◌||◌, Option, none, some, [], ◌∷◌, ◌++◌, ltb, ◌==◌, drop, length,
  if◌then◌else◌, ℤ, pos, negsuc,
}
use pangolin_kube_controller.Text.{Text, codes, last_index}
use pangolin_kube_controller.Text.Decimal.{parse_int, format}
use pangolin_kube_controller.Result.{
  Result, ok, err, bad_number, invalid_port, no_port_suffix, inconsistent_ports,
}

-- `if v <= 0 || v > 65535`
check_port : Option ℤ → Result ℕ
check_port none = err bad_number
check_port (some (pos v)) = if v == 0 || ltb 65535 v then err invalid_port else ok v
check_port (some (negsuc v)) = err invalid_port

-- parsePort32
unfoldable pub parse_port32 : Text → Result ℕ
unfolding check_port
parse_port32 s = check_port (parse_int 31 s)

-- The guard of `derivePortFromName` on the last dash, and the port behind it.
port_behind : Text → Option ℕ → Result ℕ
port_behind kube_name none = err no_port_suffix
port_behind kube_name (some idx) =
    if idx == 0 || idx + 1 == length kube_name
    then err no_port_suffix
    else parse_port32 (drop (idx + 1) kube_name)

-- derivePortFromName
unfoldable pub derive_port_from_name : Text → Result ℕ
unfolding port_behind
derive_port_from_name kube_name = port_behind kube_name (last_index b'-' kube_name)

-- setOrValidatePort; 0 is the port that is not set yet.
unfoldable pub set_or_validate_port : ℕ → ℕ → Result ℕ
set_or_validate_port existing candidate =
    if existing == 0
    then ok candidate
    else if candidate == existing
    then ok existing
    else err inconsistent_ports

-- fmt.Sprintf("%s-%d", dyn, port)
unfoldable pub name_with_port : Text → ℕ → Text
name_with_port dyn port = dyn ++ (b'-' ∷ format port)
