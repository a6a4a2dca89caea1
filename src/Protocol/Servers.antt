-- ===== src/Protocol/Servers.antt =====
-- internal/transform/protocol/tcp_udp.go: the servers of a load balancer, and their addresses.
pub mod Laws
pub mod Families
use pangolin_kube_controller.Prelude.{
  ℕ, Bool, true, false, not, ◌&&◌, ◌||◌, Option, none, some, List, [], ◌∷◌, ◌++◌, is_empty,
  if◌then◌else◌, or_else,
}
use pangolin_kube_controller.Text.{Text, codes, trim_space, has_prefix}
use pangolin_kube_controller.Result.{
  Result, ok, err, ◌>>=◌, missing_load_balancer, no_servers, invalid_server, missing_address,
  bad_address, missing_port, mixed_families,
}
use pangolin_kube_controller.Json.{
  Value, obj, Fields, Codec, get, as_str, as_arr, as_obj, values, fields_of, unmarshal_map,
}
use pangolin_kube_controller.Protocol.Ports.{parse_port32, set_or_validate_port}

-- What the program reads of a *url.URL; `hostname` and `port` are its methods.
pub record Url : Type 0 where
  pub scheme : Text
  pub host : Text
  pub hostname : Text
  pub port : Text
  pub path : Text
  pub raw_query : Text

-- What `net.ParseIP(…)`.To4() tells of an address.
pub data IpFamily : Type 0 where
  ipv4 ipv6 : IpFamily

-- The packages `net` and `net/url` of the standard library.
pub record NetLib : Type 0 where
  pub parse_url : Text → Option Url
  pub parse_request_uri : Text → Option Url
  pub split_host_port : Text → Option (Text × Text)
  pub parse_ip : Text → Option IpFamily

-- loadBalancerServers
unfoldable pub load_balancer_servers : Fields → Result (List Value)
load_balancer_servers o = elim (as_obj (get (codes "loadBalancer") o)) [
  | none ↦ err missing_load_balancer
  | some lb ↦ elim (as_arr (get (codes "servers") lb)) [
    | none ↦ err no_servers
    | some srvs ↦ if is_empty (values srvs) then err no_servers else ok (values srvs)
  ]
]

-- pickServerAddress; "" stands for no address
unfoldable pub pick_server_address : Fields → Text
pick_server_address server =
    let addr = or_else (as_str (get (codes "address") server)) [] in
    let u = or_else (as_str (get (codes "url") server)) [] in if is_empty addr then u else addr

-- A host with the text of its port.
abbrev pub with_port : Text → Text → Result (Text × ℕ)
with_port host raw_port =
    if is_empty raw_port then err missing_port else do p ← parse_port32 raw_port; ok (host, p)

abbrev pub url_host_port : Option Url → Result (Text × ℕ)
url_host_port none = err bad_address
url_host_port (some u) = with_port u.hostname u.port

abbrev pub plain_host_port : Option (Text × Text) → Result (Text × ℕ)
plain_host_port none = err bad_address
plain_host_port (some (h, p)) = with_port h p

abbrev pub is_web : Text → Bool
is_web s = has_prefix s (codes "http://") || has_prefix s (codes "https://")

module _ (net : NetLib) where
  -- splitHostPortFlexible
  unfoldable pub split_host_port_flexible : Text → Result (Text × ℕ)
  split_host_port_flexible address =
      let s = trim_space address in
      if is_web s then url_host_port (net.parse_url s) else plain_host_port (net.split_host_port s)

  -- One round of `extractLBAddressesPort`
  unfoldable pub server_address : Value → Result (Text × ℕ)
  server_address (obj m) =
      let addr = pick_server_address m in
      if is_empty addr then err missing_address else split_host_port_flexible addr
  server_address _ = err invalid_server

  unfoldable pub collect_addresses : List Value → List Text → ℕ → Result (List Text × ℕ)
  collect_addresses [] hosts port = ok (hosts, port)
  collect_addresses (s ∷ srvs) hosts port = do
    hp ← server_address s
    port' ← set_or_validate_port port hp.1
    collect_addresses srvs (hosts ++ hp.0 ∷ []) port'

-- discoveryv1.AddressType
pub data AddressType : Type 0 where
  address_ipv4 address_ipv6 address_fqdn : AddressType

abbrev is_v4 : IpFamily → Bool
is_v4 ipv4 = true
is_v4 ipv6 = false

module _ (net : NetLib) where
  -- The loop of `chooseAddressType`, with its variables seenIPv4 and seenIPv6.
  unfoldable pub address_type_from : List Text → Bool → Bool → Result AddressType
  address_type_from [] seen4 seen6 = ok (if seen4 then address_ipv4 else address_ipv6)
  address_type_from (h ∷ hosts) seen4 seen6 = elim (net.parse_ip h) [
    | none ↦ ok address_fqdn
    | some ip ↦
        let seen4' = seen4 || is_v4 ip in
        let seen6' = seen6 || not (is_v4 ip) in
        if seen4' && seen6' then err mixed_families else address_type_from hosts seen4' seen6'
  ]

  -- chooseAddressType
  unfoldable pub choose_address_type : List Text → Result AddressType
  unfolding address_type_from
  choose_address_type [] = ok address_fqdn
  choose_address_type (h ∷ hosts) = address_type_from (h ∷ hosts) false false

module _ (net : NetLib) (codec : Codec) where
  unfoldable pub extract_lb_addresses_port : Text → Result (List Text × ℕ)
  unfolding load_balancer_servers collect_addresses
  extract_lb_addresses_port raw = do
    v ← unmarshal_map codec raw
    srvs ← load_balancer_servers (fields_of v)
    collect_addresses net srvs [] 0
