-- ===== src/Protocol/Servers/Laws.antt =====
-- Which servers `extractLBAddressesPort` accepts, and how the type of addresses is chosen.
use mathlib.Core.List.{append-nil, append_assoc}
use pangolin_kube_controller.Prelude.{
  ℕ, ◌≤◌, ◌<◌, ◌≡◌, refl, ◌∙◌, ◌≢◌, ◌⊎◌, inl, inr, Option, none, some, List, [], ◌∷◌, ◌++◌, arith,
  Bool-cases,
}
use pangolin_kube_controller.Text.{Text, trim_space}
use pangolin_kube_controller.Result.{ok, >>=-eq-ok}
use pangolin_kube_controller.Json.{Value, null, obj, Fields, Codec, fields_of, unmarshal_map}
use pangolin_kube_controller.Protocol.Ports.{parse_port32, set_or_validate_port}
use pangolin_kube_controller.Protocol.Servers.{
  NetLib, Url, with_port, url_host_port, plain_host_port, is_web, pick_server_address,
  split_host_port_flexible, server_address, collect_addresses, load_balancer_servers,
  extract_lb_addresses_port,
}

-- An accepted port is from 1 to 65535.
pub parse_port32_bounds : (s : Text) {p : ℕ} → parse_port32 s ≡ ok p → (0 < p) × (p ≤ 65535)
unfolding parse_port32
parse_port32_bounds s h = ground arith

with_port_bounds :
    (h raw : Text) {hp : Text × ℕ} → with_port h raw ≡ ok hp → (0 < hp.1) × (hp.1 ≤ 65535)
with_port_bounds h [] e = cc
with_port_bounds h (c ∷ raw) {hp} e =
    let (p, parsed, same) = >>=-eq-ok (parse_port32 (c ∷ raw)) (λ p. ok (h, p)) e in
    let (low, high) = parse_port32_bounds (c ∷ raw) parsed in ground arith

url_host_port_bounds :
    (o : Option Url) {hp : Text × ℕ} → url_host_port o ≡ ok hp → (0 < hp.1) × (hp.1 ≤ 65535)
url_host_port_bounds none e = cc
url_host_port_bounds (some u) e = with_port_bounds u.hostname u.port e

plain_host_port_bounds :
    (o : Option (Text × Text)) {hp : Text × ℕ}
    → plain_host_port o ≡ ok hp
    → (0 < hp.1) × (hp.1 ≤ 65535)
plain_host_port_bounds none e = cc
plain_host_port_bounds (some (h, p)) e = with_port_bounds h p e

module _ (net : NetLib) where
  split_host_port_bounds :
      (s : Text) {hp : Text × ℕ}
      → split_host_port_flexible net s ≡ ok hp
      → (0 < hp.1) × (hp.1 ≤ 65535)
  unfolding split_host_port_flexible
  split_host_port_bounds s {hp} h = elim (Bool-cases (is_web (trim_space s))) [
    | inl web ↦ url_host_port_bounds (net.parse_url (trim_space s)) (rw web at h)
    | inr plain ↦ plain_host_port_bounds (net.split_host_port (trim_space s)) (rw plain at h)
  ]

  server_address_port :
      (s : Value) {hp : Text × ℕ} → server_address net s ≡ ok hp → (0 < hp.1) × (hp.1 ≤ 65535)
  unfolding server_address
  server_address_port (obj m) {hp} h =
      ground (arith, split_host_port_bounds (pick_server_address m) {hp = hp})
  server_address_port null h = cc
  server_address_port _ h = cc

  -- Every server has an address with the port `p`, and the hosts are those of the servers in
  -- their order.
  abbrev pub AllAt : ℕ → List Value → List Text → Type 0
  AllAt p [] [] = Unit
  AllAt p [] (h ∷ hosts) = ⊥
  AllAt p (s ∷ srvs) [] = ⊥
  AllAt p (s ∷ srvs) (h ∷ hosts) = (server_address net s ≡ ok (h, p)) × AllAt p srvs hosts

  set_port_cases :
      (existing candidate : ℕ) {p : ℕ}
      → set_or_validate_port existing candidate ≡ ok p
      → (p ≡ candidate) × ((existing ≡ 0) ⊎ (existing ≡ candidate))
  unfolding set_or_validate_port
  set_port_cases existing candidate h = ground arith

  collect_sound :
      (srvs : List Value) (hosts out : List Text) (port p : ℕ)
      → collect_addresses net srvs hosts port ≡ ok (out, p)
      → (added : List Text) × (out ≡ hosts ++ added)
        × AllAt p srvs added
        × ((port ≡ 0) ⊎ (port ≡ p))
  unfolding collect_addresses
  collect_sound [] hosts out port p h = ([], ground (arith, append-nil hosts), tt, ground arith)
  collect_sound (s ∷ srvs) hosts out port p h =
      let ((host, cand), addr, r1) = >>=-eq-ok (server_address net s) _ h in
      let (port', set, r2) = >>=-eq-ok (set_or_validate_port port cand) _ r1 in
      let (added, e, rest, known) = collect_sound srvs (hosts ++ host ∷ []) out port' p r2 in
      let (same, before) = set_port_cases port cand set in
      let (low, high) = server_address_port s addr in
      let at : cand ≡ p = ground arith in
      (host ∷ added, e ∙ append_assoc hosts (host ∷ []) added, (rw (← at) addr, rest), ground arith)

  collect_complete :
      (srvs : List Value) (hosts added : List Text) (p : ℕ)
      → AllAt p srvs added
      → collect_addresses net srvs hosts p ≡ ok (hosts ++ added, p)
  unfolding collect_addresses set_or_validate_port
  collect_complete [] hosts [] p h = rw append-nil
  collect_complete [] hosts (a ∷ added) p h = absurd h
  collect_complete (s ∷ srvs) hosts [] p h = absurd h
  collect_complete (s ∷ srvs) hosts (a ∷ added) p h = rw h.0 (
      ground (
        arith,
        collect_complete srvs (hosts ++ a ∷ []) added p h.1,
        append_assoc hosts (a ∷ []) added,
      ))

  collect_first :
      (srvs : List Value) (hosts : List Text) (p : ℕ)
      → srvs ≢ []
      → AllAt p srvs hosts
      → collect_addresses net srvs [] 0 ≡ ok (hosts, p)
  unfolding collect_addresses set_or_validate_port
  collect_first [] hosts p ne h = absurd (ne refl)
  collect_first (s ∷ srvs) [] p ne h = absurd h
  collect_first (s ∷ srvs) (a ∷ hosts) p ne h = rw h.0 (collect_complete srvs (a ∷ []) hosts p h.1)

  AllAt-bounds :
      (p : ℕ) (srvs : List Value) (hosts : List Text)
      → srvs ≢ []
      → AllAt p srvs hosts
      → (0 < p) × (p ≤ 65535)
  AllAt-bounds p [] hosts ne h = absurd (ne refl)
  AllAt-bounds p (s ∷ srvs) [] ne h = absurd h
  AllAt-bounds p (s ∷ srvs) (a ∷ hosts) ne h = server_address_port s h.0

servers-ne-nil : (o : Fields) {srvs : List Value} → load_balancer_servers o ≡ ok srvs → srvs ≢ []
unfolding load_balancer_servers
servers-ne-nil o h = ground arith

module _ (net : NetLib) (codec : Codec) (raw : Text) where
  -- The servers of a service that decodes to an object with a load balancer.
  abbrev pub Servers : List Value → Type 0
  Servers srvs =
      (v : Value) × (unmarshal_map codec raw ≡ ok v)
      × (load_balancer_servers (fields_of v) ≡ ok srvs)

  -- If the addresses of a service are accepted, then all its servers have an address with the same
  -- port, which is from 1 to 65535, and the hosts are those of the servers in their order.
  pub extract_sound :
      {hosts : List Text} {p : ℕ}
      → extract_lb_addresses_port net codec raw ≡ ok (hosts, p)
      → (srvs : List Value) × Servers srvs × AllAt net p srvs hosts × (0 < p) × (p ≤ 65535)
  unfolding extract_lb_addresses_port
  extract_sound {hosts} {p} h =
      let (v, decoded, r1) = >>=-eq-ok (unmarshal_map codec raw) _ h in
      let (srvs, found, r2) = >>=-eq-ok (load_balancer_servers (fields_of v)) _ r1 in
      let (added, e, at, _) = collect_sound net srvs [] hosts 0 p r2 in
      let at' : AllAt net p srvs hosts = rw e at in
      let (low, high) = AllAt-bounds net p srvs hosts (servers-ne-nil (fields_of v) found) at' in
      (srvs, (v, decoded, found), at', low, high)

  -- A service whose servers all have an address with the same port is accepted, with these hosts
  -- and this port.
  pub extract_complete :
      (srvs : List Value) (hosts : List Text) (p : ℕ)
      → Servers srvs
      → AllAt net p srvs hosts
      → extract_lb_addresses_port net codec raw ≡ ok (hosts, p)
  unfolding extract_lb_addresses_port
  extract_complete srvs hosts p (v, decoded, found) h =
      rw (decoded, found) (collect_first net srvs hosts p (servers-ne-nil (fields_of v) found) h)
