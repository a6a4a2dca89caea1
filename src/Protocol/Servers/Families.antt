-- ===== src/Protocol/Servers/Families.antt =====
-- How the type of the addresses of an EndpointSlice is chosen.
use pangolin_kube_controller.Prelude.{
  ◌≡◌, refl, ◌≢◌, ◌⊎◌, inl, inr, Bool, true, false, ◌&&◌, Option, none, some, List, [], ◌∷◌, All,
  Option-cases,
}
use pangolin_kube_controller.Text.{Text}
use pangolin_kube_controller.Result.{Result, ok, err, mixed_families}
use pangolin_kube_controller.Protocol.Servers.{
  NetLib, IpFamily, ipv4, ipv6, AddressType, address_ipv4, address_ipv6, address_fqdn,
  address_type_from, choose_address_type,
}

-- `P` holds of some element.
abbrev pub Any {ℓ} : {A : Type ℓ} → (A → Type 0) → List A → Type 0
Any P [] = ⊥
Any P (x ∷ xs) = P x ⊎ Any P xs

module _ (net : NetLib) where
  abbrev pub Has : Option IpFamily → Text → Type 0
  Has o h = net.parse_ip h ≡ o

  abbrev Explained : List Text → Bool → Bool → Result AddressType → Type 0
  Explained hosts s4 s6 (ok address_ipv4) = All (Has (some ipv4)) hosts × (s6 ≡ false)
  Explained hosts s4 s6 (ok address_ipv6) = All (Has (some ipv6)) hosts × (s4 ≡ false)
  Explained hosts s4 s6 (ok address_fqdn) = Any (Has none) hosts
  Explained hosts s4 s6 (err e) =
      (e ≡ mixed_families)
      × ((s4 ≡ true) ⊎ Any (Has (some ipv4)) hosts)
      × ((s6 ≡ true) ⊎ Any (Has (some ipv6)) hosts)

  -- One host more in front.
  step_v4 :
      (h : Text) (hosts : List Text) (s4 : Bool) (r : Result AddressType)
      → Has (some ipv4) h
      → Explained hosts true false r
      → Explained (h ∷ hosts) s4 false r
  step_v4 h hosts s4 (ok address_ipv4) e k = ((e, k.0), refl)
  step_v4 h hosts s4 (ok address_ipv6) e k = absurd (cc)
  step_v4 h hosts s4 (ok address_fqdn) e k = inr k
  step_v4 h hosts s4 (err x) e (k, k4, inl a) = absurd (cc)
  step_v4 h hosts s4 (err x) e (k, k4, inr a) = (k, inr (inl e), inr (inr a))

  step_v6 :
      (h : Text) (hosts : List Text) (s6 : Bool) (r : Result AddressType)
      → Has (some ipv6) h
      → Explained hosts false true r
      → Explained (h ∷ hosts) false s6 r
  step_v6 h hosts s6 (ok address_ipv4) e k = absurd (cc)
  step_v6 h hosts s6 (ok address_ipv6) e k = ((e, k.0), refl)
  step_v6 h hosts s6 (ok address_fqdn) e k = inr k
  step_v6 h hosts s6 (err x) e (k, inl a, k6) = absurd (cc)
  step_v6 h hosts s6 (err x) e (k, inr a, k6) = (k, inr (inr a), inr (inl e))

  loop-Explained :
      (hosts : List Text) (s4 s6 : Bool)
      → (s4 && s6) ≡ false
      → Explained hosts s4 s6 (address_type_from net hosts s4 s6)
  unfolding address_type_from
  loop-Explained [] true s6 n = (tt, n)
  loop-Explained [] false s6 n = (tt, refl)
  loop-Explained (h ∷ hosts) true true n = cc
  loop-Explained (h ∷ hosts) false false n = elim (Option-cases (net.parse_ip h)) [
    | inl e ↦ rw (e, address_type_from) (inl e)
    | inr (ipv4, e) ↦
        rw (e, address_type_from) (step_v4 h hosts false _ e (loop-Explained hosts true false refl))
    | inr (ipv6, e) ↦
        rw (e, address_type_from) (step_v6 h hosts false _ e (loop-Explained hosts false true refl))
  ]
  loop-Explained (h ∷ hosts) true false n = elim (Option-cases (net.parse_ip h)) [
    | inl e ↦ rw (e, address_type_from) (inl e)
    | inr (ipv4, e) ↦
        rw (e, address_type_from) (step_v4 h hosts true _ e (loop-Explained hosts true false refl))
    | inr (ipv6, e) ↦ rw (e, address_type_from) (refl, inl refl, inr (inl e))
  ]
  loop-Explained (h ∷ hosts) false true n = elim (Option-cases (net.parse_ip h)) [
    | inl e ↦ rw (e, address_type_from) (inl e)
    | inr (ipv4, e) ↦ rw (e, address_type_from) (refl, inr (inl e), inl refl)
    | inr (ipv6, e) ↦
        rw (e, address_type_from) (step_v6 h hosts true _ e (loop-Explained hosts false true refl))
  ]

  -- What each result of `chooseAddressType` says of the hosts.
  abbrev pub Chosen : List Text → Result AddressType → Type 0
  Chosen hosts (ok address_ipv4) = (hosts ≢ []) × All (Has (some ipv4)) hosts
  Chosen hosts (ok address_ipv6) = (hosts ≢ []) × All (Has (some ipv6)) hosts
  Chosen hosts (ok address_fqdn) = (hosts ≡ []) ⊎ Any (Has none) hosts
  Chosen hosts (err e) =
      (e ≡ mixed_families) × Any (Has (some ipv4)) hosts × Any (Has (some ipv6)) hosts

  Explained-Chosen :
      (h : Text) (hosts : List Text) (r : Result AddressType)
      → Explained (h ∷ hosts) false false r
      → Chosen (h ∷ hosts) r
  Explained-Chosen h hosts (ok address_ipv4) k = (cc, k.0)
  Explained-Chosen h hosts (ok address_ipv6) k = (cc, k.0)
  Explained-Chosen h hosts (ok address_fqdn) k = inr k
  Explained-Chosen h hosts (err e) (k, inl a, _) = absurd (cc)
  Explained-Chosen h hosts (err e) (k, inr a, inl b) = absurd (cc)
  Explained-Chosen h hosts (err e) (k, inr a, inr b) = (k, a, b)

  -- IPv4 is chosen only for hosts that are all IPv4 addresses, and IPv6 only for hosts that are
  -- all IPv6 addresses, at least one in both cases; FQDN only if there is no host or one that is no
  -- IP address; and an error comes only from hosts of both families.
  pub choose_address_type-Chosen :
      (hosts : List Text) → Chosen hosts (choose_address_type net hosts)
  unfolding choose_address_type
  choose_address_type-Chosen [] = inl refl
  choose_address_type-Chosen (h ∷ hosts) =
      Explained-Chosen h hosts _ (loop-Explained (h ∷ hosts) false false refl)
