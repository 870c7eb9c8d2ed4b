-- ===== src/Stream/Model.antt =====
-- Ports, claims and templates (internal/models/stream_port.go, template_listener.go, stream.go).
-- A uuid is a number. `to_upper` is Go's `strings.ToUpper`.
use backend_v.Base.{
  if◌then◌else◌, ℕ, String, Bool, true, false, ◌&&◌, ◌||◌, Option, none, some, List, [], ◌∷◌, map,
  str_eq, before,
}
use backend_v.Base.Int.{ltb_ℤ, ℤ, eq_ℤ}

pub record StreamPort : Type 0 where
  pub transport : String
  pub port : ℤ

abbrev pub same_port : StreamPort → StreamPort → Bool
same_port c d = str_eq c.transport d.transport && eq_ℤ c.port d.port

-- `StreamPorts.Has`
unfoldable pub has : List StreamPort → StreamPort → Bool
has [] d = false
has (c ∷ cs) d = same_port c d || has cs d

-- The order of `Normalize`.
abbrev pub less : StreamPort → StreamPort → Bool
less c d =
    if str_eq c.transport d.transport then ltb_ℤ c.port d.port else before c.transport d.transport

-- A claim goes before the first one that is not less: the sort is stable.
unfoldable pub insert : StreamPort → List StreamPort → List StreamPort
insert c [] = c ∷ []
insert c (d ∷ ds) = let rest = insert c ds in if less d c then d ∷ rest else c ∷ d ∷ ds

unfoldable pub sort : List StreamPort → List StreamPort
sort [] = []
sort (c ∷ cs) = insert c (sort cs)

abbrev pub upper : (String → String) → StreamPort → StreamPort
upper to_upper c = record { transport = to_upper c.transport; port = c.port }

-- `StreamPorts.Normalize`
unfoldable pub normalize : (String → String) → List StreamPort → List StreamPort
normalize to_upper ports = sort (map (upper to_upper) ports)

pub data Protocol : Type 0 where
  http https tls tcp udp : Protocol

pub record TemplateListener : Type 0 where
  pub protocol : Protocol
  pub port : ℤ
  pub port_range_min : ℤ
  pub port_range_max : ℤ

abbrev pub is_stream : Protocol → Bool
is_stream tcp = true
is_stream udp = true
is_stream _ = false

-- The ports of `Listeners.HostnameRouted`.
unfoldable pub hostname_ports : List TemplateListener → List ℤ
hostname_ports [] = []
hostname_ports (l ∷ ls) =
    let rest = hostname_ports ls in if is_stream l.protocol then rest else l.port ∷ rest

-- `Listeners.StreamRange`
unfoldable pub stream_range : List TemplateListener → Option (ℤ × ℤ)
stream_range [] = none
stream_range (l ∷ ls) =
    let rest = stream_range ls in
    if is_stream l.protocol then some (l.port_range_min, l.port_range_max) else rest

pub record DomainTemplate : Type 0 where
  pub id : ℕ
  pub project_id : ℕ
  pub k8s_gateway_class_name : String
  pub listeners : List TemplateListener
  pub merge_gateways : Bool

-- Names are the lists of their bytes.
pub record Stream : Type 0 where
  pub id : ℕ
  pub project_id : ℕ
  pub name : List ℕ
  pub namespace : String
  pub gateway_template_id : ℕ
  pub k8s_gateway_name : List ℕ
  pub k8s_gateway_class : String
  pub status : String
  pub status_message : String
  pub created_by : Option ℕ
  pub ports : List StreamPort
