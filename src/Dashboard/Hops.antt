-- ===== src/Dashboard/Hops.antt =====
-- The hops of a path and the kinds of its resources: app/src/lib/topology.ts. `toLowerCase` is a
-- parameter.
use nfm_dashboard.Prelude.{
  Option, none, some, List, [], ◌∷◌, ◌++◌, map, Bool, true, false, ◌||◌, first_some, or_else,
  if◌then◌else◌,
}
use nfm_dashboard.Prelude.Text.{Str, codes, truthy, starts_with}
use nfm_dashboard.Collector.Types.{
  EndpointInfo, TraversedComponent, FlowEdge, NodeKind, pod, node, vpc, external,
}

pub data ResourceKind : Type 0 where
  pod_resource namespace_resource service_resource cluster_resource instance_resource : ResourceKind
  eni_resource subnet_resource az_resource vpc_resource vpce_resource tgw_resource : ResourceKind
  awsservice_resource region_resource internet_resource other_resource : ResourceKind

pub record Hop : Type 0 where
  pub kind : ResourceKind
  pub label : Str
  pub id : Option Str
  pub context : Option Str

-- The needles, the more specific ones first.
abbrev pub kind_rules : List (Str × ResourceKind)
kind_rules =
    (codes "transitgateway", tgw_resource)
    ∷ (codes "tgw", tgw_resource)
    ∷ (codes "networkinterface", eni_resource)
    ∷ (codes "eni", eni_resource)
    ∷ (codes "vpcendpoint", vpce_resource)
    ∷ (codes "endpoint", vpce_resource)
    ∷ (codes "vpce", vpce_resource)
    ∷ (codes "subnet", subnet_resource)
    ∷ (codes "instance", instance_resource)
    ∷ (codes "s3", awsservice_resource)
    ∷ (codes "dynamodb", awsservice_resource)
    ∷ (codes "cloudwatch", awsservice_resource)
    ∷ (codes "logs", awsservice_resource)
    ∷ (codes "internet", internet_resource)
    ∷ (codes "igw", internet_resource)
    ∷ (codes "region", region_resource)
    ∷ (codes "vpc", vpc_resource)
    ∷ []

-- `s.includes(needle)`
unfoldable pub includes : Str → Str → Bool
unfolding starts_with
includes [] needle = starts_with needle []
includes (c ∷ s) needle = starts_with needle (c ∷ s) || includes s needle

unfoldable pub first_rule : Str → List (Str × ResourceKind) → ResourceKind
unfolding includes
first_rule t [] = other_resource
first_rule t ((needle, kind) ∷ rules) = if includes t needle then kind else first_rule t rules

-- Whether a field that may be missing has a text.
abbrev pub present : Option Str → Bool
present o = elim (truthy o) [ none ↦ false | some _ ↦ true ]

unfoldable pub endpoint_kind : EndpointInfo → ResourceKind
endpoint_kind e =
    if present e.pod_name
    then pod_resource
    else (if present e.instance_id
        then instance_resource
        else (if present e.subnet_id then subnet_resource else other_resource))

unfoldable pub endpoint_label : EndpointInfo → Str
unfolding endpoint_kind
endpoint_label e = elim (endpoint_kind e) [
  | pod_resource ↦ elim (truthy e.pod_namespace) [
    | some ns ↦ ns ++ codes "/" ++ or_else e.pod_name []
    | none ↦ or_else e.pod_name []
  ]
  | instance_resource ↦ or_else e.instance_id []
  | _ ↦ or_else (first_some e.ip e.subnet_id) []
]

-- The texts that are there, with the separator ` · `, whose middle code is 183.
unfoldable pub joined_texts : List (Option Str) → Option Str
joined_texts [] = none
joined_texts (o ∷ os) = elim (truthy o) [
  | none ↦ joined_texts os
  | some s ↦ elim (joined_texts os) [
    | none ↦ some s
    | some rest ↦ some (s ++ (32 ∷ 183 ∷ 32 ∷ []) ++ rest)
  ]
]

unfoldable pub endpoint_hop : EndpointInfo → Hop
unfolding endpoint_label joined_texts
endpoint_hop e = record {
  kind = endpoint_kind e;
  label = endpoint_label e;
  id = first_some e.instance_id e.pod_name;
  context = joined_texts (e.az ∷ e.region ∷ e.vpc_id ∷ []);
}

-- `a || b`, on texts
abbrev pub truthy_or : Option Str → Option Str → Option Str
truthy_or a b = first_some (truthy a) b

module _ (lower : Str → Str) where
  unfoldable pub resource_kind_of : Option Str → ResourceKind
  unfolding first_rule
  resource_kind_of component_type = elim (truthy component_type) [
    | none ↦ other_resource
    | some t ↦ first_rule (lower t) kind_rules
  ]

  unfoldable pub construct_hop : TraversedComponent → Hop
  unfolding resource_kind_of
  construct_hop tc = record {
    kind = resource_kind_of tc.component_type;
    label =
        or_else (truthy (truthy_or tc.service_name (truthy_or tc.component_type tc.component_id)))
          [];
    id = tc.component_id;
    context = none;
  }

  unfoldable pub build_hops : {N : Type 0} → FlowEdge N → List Hop
  unfolding construct_hop endpoint_hop
  build_hops edge =
      (endpoint_hop edge.a ∷ map construct_hop edge.traversed_constructs)
      ++ endpoint_hop edge.b ∷ []

unfoldable pub node_resource_kind : NodeKind → ResourceKind
node_resource_kind k = elim k [
  | pod ↦ pod_resource
  | node ↦ instance_resource
  | vpc ↦ vpc_resource
  | external ↦ other_resource
]
