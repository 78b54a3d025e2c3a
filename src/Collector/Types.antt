-- ===== src/Collector/Types.antt =====
-- The data of the collector: collector/src/types.ts. A field that may be missing is an `Option`.
-- The type of an edge's value is a parameter: whole numbers as the service reports them, quotients
-- in the hourly rows.
use nfm_dashboard.Prelude.{ℕ, Option, List}
use nfm_dashboard.Prelude.Text.{Str, codes}

pub data MetricName : Type 0 where
  data_transferred retransmissions timeouts round_trip_time : MetricName

unfoldable pub MetricName-discrete : Discrete MetricName
MetricName-discrete = hlevel

pub data DestCategory : Type 0 where
  intra_az inter_az inter_vpc unclassified amazon_s3 amazon_dynamodb inter_region internet :
      DestCategory
  aws_service transit_gateway local_zone : DestCategory

unfoldable pub DestCategory-discrete : Discrete DestCategory
DestCategory-discrete = hlevel

pub record EndpointInfo : Type 0 where
  pub ip : Option Str
  pub instance_id : Option Str
  pub subnet_id : Option Str
  pub az : Option Str
  pub vpc_id : Option Str
  pub region : Option Str
  pub pod_name : Option Str
  pub pod_namespace : Option Str
  pub service_name : Option Str

pub record TraversedComponent : Type 0 where
  pub component_id : Option Str
  pub component_type : Option Str
  pub component_arn : Option Str
  pub service_name : Option Str

pub record FlowEdge (N : Type 0) : Type 0 where
  pub edge_hash : Str
  pub monitor : Str
  pub metric : MetricName
  pub category : DestCategory
  pub bucket : Str
  pub value : N
  pub unit : Str
  pub a : EndpointInfo
  pub b : EndpointInfo
  pub snat_ip : Option Str
  pub dnat_ip : Option Str
  pub target_port : Option ℕ
  pub traversed_constructs : List TraversedComponent

pub data NodeKind : Type 0 where
  pod node vpc external : NodeKind

pub record TopoNode : Type 0 where
  pub id : Str
  pub kind : NodeKind
  pub label : Str
  pub namespace : Option Str
  pub cluster : Option Str
  pub az : Option Str
  pub vpc_id : Option Str

-- `metrics` is the partial record of the metrics that were seen.
pub record TopoEdge : Type 0 where
  pub id : Str
  pub source : Str
  pub target : Str
  pub metrics : List (MetricName × ℕ)
  pub category : DestCategory
  pub target_port : Option ℕ

pub record TopologySnapshot : Type 0 where
  pub generated_at : Str
  pub nodes : List TopoNode
  pub edges : List TopoEdge

-- The names as they stand in keys and messages.
unfoldable pub metric_text : MetricName → Str
metric_text m = elim m [
  | data_transferred ↦ codes "DATA_TRANSFERRED"
  | retransmissions ↦ codes "RETRANSMISSIONS"
  | timeouts ↦ codes "TIMEOUTS"
  | round_trip_time ↦ codes "ROUND_TRIP_TIME"
]

unfoldable pub category_text : DestCategory → Str
category_text c = elim c [
  | intra_az ↦ codes "INTRA_AZ"
  | inter_az ↦ codes "INTER_AZ"
  | inter_vpc ↦ codes "INTER_VPC"
  | unclassified ↦ codes "UNCLASSIFIED"
  | amazon_s3 ↦ codes "AMAZON_S3"
  | amazon_dynamodb ↦ codes "AMAZON_DYNAMODB"
  | inter_region ↦ codes "INTER_REGION"
  | internet ↦ codes "INTERNET"
  | aws_service ↦ codes "AWS_SERVICE"
  | transit_gateway ↦ codes "TRANSIT_GATEWAY"
  | local_zone ↦ codes "LOCAL_ZONE"
]
