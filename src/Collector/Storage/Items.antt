-- ===== src/Collector/Storage/Items.antt =====
-- The rows of the flow table: flowItem of collector/src/storage.ts and hflowItem of
-- collector/src/rollup-store.ts.
pub mod Keys
use nfm_dashboard.Prelude.{
  ℕ, Option, none, some, List, [], ◌∷◌, ◌++◌, filter, not, ◌+◌, or_else, Bool, ite, true, false,
}
use nfm_dashboard.Prelude.Text.{Str, codes, str_discrete, truthy}
use nfm_dashboard.Prelude.Map.{get, put}
use nfm_dashboard.Prelude.Set.{contains}
use nfm_dashboard.Collector.Types.{FlowEdge, EndpointInfo, metric_text, category_text}

-- A row: the fields of the edge, the attributes that are keys, and when the row expires.
pub record Item (N : Type 0) : Type 0 where
  pub edge : FlowEdge N
  pub attributes : List (Str × Str)
  pub ttl : ℕ

abbrev put_text : Str → Str → List (Str × Str) → List (Str × Str)
put_text = put str_discrete

unfoldable pub pod_index : EndpointInfo → Str → Str → Str → List (Str × Str) → List (Str × Str)
pod_index ep bucket pk sk attributes = elim (truthy ep.pod_name) [
  | some name ↦ put_text sk bucket (
      put_text pk (codes "POD#" ++ or_else ep.pod_namespace (codes "_") ++ codes "/" ++ name)
        attributes)
  | none ↦ attributes
]

abbrev pub index_attributes : List Str
index_attributes =
    codes "gsi1pk"
    ∷ codes "gsi1sk"
    ∷ codes "gsi2pk"
    ∷ codes "gsi2sk"
    ∷ codes "gsi3pk"
    ∷ codes "gsi3sk"
    ∷ []

-- `for (const k of ks) delete item[k]`
unfoldable pub remove_all : List Str → List (Str × Str) → List (Str × Str)
unfolding contains
remove_all ks = filter (λ x. not (contains str_discrete x.0 ks))

module _ {N : Type 0} where
  abbrev pub sort_key : FlowEdge N → Str
  sort_key e =
      metric_text e.metric ++ codes "#" ++ category_text e.category ++ codes "#" ++ e.edge_hash

  abbrev pub edge_index : FlowEdge N → List (Str × Str)
  edge_index e = put_text (codes "gsi3sk") (e.bucket ++ codes "#" ++ metric_text e.metric) (
      put_text (codes "gsi3pk") (codes "EDGE#" ++ e.edge_hash) (
        put_text (codes "sk") (sort_key e)
          (put_text (codes "pk") (codes "FLOW#" ++ e.bucket ++ codes "#" ++ e.monitor) [])))

  unfoldable pub flow_item : FlowEdge N → ℕ → Item N
  unfolding pod_index
  flow_item e ttl_epoch = record {
    edge = e;
    attributes =
        pod_index e.b e.bucket (codes "gsi2pk") (codes "gsi2sk")
          (pod_index e.a e.bucket (codes "gsi1pk") (codes "gsi1sk") (edge_index e));
    ttl = ttl_epoch;
  }

  -- `carried` are the attributes that the edge has from the row that it was read from.
  unfoldable pub hflow_item : List (Str × Str) → FlowEdge N → ℕ → Item N
  unfolding remove_all
  hflow_item carried e ttl_epoch = record {
    edge = e;
    attributes = remove_all index_attributes (
        put_text (codes "sk") (sort_key e)
          (put_text (codes "pk") (codes "HFLOW#" ++ e.bucket ++ codes "#" ++ e.monitor) carried));
    ttl = ttl_epoch;
  }

  abbrev pub attribute : Str → Item N → Option Str
  attribute k item = get str_discrete k item.attributes

  -- The primary key of a row.
  abbrev pub primary_key : Item N → Option Str × Option Str
  primary_key item = (attribute (codes "pk") item, attribute (codes "sk") item)
