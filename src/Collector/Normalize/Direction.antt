-- ===== src/Collector/Normalize/Direction.antt =====
-- The direction of a flow: normalizeRow stores the two sides in the order of their keys, so both
-- observations of a flow become one edge.
use nfm_dashboard.Prelude.{ℕ, Option, none, some, ◌≡◌, ◌≢◌, true, arith}
use nfm_dashboard.Prelude.Text.{Str, str_le, str_le_total, str_le_antisymm}
use nfm_dashboard.Collector.Types.{EndpointInfo}
use nfm_dashboard.Collector.Normalize.{
  KubernetesMetadata, RawRow, RowCtx, endpoint_key, side, local_side, remote_side, sort_pair,
  edge_hash_of, normalize_row,
}

-- The row that the monitor on the other side reports.
swap_metadata : KubernetesMetadata → KubernetesMetadata
swap_metadata k = record {
  local_pod_name = k.remote_pod_name;
  local_pod_namespace = k.remote_pod_namespace;
  local_service_name = k.remote_service_name;
  remote_pod_name = k.local_pod_name;
  remote_pod_namespace = k.local_pod_namespace;
  remote_service_name = k.local_service_name;
}

pub swap_row : RawRow → RawRow
unfolding swap_metadata
swap_row row = record row {
  local_ip = row.remote_ip;
  local_instance_id = row.remote_instance_id;
  local_subnet_id = row.remote_subnet_id;
  local_az = row.remote_az;
  local_vpc_id = row.remote_vpc_id;
  local_region = row.remote_region;
  remote_ip = row.local_ip;
  remote_instance_id = row.local_instance_id;
  remote_subnet_id = row.local_subnet_id;
  remote_az = row.local_az;
  remote_vpc_id = row.local_vpc_id;
  remote_region = row.local_region;
  kubernetes_metadata = elim row.kubernetes_metadata [
    | none ↦ none
    | some k ↦ some (swap_metadata k)
  ];
}

sides-swap_row :
    (row : RawRow)
    → (side (swap_row row) local_side ≡ side row remote_side)
      × (side (swap_row row) remote_side ≡ side row local_side)
unfolding side swap_row
sides-swap_row row = (ground arith, ground arith)

sort_pair_comm : (k l : Str) → sort_pair k l ≡ sort_pair l k
unfolding sort_pair
sort_pair_comm k l = ground (arith, str_le_total k l, str_le_antisymm k l)

module _ (sha1_hex : Str → Str) where
  -- The hash of an edge does not depend on which endpoint is given first.
  pub edge_hash_of_comm :
      (a b : EndpointInfo) (port : Option ℕ)
      → edge_hash_of sha1_hex a b port ≡ edge_hash_of sha1_hex b a port
  unfolding edge_hash_of
  edge_hash_of_comm a b port = rw (sort_pair_comm (endpoint_key a) (endpoint_key b))

  -- The endpoints of a normalised edge stand in the order of their keys.
  pub normalize_row_ordered :
      (row : RawRow) (ctx : RowCtx)
      → str_le
          (endpoint_key (normalize_row sha1_hex row ctx).a)
          (endpoint_key (normalize_row sha1_hex row ctx).b)
        ≡ true
  unfolding normalize_row
  normalize_row_ordered row ctx = ground (
    arith,
    str_le_total (endpoint_key (side row local_side)) (endpoint_key (side row remote_side)),
  )

  -- Where the two endpoints have different keys, a flow that is observed from either side becomes
  -- the same edge.
  pub normalize_row-swap_row :
      (row : RawRow) (ctx : RowCtx)
      → endpoint_key (side row local_side) ≢ endpoint_key (side row remote_side)
      → normalize_row sha1_hex (swap_row row) ctx ≡ normalize_row sha1_hex row ctx
  unfolding normalize_row swap_row
  normalize_row-swap_row row ctx ne =
      let l = side row local_side in
      let r = side row remote_side in
      let (to_remote, to_local) = sides-swap_row row in
      ground (
        arith,
        to_remote,
        to_local,
        str_le_total (endpoint_key l) (endpoint_key r),
        str_le_antisymm (endpoint_key l) (endpoint_key r),
        edge_hash_of_comm l r row.target_port,
      )
