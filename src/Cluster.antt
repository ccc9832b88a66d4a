-- ===== src/Cluster.antt =====
-- The Kubernetes objects, with the fields that internal/kube and cmd/agent read or write. A nil map
-- and an empty one are the same here. A quantity is an amount in units of 10^-9, which its
-- comparison reads, and the text that it prints as.
use k8s_ai_remediator.Prelude.{
  ◌*◌, ◌^◌, Bool, Bytes, codes, ℤ, pos, ltb_ℤ, leb_ℤ, List, Map, Option,
}

pub record Quantity : Type 0 where
  pub amount : ℤ
  pub shown : Bytes

pub record Probe : Type 0 where
  pub initial_delay_seconds : ℤ
  pub period_seconds : ℤ
  pub failure_threshold : ℤ
  pub success_threshold : ℤ
  pub timeout_seconds : ℤ

pub record Container : Type 0 where
  pub name : Bytes
  pub image : Bytes
  pub cpu_request : Option Quantity
  pub memory_request : Option Quantity
  pub cpu_limit : Option Quantity
  pub memory_limit : Option Quantity
  pub readiness : Option Probe
  pub liveness : Option Probe

pub record Deployment : Type 0 where
  pub name : Bytes
  pub annotations : Map Bytes
  pub replicas : Option ℤ
  pub match_labels : Map Bytes
  pub template_annotations : Map Bytes
  pub containers : List Container

pub record Owner : Type 0 where
  pub kind : Bytes
  pub name : Bytes

pub record ReplicaSet : Type 0 where
  pub owners : List Owner

pub record Terminated : Type 0 where
  pub reason : Bytes
  pub exit_code : ℤ

pub record ContainerStatus : Type 0 where
  pub name : Bytes
  pub restart_count : ℤ
  pub ready : Bool
  pub waiting : Option Bytes
  pub terminated : Option Terminated
  pub running : Bool
  pub last_terminated : Option Terminated

pub record Pod : Type 0 where
  pub name : Bytes
  pub owners : List Owner
  pub containers : List Bytes
  pub phase : Bytes
  pub restart_policy : Bytes
  pub statuses : List ContainerStatus

-- the fields of a core/v1 Event that the poll loop reads
pub record Event : Type 0 where
  pub namespace : Bytes
  pub name : Bytes
  pub resource_version : Bytes
  pub event_type : Bytes
  pub reason : Bytes
  pub message : Bytes
  pub object_kind : Bytes
  pub object_name : Bytes

abbrev pub quantity_lt : Quantity → Quantity → Bool
quantity_lt p q = ltb_ℤ p.amount q.amount

abbrev pub quantity_le : Quantity → Quantity → Bool
quantity_le p q = leb_ℤ p.amount q.amount

-- MaxCPUQuantity, MaxMemoryQuantity, MinCPUQuantity, MinMemoryQuantity
unfoldable pub max_cpu_quantity : Quantity
max_cpu_quantity = record { amount = pos (8 * 10 ^ 9); shown = codes "8" }

unfoldable pub max_memory_quantity : Quantity
max_memory_quantity = record { amount = pos (16 * 2 ^ 30 * 10 ^ 9); shown = codes "16Gi" }

unfoldable pub min_cpu_quantity : Quantity
min_cpu_quantity = record { amount = pos (10 * 10 ^ 6); shown = codes "10m" }

unfoldable pub min_memory_quantity : Quantity
min_memory_quantity = record { amount = pos (16 * 2 ^ 20 * 10 ^ 9); shown = codes "16Mi" }
