-- ===== src/Agent/Memory/Bounds.antt =====
-- Bounds of computeBumpedMemoryLimit (cmd/agent/main.go).
use k8s_ai_remediator.Prelude.{
  ◌≡◌, arith, Bool-cases, inl, inr, false, Option, none, some, if◌then◌else◌,
}
use k8s_ai_remediator.Cluster.{Quantity, quantity_lt, max_memory_quantity}
use k8s_ai_remediator.Kube.External.{External}
use k8s_ai_remediator.Agent.Memory.{memory_floor, bumped_limit, compute_bumped_memory_limit}

bumped_limit-floor :
    (x : External) (o : Option Quantity) → quantity_lt (bumped_limit x o) memory_floor ≡ false
unfolding bumped_limit memory_floor
bumped_limit-floor x none = ground arith
bumped_limit-floor x (some q) = ground arith

capped :
    (t lo hi : Quantity)
    → quantity_lt t lo ≡ false
    → quantity_lt hi lo ≡ false
    → (quantity_lt (if quantity_lt hi t then hi else t) lo ≡ false)
      × (quantity_lt hi (if quantity_lt hi t then hi else t) ≡ false)
capped t lo hi h g = elim (Bool-cases (quantity_lt hi t)) [
  | inl above ↦ rw above (g, ground arith)
  | inr below ↦ rw below (h, below)
]

-- Whatever the container's limit is, none included, and whatever the quantity arithmetic gives,
-- wrapped or not, the raised limit is at least 512Mi and at most 16Gi.
pub compute_bumped_memory_limit-bounds :
    (x : External) (current : Option Quantity)
    → (quantity_lt (compute_bumped_memory_limit x current) memory_floor ≡ false)
      × (quantity_lt max_memory_quantity (compute_bumped_memory_limit x current) ≡ false)
unfolding compute_bumped_memory_limit memory_floor max_memory_quantity
compute_bumped_memory_limit-bounds x current =
    capped (bumped_limit x current) memory_floor max_memory_quantity (bumped_limit-floor x current)
      (ground arith)
