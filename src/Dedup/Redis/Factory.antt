-- ===== src/Dedup/Redis/Factory.antt =====
-- The stores that NewStore of internal/dedup/factory.go returns.
use k8s_ai_remediator.Result.{Result, ok, err}
use k8s_ai_remediator.Dedup.{Store}
use k8s_ai_remediator.Dedup.Contract.{StoreLaw}

IsKept : Result Store → Type 0
IsKept (ok store) = StoreLaw store
IsKept (err e) = Unit
