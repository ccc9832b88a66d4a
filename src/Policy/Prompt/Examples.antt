-- ===== src/Policy/Prompt/Examples.antt =====
-- The output format and the examples of BuildPrompt's text, line by line.
use k8s_ai_remediator.Prelude.{List, [], ◌∷◌, Bytes}
use k8s_ai_remediator.Policy.Prompt.Utf8.{line}

pub examples : List Bytes
examples =
    line "       action=set_deployment_image, severity=high"
    ∷ line "       params: deployment_name, image=<DIFFERENT valid image string>"
    ∷ line "       NEVER propose the SAME image already in the snapshot (no-op)."
    ∷ line "       HARD RULE: only choose set_deployment_image when you put a concrete"
    ∷ line "       image string in params.image. If you CANNOT name a specific"
    ∷ line "       replacement image, choose restart_deployment instead (retry the pull)"
    ∷ line "       — never emit set_deployment_image with an empty params.image."
    ∷ line
        "   - If the wrong registry host is the root cause AND \"Allow-patch scopes\" contains \"registry\" or \"*\":"
    ∷ line "       action=patch_registry"
    ∷ line "       params: deployment_name, container, new_registry"
    ∷ line "   - Else: action=mark_for_manual_fix"
    ∷ line ""
    ∷ line
        "6. Nothing else matches: action=inspect_pod_logs if you need logs, else mark_for_manual_fix."
    ∷ line ""
    ∷ line "=== OUTPUT FORMAT CONSTRAINTS ==="
    ∷ line "- severity ∈ {critical, high, medium, low, info}"
    ∷ line "- confidence: float 0.0-1.0 (>=0.85 unlocks set_deployment_image and patch_*)"
    ∷ line "- parameters MUST contain the concrete keys the chosen action needs:"
    ∷ line "  set_deployment_image → image; patch_probe → probe + timing fields;"
    ∷ line "  patch_resources → at least one of cpu_request/memory_request/cpu_limit/memory_limit;"
    ∷ line "  patch_registry → new_registry; scale_deployment → replicas."
    ∷ line "  A decision with an EMPTY parameters object cannot be executed."
    ∷ line "- Whenever the action targets a Deployment, ALWAYS set params.deployment_name"
    ∷ line "- Numeric params for patch_probe: decimal integer strings only"
    ∷ line "  OK: \"5\", \"15\""
    ∷ line "  NOT OK: \"x5\", \"2x\", \"+3\", \"5s\", \"5 seconds\""
    ∷ line
        "- Quantity params for patch_resources: Kubernetes quantity strings (\"100m\", \"256Mi\")"
    ∷ line "- NEVER propose shell commands"
    ∷ line "- NEVER invent image names or registry hosts; only use concrete strings"
    ∷ line ""
    ∷ line "=== EXAMPLES ==="
    ∷ line ""
    ∷ line "Example A - Unhealthy probe with opt-in:"
    ∷ line "  Event reason: Unhealthy"
    ∷ line "  Snapshot: Allow-patch scopes: probe; readinessProbe failureThreshold=2 period=5"
    ∷ line "  → {\"action\":\"patch_probe\",\"severity\":\"high\",\"confidence\":0.95,"
    ∷ line "     \"probable_cause\":\"Probe timing too strict for this workload\","
    ∷ line
        "     \"params\":{\"deployment_name\":\"app\",\"container\":\"main\",\"probe\":\"readiness\","
    ∷ line "               \"failure_threshold\":\"5\",\"period_seconds\":\"15\"}}"
    ∷ line ""
    ∷ line "Example B - OOMKilled with opt-in:"
    ∷ line "  Event reason: BackOff; Pod lastTerminated reason=OOMKilled exit=137"
    ∷ line "  Snapshot: Allow-patch scopes: resources; container memory_limit=32Mi"
    ∷ line "  → {\"action\":\"patch_resources\",\"severity\":\"high\",\"confidence\":0.95,"
    ∷ line "     \"probable_cause\":\"Memory limit too low for workload allocation\","
    ∷ line "     \"params\":{\"deployment_name\":\"app\",\"container\":\"main\","
    ∷ line "               \"memory_limit\":\"512Mi\",\"memory_request\":\"256Mi\"}}"
    ∷ line ""
    ∷ line "Example C - Failed to pull, valid image:"
    ∷ line "  Event reason: Failed; Message: Failed to pull image \"busybox:1.36\""
    ∷ line "  Snapshot: containers=main=busybox:1.36"
    ∷ line "  → {\"action\":\"restart_deployment\",\"severity\":\"high\",\"confidence\":0.9,"
    ∷ line "     \"probable_cause\":\"Transient pull failure (network or registry rate-limit)\","
    ∷ line "     \"params\":{\"deployment_name\":\"app\"}}"
    ∷ []
