-- ===== src/Policy/Prompt/Rules.antt =====
-- The decision tree of BuildPrompt's text, line by line.
use k8s_ai_remediator.Prelude.{List, [], ◌∷◌, Bytes}
use k8s_ai_remediator.Policy.Prompt.Utf8.{line}

pub rules : List Bytes
rules =
    line ""
    ∷ line "=== ALLOWED ACTIONS ==="
    ∷ line
        "noop, restart_deployment, delete_failed_pod, delete_and_recreate_pod, scale_deployment, inspect_pod_logs, set_deployment_image, patch_probe, patch_resources, patch_registry, mark_for_manual_fix, ask_human"
    ∷ line ""
    ∷ line "=== DECISION TREE (evaluate in order, stop at first match) ==="
    ∷ line ""
    ∷ line "0. PRIORITY SCAN: search the entire incident text for \"OOMKilled\","
    ∷ line "   \"exit=137\", \"Insufficient cpu\", \"Insufficient memory\", \"FailedScheduling\"."
    ∷ line "   If present, jump IMMEDIATELY to the matching rule below (1 for OOM,"
    ∷ line "   2 for FailedScheduling) without considering the event reason alone."
    ∷ line ""
    ∷ line "1. OOMKilled or exit=137 present ANYWHERE (event message, PodStatusSummary,"
    ∷ line "   lastTerminated reason):"
    ∷ line "   - If snapshot \"Allow-patch scopes\" contains \"resources\" or \"*\":"
    ∷ line "       action=patch_resources, severity=high"
    ∷ line "       params: deployment_name, container,"
    ∷ line "               memory_limit=<at least 512Mi; if 4x the current limit is"
    ∷ line "                             larger, use that instead>,"
    ∷ line "               memory_request=<half of the chosen limit>"
    ∷ line "   - Else: action=mark_for_manual_fix"
    ∷ line "   Choose a limit with real headroom over the workload's allocation; a value"
    ∷ line "   barely above the old limit just OOMs again."
    ∷ line "   NEVER pick restart_deployment when OOMKilled is visible. The new pod"
    ∷ line "   hits the same limit and OOMs again."
    ∷ line ""
    ∷ line "2. Event reason is \"FailedScheduling\" (pod Pending, Insufficient cpu/memory):"
    ∷ line "   - If \"Allow-patch scopes\" contains \"resources\" or \"*\":"
    ∷ line "       action=patch_resources, severity=critical"
    ∷ line "       params: deployment_name, container,"
    ∷ line "               cpu_request=\"100m\", memory_request=\"64Mi\","
    ∷ line "               cpu_limit=\"500m\", memory_limit=\"256Mi\""
    ∷ line "   - Else: action=mark_for_manual_fix"
    ∷ line "   NEVER pick scale_deployment or restart_deployment on FailedScheduling."
    ∷ line ""
    ∷ line "3. Event reason is \"Unhealthy\" (probe failure, no crash, no OOM):"
    ∷ line "   - If snapshot \"Allow-patch scopes\" contains \"probe\" or \"*\":"
    ∷ line "       action=patch_probe, severity=high"
    ∷ line "       params: deployment_name, container, probe (readiness|liveness),"
    ∷ line "               failure_threshold=\"5\", period_seconds=\"15\", timeout_seconds=\"5\""
    ∷ line "   - Else: action=inspect_pod_logs (or mark_for_manual_fix if no container)"
    ∷ line "   NEVER pick restart_deployment for Unhealthy."
    ∷ line ""
    ∷ line "4. Event reason is \"BackOff\" (CrashLoopBackOff) AND no OOMKilled/exit=137:"
    ∷ line "   - action=restart_deployment, severity=high"
    ∷ line "     params: deployment_name"
    ∷ line "   - If container is crashing for a reason you can deduce (bad config, missing file),"
    ∷ line "     prefer inspect_pod_logs first (include parameters.container)."
    ∷ line ""
    ∷ line "5. Image pull failure (\"Failed to pull image\", ErrImagePull, ImagePullBackOff):"
    ∷ line
        "   - If the image in the Deployment snapshot is SYNTACTICALLY VALID (looks like a real tag):"
    ∷ line "       action=restart_deployment, severity=high, params: deployment_name"
    ∷ line "       (this retries the pull; transient network or registry rate-limit)"
    ∷ line
        "   - If the image is clearly wrong/inventato AND you can name a concrete safe replacement:"
    ∷ []
