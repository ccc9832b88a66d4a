-- ===== src/Agent/Poll/Refinement/Scope.antt =====
-- The filters of the poll on an event's type and namespace (cmd/agent/main.go).
use mathlib.Core.Bool.{true≢false}
use k8s_ai_remediator.Prelude.{
  ◌≡◌, ◌≢◌, ◌⊎◌, inl, inr, refl, arith, ap, ◌∙◌, sym, true, false, not, ◌&&◌, Bool, Bytes, List, [],
  ◌∷◌, eqb, eqb_sound, eqb_self, any_of-All, any_of-Any, Any,
}
use k8s_ai_remediator.Config.{AgentConfig}
use k8s_ai_remediator.Cluster.{Event}
use k8s_ai_remediator.Agent.Poll.{in_scope, is_included}
use k8s_ai_remediator.Agent.Poll.Contract.{IsInScope}

filters : (a b c : Bool) → (a && not b && c) ≡ true → (a ≡ true) × (b ≡ false) × (c ≡ true)
filters a b c h = ground arith

is_included-Any :
    (ns : Bytes) (l : List Bytes) → is_included ns l ≡ true → (l ≡ []) ⊎ Any (λ n. n ≡ ns) l
is_included-Any ns [] h = inl refl
is_included-Any ns (n ∷ rest) h =
    inr (any_of-Any (λ m. eqb m ns) (n ∷ rest) (λ m. eqb_sound m ns) h)

distinct : (a b : Bytes) → eqb a b ≡ false → a ≢ b
distinct a b h same = true≢false (sym (eqb_self b) ∙ ap (λ n. eqb n b) (sym same) ∙ h)

-- The loop's filters are the operator's scope.
pub in_scope-IsInScope : (cfg : AgentConfig) (e : Event) → in_scope cfg e ≡ true → IsInScope cfg e
unfolding in_scope
in_scope-IsInScope cfg e h =
    let (warning, not_excluded, included) = filters _ _ _ h in
    record {
      warning = warning;
      not_excluded =
          any_of-All (λ n. eqb n e.namespace) cfg.exclude_namespaces (λ n. distinct n e.namespace)
            not_excluded;
      included = is_included-Any e.namespace cfg.include_namespaces included;
    }
