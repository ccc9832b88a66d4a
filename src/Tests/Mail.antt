-- ===== src/Tests/Mail.antt =====
-- The theorems on internal/notify/notify.go at one configuration and one result.
use k8s_ai_remediator.Prelude.{◌≤◌, ◌≡◌, refl, arith, codes, [], none, some, pos, All, eqb}
use k8s_ai_remediator.Text.{trim_space, to_lower}
use k8s_ai_remediator.Model.{noop, fin, high, meets_minimum, parse_severity}
use k8s_ai_remediator.Notify.{
  FormatFloat, DecisionResult, SmtpConfig, SmtpNotifier, new_notifier, Dispatchers, idle,
  notify_decision, Reach, start, next, notify,
}
use k8s_ai_remediator.Notify.Dispatch.{IsDue, Reach-new_notifier, Reach-abandoned}

abbrev format_float : FormatFloat
format_float f = codes "1.00"

abbrev config : SmtpConfig
config = record {
  host = codes "smtp.example.com";
  port = pos 0;
  user = codes "agent@example.com";
  password = codes "secret";
  from = [];
  to = codes "ops@example.com";
  min_severity = some high;
}

abbrev notifier : SmtpNotifier
notifier = record {
  cfg = record config { port = pos 587; from = codes "agent@example.com" };
  minimum = high;
  capacity = 16;
}

abbrev result : DecisionResult
result = record {
  namespace = codes "shop";
  kind = codes "Pod";
  name = codes "cart";
  event_reason = codes "BackOff";
  event_message = [];
  decision = record {
    summary = codes "crash loop";
    severity = codes "Critical";
    probable_cause = [];
    confidence = fin (pos 1);
    action = noop;
    namespace = codes "shop";
    resource_kind = codes "Pod";
    resource_name = codes "cart";
    parameters = [];
    reason = [];
  };
  execution_err = none;
}

abbrev one_sent : Dispatchers
one_sent = notify_decision format_float notifier result idle

sends : one_sent.waiting ≡ 1
unfolding notify_decision meets_minimum parse_severity eqb trim_space to_lower
sends = refl

Reach-new_notifier_example :
    (one_sent.waiting ≤ 16) × All (IsDue format_float notifier) one_sent.started
unfolding new_notifier eqb trim_space
Reach-new_notifier_example =
    Reach-new_notifier format_float config notifier one_sent refl (next start (notify result))

Reach-abandoned_example :
    (s : Dispatchers) × Reach format_float notifier s × (s.waiting ≡ 0) × (s.abandoned ≡ 40)
unfolding meets_minimum parse_severity eqb trim_space to_lower
Reach-abandoned_example = Reach-abandoned format_float notifier result refl (omega arith) 40
