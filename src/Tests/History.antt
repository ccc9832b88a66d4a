-- ===== src/Tests/History.antt =====
-- The theorems on internal/webui/decisions.go at a few decisions and a list in Redis.
use k8s_ai_remediator.Prelude.{
  ◌≡◌, refl, Bytes, codes, [], ◌∷◌, Option, none, some, eqb, true, List, pos, ap, take,
}
use mathlib.Core.List.{cons-ne-nil}
use k8s_ai_remediator.Model.{Decision, noop, fin}
use k8s_ai_remediator.WebUi.Decisions.{
  Redis, Call, RecentDecisionRecorder, record_of, snapshot, mirrored, record_decision,
  new_recorder_redis, store, mirror, new_recorder,
}
use k8s_ai_remediator.WebUi.Decisions.Latest.{record_all, after, snapshot-ring}
use k8s_ai_remediator.WebUi.Decisions.Mirror.{RedisLaw, Lists, snapshot-mirror}

abbrev decision : Decision
decision = record {
  summary = [];
  severity = codes "low";
  probable_cause = [];
  confidence = fin (pos 0);
  action = noop;
  namespace = [];
  resource_kind = [];
  resource_name = [];
  parameters = [];
  reason = [];
}

abbrev call_for : Bytes → Call
call_for name = record {
  now = 7;
  namespace = codes "apps";
  kind = codes "Pod";
  name = name;
  event_reason = codes "BackOff";
  decision = decision;
  outcome = codes "success";
  outcome_error = [];
}

-- a server that keeps one list, and records told apart by their names
abbrev server : Redis
server = record {
  State = List Bytes;
  push_trim = λ key b n s. take n (b ∷ s);
  range = λ key n s. some s;
  ping = λ s. true;
  marshal = λ rec. some rec.name;
  unmarshal = λ b. some (record_of (call_for b));
}

abbrev listed : Option (List Bytes) → List Bytes
listed none = []
listed (some vals) = vals

server-RedisLaw : RedisLaw server
server-RedisLaw = record {
  range-push_trim = λ key b n s vals e. ap (λ o. some (take n (b ∷ listed o))) e;
}

abbrev recorder : RecentDecisionRecorder
recorder = record (new_recorder (pos 2)) { redis_key = some (codes "decisions:recent") }

abbrev three : List Call
three = call_for (codes "a") ∷ call_for (codes "b") ∷ call_for (codes "c") ∷ []

-- a process without a server's address
snapshot-ring_example :
    snapshot server (after server (pos 2) [] [] [] three).0 (after server (pos 2) [] [] [] three).1
    ≡ some (record_of (call_for (codes "c")) ∷ record_of (call_for (codes "b")) ∷ [])
unfolding mirrored record_all record_decision new_recorder_redis store mirror new_recorder eqb
snapshot-ring_example = snapshot-ring server (pos 2) [] [] [] three refl

recorder-Lists : Lists server 1 recorder (codes "z" ∷ []) (record_of (call_for (codes "z")) ∷ [])
unfolding new_recorder
recorder-Lists = record {
  capacity = refl;
  key = codes "decisions:recent";
  vals = codes "z" ∷ [];
  attached = refl;
  listed = refl;
  decodes = (refl, tt);
}

snapshot-mirror_example :
    snapshot server
      (record_all server (call_for (codes "a") ∷ []) recorder (codes "z" ∷ [])).0
      (record_all server (call_for (codes "a") ∷ []) recorder (codes "z" ∷ [])).1
    ≡ some (record_of (call_for (codes "a")) ∷ record_of (call_for (codes "z")) ∷ [])
unfolding record_of
snapshot-mirror_example =
    snapshot-mirror server server-RedisLaw 1 (call_for (codes "a") ∷ []) recorder (codes "z" ∷ [])
      (record_of (call_for (codes "z")) ∷ []) ((codes "a", refl, refl), tt) recorder-Lists
      (cons-ne-nil _ _)
