-- ===== src/Tests/Dashboard.antt =====
-- The theorems on internal/webui at a few requests, with a transparent code for a hash.
use k8s_ai_remediator.Prelude.{
  ℕ, ◌+◌, ◌-◌, ◌*◌, ◌≡◌, ◌⊎◌, refl, arith, Bytes, codes, [], ◌∷◌, none, some, true, false, List,
  pos, ap, if◌then◌else◌, leb_ℤ, eqb, lookup,
}
use k8s_ai_remediator.Text.{has_byte, has_prefix, trim_space}
use k8s_ai_remediator.Text.Numbers.{int_max}
use k8s_ai_remediator.WebUi.Throttle.{
  new_login_throttle, minute, allowed, Verdict, fails, settle_all,
}
use k8s_ai_remediator.WebUi.Throttle.Isolation.{own, allowed-own}
use k8s_ai_remediator.WebUi.Throttle.Release.{allowed-after_lockout}
use k8s_ai_remediator.WebUi.Session.{Crypto, Base64Law, sign_session, verify_session}
use k8s_ai_remediator.WebUi.Session.Cookies.{
  IsSigned, verify_session-sign_session, verify_session-IsSigned,
}
use k8s_ai_remediator.WebUi.Login.{
  Request, Options, Platform, require_auth, url_query_escape, sanitise_next, is_safe_method,
}
use k8s_ai_remediator.WebUi.Login.Access.{HasSession, HasPassword, require_auth-handled}
use k8s_ai_remediator.WebUi.Login.Escape.{
  percent_decode, percent_decode-url_query_escape, sanitise_next-has_prefix,
}

abbrev shift_up : Bytes → Bytes
shift_up [] = []
shift_up (c ∷ s) = (c + 47) ∷ shift_up s

abbrev shift_down : Bytes → Bytes
shift_down [] = []
shift_down (c ∷ s) = (c - 47) ∷ shift_down s

abbrev crypto : Crypto
crypto = record {
  sha256 = λ s. s;
  hmac = λ key s. key;
  encode = shift_up;
  decode = λ s. some (shift_down s);
}

shift_down-shift_up : (s : Bytes) → shift_down (shift_up s) ≡ s
shift_down-shift_up [] = refl
shift_down-shift_up (c ∷ s) = ground (arith, shift_down-shift_up s)

shift_up-has_byte : (s : Bytes) → has_byte b'.' (shift_up s) ≡ false
unfolding has_byte
shift_up-has_byte [] = refl
shift_up-has_byte (c ∷ s) = ground (arith, shift_up-has_byte s)

crypto-Base64Law : Base64Law crypto
crypto-Base64Law = record {
  decode-encode = λ s. ap some (shift_down-shift_up s);
  alphabet = shift_up-has_byte;
}

abbrev platform : Platform
platform = record { crypto = crypto; split_host_port = λ s. none }

abbrev options : Options
options = record { username = codes "admin"; password = codes "secret" }

-- a call of the status page with basic authentication
abbrev call_with : Bytes → Bytes → Request
call_with ip pass = record {
  method = codes "GET";
  path = codes "/api/status";
  request_uri = codes "/api/status";
  remote_addr = ip;
  fetch_site = [];
  accept = [];
  session_cookie = none;
  basic_auth = some (codes "admin", pass);
  form_error = none;
  form = [];
  query = [];
}

abbrev calls : List (ℕ × Request)
calls =
    (minute, call_with (codes "a") (codes "guess"))
    ∷ (2 * minute, call_with (codes "b") (codes "secret"))
    ∷ (3 * minute, call_with (codes "a") (codes "another"))
    ∷ []

abbrev verdicts : List (ℕ × Verdict)
verdicts = (minute, fails (codes "a")) ∷ (2 * minute, fails (codes "b")) ∷ []

allowed-own_example :
    allowed (codes "a") (3 * minute) (settle_all verdicts new_login_throttle)
    ≡ allowed (codes "a") (3 * minute) (settle_all (own (codes "a") verdicts) new_login_throttle)
allowed-own_example =
    allowed-own (codes "a") 0 (3 * minute) verdicts new_login_throttle tt (omega arith)
      (omega arith)

allowed-after_lockout_example :
    allowed (codes "a") (16 * minute) (settle_all verdicts new_login_throttle) ≡ true
unfolding own eqb allowed lookup
allowed-after_lockout_example =
    allowed-after_lockout (codes "a") 0 (16 * minute) verdicts new_login_throttle tt (omega arith)
      (omega arith) (omega arith) refl

verify_session-sign_session_example :
    verify_session crypto
      (sign_session crypto (codes "admin") (pos 20) (codes "k"))
      (codes "k")
      (pos 10)
    ≡ (if leb_ℤ (pos 20) (pos 10) then [] else codes "admin")
unfolding has_byte
verify_session-sign_session_example =
    verify_session-sign_session crypto (codes "admin") (pos 20) (pos 10) (codes "k")
      crypto-Base64Law refl (unfold int_max in omega arith)

abbrev cookie : Bytes
cookie = sign_session crypto (codes "admin") (pos 20) (codes "k")

verify_session-IsSigned_example : IsSigned crypto cookie (codes "k") (codes "admin") (pos 10)
verify_session-IsSigned_example =
    verify_session-IsSigned crypto cookie (codes "k") (codes "admin") (pos 10)
      verify_session-sign_session_example (cc)

require_auth-handled_example :
    ((is_safe_method (codes "GET") ≡ true) ⊎ (eqb [] (codes "cross-site") ≡ false))
    × (HasSession platform options (call_with (codes "a") (codes "secret")) 0
        ⊎ HasPassword platform options
            (call_with (codes "a") (codes "secret"))
            0
            new_login_throttle)
unfolding require_auth eqb allowed lookup
require_auth-handled_example =
    require_auth-handled platform options (call_with (codes "a") (codes "secret")) 0
      new_login_throttle refl

percent_decode-url_query_escape_example :
    percent_decode (url_query_escape (codes "/a b")) ≡ codes "/a b"
percent_decode-url_query_escape_example =
    percent_decode-url_query_escape (codes "/a b") (omega arith)

sanitise_next-has_prefix_example :
    (has_prefix (codes "/") (sanitise_next (codes " /logs")) ≡ true)
    × (has_prefix (codes "//") (sanitise_next (codes " /logs")) ≡ false)
    × (has_prefix (codes "/") (trim_space (codes " /logs")) ≡ true
        → has_prefix (codes "//") (trim_space (codes " /logs")) ≡ false
        → sanitise_next (codes " /logs") ≡ trim_space (codes " /logs"))
sanitise_next-has_prefix_example = sanitise_next-has_prefix (codes " /logs")
