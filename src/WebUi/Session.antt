-- ===== src/WebUi/Session.antt =====
-- internal/webui/auth.go: the signed session cookies. SHA-256, HMAC and base64 are parameters.
pub mod Cookies
use k8s_ai_remediator.Prelude.{
  ℕ, ◌+◌, ◌-◌, ◌*◌, ◌/◌, ◌^◌, ◌≡◌, Bool, Option, none, some, [], ◌∷◌, ◌++◌, Bytes, codes, ℤ, pos,
  leb_ℤ, eqb, if◌then◌else◌, true, false,
}
use k8s_ai_remediator.Result.{Result, ok, err}
use k8s_ai_remediator.Text.{cut_first, has_byte}
use k8s_ai_remediator.Text.Numbers.{itoa, atoi}

-- sha256.Sum256, HMAC-SHA256 with the key first, and base64.RawURLEncoding
pub record Crypto : Type 0 where
  pub sha256 : Bytes → Bytes
  pub hmac : Bytes → Bytes → Bytes
  pub encode : Bytes → Bytes
  pub decode : Bytes → Option Bytes

-- base64.RawURLEncoding decodes what it encodes, and its alphabet has no full stop.
pub record Base64Law (c : Crypto) : Type 0 where
  pub decode-encode : (s : Bytes) → c.decode (c.encode s) ≡ some s
  pub alphabet : (s : Bytes) → has_byte b'.' (c.encode s) ≡ false

-- time.Time.Unix, for a time after 1970
abbrev pub unix : ℕ → ℤ
unix now = pos (now / 10 ^ 9 - 62_135_596_800)

abbrev pub session_ttl : ℕ
session_ttl = 12 * (3600 * 10 ^ 9)

-- an early `return ""`, where a step gives nothing
abbrev pub or_nobody {ℓ} : {A : Type ℓ} → Option A → (A → Bytes) → Bytes
or_nobody none f = []
or_nobody (some a) f = f a

abbrev pub ok_value {ℓ} : {A : Type ℓ} → Result A → Option A
ok_value (ok a) = some a
ok_value (err e) = none

-- the tests on the fields of a payload whose code is right
unfoldable pub session_user : Bytes → ℤ → Bytes
session_user payload now = or_nobody (cut_first b'|' payload) λ fields.
    or_nobody (ok_value (atoi fields.1)) λ expires_at. if leb_ℤ expires_at now then [] else fields.0

module _ (crypto : Crypto) where
  unfoldable pub session_key : Bytes → Bytes
  session_key password = crypto.sha256 (password ++ codes "|ai-remediator-session-v1")

  unfoldable pub sign_session : Bytes → ℤ → Bytes → Bytes
  sign_session username expires_at key =
      let payload = username ++ (b'|' ∷ itoa expires_at) in
      crypto.encode payload ++ (b'.' ∷ crypto.encode (crypto.hmac key payload))

  unfoldable pub verify_session : Bytes → Bytes → ℤ → Bytes
  verify_session cookie key now = or_nobody (cut_first b'.' cookie) λ parts.
      or_nobody (crypto.decode parts.0) λ payload.
        or_nobody (crypto.decode parts.1)
          λ sig. if eqb (crypto.hmac key payload) sig then session_user payload now else []
