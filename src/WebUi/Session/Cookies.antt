-- ===== src/WebUi/Session/Cookies.antt =====
-- Cookies signed and read back, and what an accepted cookie holds (internal/webui/auth.go).
use k8s_ai_remediator.Prelude.{
  ℕ, ◌≡◌, ◌≢◌, refl, Bool, Option, none, some, [], ◌∷◌, ◌++◌, Bytes, ℤ, arith, ap, sym, ◌∙◌, leb_ℤ,
  eqb, eqb_self, eqb_sound, if◌then◌else◌, true, false, ==_self,
}
use k8s_ai_remediator.Result.{Result, ok, err}
use k8s_ai_remediator.Text.{cut_first, has_byte}
use k8s_ai_remediator.Text.Numbers.{itoa, atoi}
use k8s_ai_remediator.Text.Numbers.RoundTrip.{IsInt, atoi-itoa}
use k8s_ai_remediator.WebUi.Session.{
  Crypto, Base64Law, sign_session, session_user, or_nobody, ok_value, verify_session,
}

cut_first-append :
    (sep : ℕ) (a b : Bytes) → has_byte sep a ≡ false → cut_first sep (a ++ (sep ∷ b)) ≡ some (a, b)
unfolding cut_first has_byte
cut_first-append sep [] b h = ground (arith, ==_self sep)
cut_first-append sep (c ∷ a) b h = ground (arith, cut_first-append sep a b)

-- what a payload holds that names a user at `now`
pub record Names (payload user : Bytes) (now : ℤ) : Type 0 where
  pub expiry : Bytes
  pub expires_at : ℤ
  pub fields : cut_first b'|' payload ≡ some (user, expiry)
  pub parsed : atoi expiry ≡ ok expires_at
  pub unexpired : leb_ℤ expires_at now ≡ false

-- what a cookie holds that is accepted as `user`'s at `now`: the payload's code under `key`
pub record IsSigned (crypto : Crypto) (cookie key user : Bytes) (now : ℤ) : Type 0 where
  pub left : Bytes
  pub right : Bytes
  pub payload : Bytes
  pub parts : cut_first b'.' cookie ≡ some (left, right)
  pub decoded : crypto.decode left ≡ some payload
  pub signature : crypto.decode right ≡ some (crypto.hmac key payload)
  pub names : Names payload user now

or_nobody-cases {ℓ} :
    {A : Type ℓ} (o : Option A) (f : A → Bytes) (user : Bytes)
    → or_nobody o f ≡ user
    → user ≢ []
    → (a : A) × (o ≡ some a) × (f a ≡ user)
or_nobody-cases none f user e h = absurd (h (sym e))
or_nobody-cases (some a) f user e h = (a, refl, e)

-- a test that lets the user through when it holds
passed :
    (b : Bool) (x user : Bytes) → (if b then x else []) ≡ user → user ≢ [] → (b ≡ true) × (x ≡ user)
passed b x user e h = ground arith

refused :
    (b : Bool) (x user : Bytes)
    → (if b then [] else x) ≡ user
    → user ≢ []
    → (b ≡ false) × (x ≡ user)
refused b x user e h = ground arith

ok_value-some {ℓ} : {A : Type ℓ} (r : Result A) (a : A) → ok_value r ≡ some a → r ≡ ok a
ok_value-some (ok b) a e = ground arith
ok_value-some (err x) a e = absurd (cc e)

session_user-payload :
    (username : Bytes) (expires_at now : ℤ)
    → has_byte b'|' username ≡ false
    → IsInt expires_at
    → session_user (username ++ (b'|' ∷ itoa expires_at)) now
      ≡ (if leb_ℤ expires_at now then [] else username)
unfolding session_user
session_user-payload username expires_at now bar fits =
    rw
      (
        session_user,
        cut_first-append b'|' username (itoa expires_at) bar,
        atoi-itoa expires_at fits,
      )
      refl

session_user-Names :
    (payload user : Bytes) (now : ℤ)
    → session_user payload now ≡ user
    → user ≢ []
    → Names payload user now
unfolding session_user
session_user-Names payload user now e h =
    let (fields, found, e1) = or_nobody-cases (cut_first b'|' payload) _ user e h in
    let (expires_at, parsed, e2) = or_nobody-cases (ok_value (atoi fields.1)) _ user e1 h in
    let (unexpired, same) = refused (leb_ℤ expires_at now) fields.0 user e2 h in
    record {
      expiry = fields.1;
      expires_at = expires_at;
      fields = found ∙ ap (λ u. some (u, fields.1)) same;
      parsed = ok_value-some (atoi fields.1) expires_at parsed;
      unexpired = unexpired;
    }

module _ (crypto : Crypto) where
  -- A session signed for a user whose name has no bar is read back as that user's until its
  -- expiry, and as nobody's from then on.
  pub verify_session-sign_session :
      (username : Bytes) (expires_at now : ℤ) (key : Bytes)
      → Base64Law crypto
      → has_byte b'|' username ≡ false
      → IsInt expires_at
      → verify_session crypto (sign_session crypto username expires_at key) key now
        ≡ (if leb_ℤ expires_at now then [] else username)
  unfolding verify_session sign_session
  verify_session-sign_session username expires_at now key law bar fits =
      let payload = username ++ (b'|' ∷ itoa expires_at) in
      let sig = crypto.hmac key payload in
      rw
        (
          verify_session,
          cut_first-append b'.' (crypto.encode payload) (crypto.encode sig) (law.alphabet payload),
          law.decode-encode payload,
          law.decode-encode sig,
          eqb_self sig,
          session_user-payload username expires_at now bar fits,
        )
        refl

  -- A cookie that is accepted as a user's decodes to a payload and to that payload's code under
  -- the key, and the payload names that user and an expiry that is still to come.
  pub verify_session-IsSigned :
      (cookie key user : Bytes) (now : ℤ)
      → verify_session crypto cookie key now ≡ user
      → user ≢ []
      → IsSigned crypto cookie key user now
  unfolding verify_session
  verify_session-IsSigned cookie key user now e h =
      let (parts, split, e1) = or_nobody-cases (cut_first b'.' cookie) _ user e h in
      let (payload, decoded, e2) = or_nobody-cases (crypto.decode parts.0) _ user e1 h in
      let (sig, signed, e3) = or_nobody-cases (crypto.decode parts.1) _ user e2 h in
      let code = crypto.hmac key payload in
      let (equal, e4) = passed (eqb code sig) (session_user payload now) user e3 h in
      record {
        left = parts.0;
        right = parts.1;
        payload = payload;
        parts = split;
        decoded = decoded;
        signature = signed ∙ ap some (sym (eqb_sound code sig equal));
        names = session_user-Names payload user now e4 h;
      }
