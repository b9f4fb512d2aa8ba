-- ===== src/Intake/Security.antt =====
-- core/security.py: the check of a webhook's signature.
use Prim.Native.Char.{code}
use healpipe.Prelude.{
  ℕ, zero, suc, String, Bool, true, false, ◌&&◌, ltb, ◌==◌, string_eq, if◌then◌else◌, ◌≡◌, refl, ap,
  ==_refl,
}
use healpipe.Database.State.{Result, ok, err, type_error}
use healpipe.Python.{Text}

-- What the code takes from Python's hmac: the hexadecimal digest of a body under a key.
pub record Hmac : Type 0 where
  pub hexdigest : (secret : String) (body : String) → String

-- `text[7:]`
abbrev pub drop : ℕ → String → String
drop zero s = s
drop (suc n) String.[] = String.[]
drop (suc n) (String.◌∷◌ c s) = drop n s

abbrev pub starts_with : String → String → Bool
starts_with String.[] s = true
starts_with (String.◌∷◌ c prefix) String.[] = false
starts_with (String.◌∷◌ c prefix) (String.◌∷◌ d s) =
    if String.◌∷◌ c String.[] == String.◌∷◌ d String.[] then starts_with prefix s else false

abbrev pub is_ascii : String → Bool
is_ascii String.[] = true
is_ascii (String.◌∷◌ c s) = ltb (code c) 128 && is_ascii s

-- `hmac.compare_digest(a, b)` for texts: equality, and a TypeError where a text is not ASCII.
unfoldable pub compare_digest : String → String → Result Bool
compare_digest a b =
    if is_ascii a && is_ascii b
    then ok (a == b)
    else err (type_error "comparing strings with non-ASCII characters is not supported")

unfoldable pub verify_webhook_signature : Text → Hmac → String → String → String → Result Bool
verify_webhook_signature text hmac body signature secret =
    let supplied = text.strip signature in
    let bare = if starts_with "sha256=" (text.lower supplied) then drop 7 supplied else supplied in
    compare_digest (text.lower bare) (hmac.hexdigest secret body)

abbrev prepend : String → String → String
prepend String.[] s = s
prepend (String.◌∷◌ c prefix) s = String.◌∷◌ c (prepend prefix s)

-- The form in which most senders give a digest.
abbrev pub tagged : String → String
tagged d = prepend "sha256=" d

starts_long : (d : String) → starts_with "sha256=" (tagged d) ≡ true
starts_long d = refl

drop_long : (d : String) → drop 7 (tagged d) ≡ d
drop_long d = refl

-- The digest of a body is accepted as its signature, both bare and after "sha256=", where stripping
-- and lowering leave these two texts as they are and a digest is ASCII and does not begin with
-- "sha256=".
pub verify_own_signature :
    (text : Text) (hmac : Hmac) (body secret : String)
    → let digest = hmac.hexdigest secret body in
      (text.strip digest ≡ digest)
      → text.lower digest ≡ digest
      → starts_with "sha256=" digest ≡ false
      → is_ascii digest ≡ true
      → text.strip (tagged digest) ≡ tagged digest
      → text.lower (tagged digest) ≡ tagged digest
      → (verify_webhook_signature text hmac body digest secret ≡ ok true)
        × (verify_webhook_signature text hmac body (tagged digest) secret ≡ ok true)
unfolding verify_webhook_signature compare_digest
verify_own_signature text hmac body secret strip lower bare ascii strip_long lower_long =
    let d = hmac.hexdigest secret body in
    (
      rw strip (rw lower (rw bare (rw lower (rw ascii (ap ok (==_refl d)))))),
      rw strip_long (
          rw lower_long
            (rw (starts_long d, drop_long d) (rw lower (rw ascii (ap ok (==_refl d)))))),
    )
