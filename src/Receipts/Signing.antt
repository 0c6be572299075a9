-- ===== src/Receipts/Signing.antt =====
-- src/core/receipt-signing.js: what signs a receipt, and whether a signature is to be relied on. The
-- keys and the check of a signature by a key are the crypto library's.
use etnpilot.Common.{
  ℕ, Bool, true, false, not, ◌&&◌, ◌||◌, Option, none, some, List, [], ◌∷◌, String, str_eq,
  if◌then◌else◌, ltb, leb, ◌==◌, Json, num, time, str, obj, Fields, end, field, field_at, is_truthy,
}

-- `window`: the dates of 'receipts.signing.keyWindows' that are given.
pub record KeyWindow : Type 0 where
  pub not_before : Option ℕ
  pub not_after : Option ℕ
  pub revoked_at : Option ℕ

-- A verifier: `check` is whether the text is the base64 of 64 bytes that sign the hash.
pub record Verifier : Type 0 where
  pub check : String → String → Bool
  pub window : Option KeyWindow

abbrev pub Verifiers : Type 0
Verifiers = List (String × Verifier)

abbrev pub find_verifier : String → Verifiers → Option Verifier
find_verifier k [] = none
find_verifier k ((j, v) ∷ vs) = if str_eq j k then some v else find_verifier k vs

pub record Signer : Type 0 where
  pub key_id : String
  pub sign : String → String

pub data SignatureError : Type 0 where
  no_signature unsupported_proof untrusted_key invalid_signature key_not_yet_valid key_expired
        key_revoked :
      SignatureError

pub data SignatureCheck : Type 0 where
  valid_proof : (undated : Bool) → SignatureCheck
  bad_proof : SignatureError → SignatureCheck

-- `signer.proof`, with the time of signing that `append` adds.
abbrev pub proof_of : Signer → ℕ → Fields
proof_of signer now = field "version" (num 1) (
    field "algorithm" (str "Ed25519")
      (field "keyId" (str signer.key_id) (field "signedAt" (time now) end)))

-- The fields of a value: what is no object has none.
abbrev pub fields_of : Option Json → Fields
fields_of (some (obj fs)) = fs
fields_of _ = end

abbrev pub is_number : ℕ → Option Json → Bool
is_number n (some (num m)) = m == n
is_number n _ = false

abbrev pub is_text : String → Option Json → Bool
is_text s (some (str t)) = str_eq t s
is_text s _ = false

abbrev pub verifier_for : Verifiers → Option Json → Option Verifier
verifier_for vs (some (str k)) = find_verifier k vs
verifier_for vs _ = none

-- `verifier.verify(hash, signature)`.
abbrev pub is_signed_by : Verifier → String → Option Json → Bool
is_signed_by v hash (some (str s)) = not (str_eq s "") && v.check hash s
is_signed_by v hash _ = false

abbrev pub is_early : Option ℕ → ℕ → Bool
is_early none at = false
is_early (some t) at = ltb at t

abbrev pub is_late : Option ℕ → ℕ → Bool
is_late none at = false
is_late (some t) at = ltb t at

abbrev pub is_revoked : Option ℕ → ℕ → Bool
is_revoked none at = false
is_revoked (some t) at = leb t at

abbrev pub is_given : Option ℕ → Bool
is_given none = false
is_given (some t) = true

-- `Object.keys(window).length === 0`.
abbrev pub is_open_window : KeyWindow → Bool
is_open_window w = not (is_given w.not_before || (is_given w.not_after || is_given w.revoked_at))

abbrev pub in_window : KeyWindow → ℕ → SignatureCheck
in_window w at =
    if is_early w.not_before at
    then bad_proof key_not_yet_valid
    else if is_late w.not_after at
    then bad_proof key_expired
    else if is_revoked w.revoked_at at
    then bad_proof key_revoked
    else valid_proof false

-- The date of a proof, if it is one.
abbrev pub signed_at : Option Json → Option ℕ
signed_at (some (time t)) = some t
signed_at _ = none

abbrev pub dated_check : KeyWindow → Option ℕ → SignatureCheck
dated_check w none = valid_proof true
dated_check w (some at) = in_window w at

abbrev pub window_check : Option KeyWindow → Option Json → SignatureCheck
window_check none date = valid_proof false
window_check (some w) date =
    if is_open_window w then valid_proof false else dated_check w (signed_at date)

abbrev pub check_by : Option Verifier → Fields → String → Option Json → SignatureCheck
check_by none proof hash signature = bad_proof untrusted_key
check_by (some v) proof hash signature =
    if not (is_signed_by v hash signature)
    then bad_proof invalid_signature
    else window_check v.window (field_at "signedAt" proof)

-- `verifyReceiptSignature`.
unfoldable pub verify_receipt_signature :
    Verifiers → Option Json → String → Option Json → SignatureCheck
verify_receipt_signature vs proof hash signature =
    if not (is_truthy proof)
    then bad_proof no_signature
    else if not (is_number 1 (field_at "version" (fields_of proof)))
        || not (is_text "Ed25519" (field_at "algorithm" (fields_of proof)))
    then bad_proof unsupported_proof
    else check_by (verifier_for vs (field_at "keyId" (fields_of proof))) (fields_of proof) hash
        signature
