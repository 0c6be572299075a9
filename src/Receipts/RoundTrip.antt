-- ===== src/Receipts/RoundTrip.antt =====
-- src/core/receipt-store.js: what the store writes, the verifier accepts.
use etnpilot.Common.{
  ℕ, ◌+◌, ◌≡◌, refl, sym, ap, ◌∙◌, true, false, Option, none, some, List, [], ◌∷◌, ◌++◌, String,
  str_eq, if◌then◌else◌, eq_refl, arith, Json, str, obj, Fields, field_at, put, without, is_truthy,
  Result, ok, err, field_at-put,
}
use etnpilot.Receipts.Signing.{
  Verifier, Signer, find_verifier, proof_of, verify_receipt_signature, valid_proof,
}
use etnpilot.Receipts.Store.{Hashing, receipt_hash, has_reserved, payload_of, entry_of}
use etnpilot.Receipts.Lines.{Line}
use etnpilot.Receipts.Chain.{
  Options, Chain, Failure, entries_after_terminal, is_text_of, accept, push_proof, push_entry,
  push_line, push, and_then, push_all,
}
use etnpilot.Receipts.Tails.{hash_json}
use etnpilot.Receipts.Entries.{
  payload_of-IsBare, payload_of-previous, absent, follows-hash_json, entry_of-hash,
  entry_of-payload,
}

module _ (h : Hashing) (o : Options) where
  pub push_all-append :
      (c : Chain) (ls : List Line) (l : Line)
      → push_all h o c (ls ++ l ∷ []) ≡ and_then h o (push_all h o c ls) (λ d. push h o d l)
  unfolding push_all
  push_all-append c [] l = go (push h o c l)
    where
      go : (r : Result Failure Chain) → and_then h o r (λ d. ok d) ≡ r
      go (ok d) = refl
      go (err e) = refl
  push_all-append c (k ∷ ls) l = go (push h o c k) (λ d. push_all-append d ls l)
    where
      go :
          (r : Result Failure Chain)
          → ((d : Chain)
              → push_all h o d (ls ++ l ∷ [])
                ≡ and_then h o (push_all h o d ls) (λ e. push h o e l))
          → and_then h o r (λ d. push_all h o d (ls ++ l ∷ []))
            ≡ and_then h o (and_then h o r (λ d. push_all h o d ls)) (λ d. push h o d l)
      go (ok d) ih = ih d
      go (err e) ih = refl

-- What the options ask of the entries of a store: without a signer, signatures are not required; with
-- one, its key is trusted at any time, its signatures are texts, and the key accepts them.
pub data Trusts (o : Options) : Option Signer → Type 0 where
  unsigned : o.require_signatures ≡ false → Trusts o none
  signed :
      {signer : Signer} (v : Verifier)
      → find_verifier signer.key_id o.verifiers ≡ some v
      → v.window ≡ none
      → ((hash : String) → v.check hash (signer.sign hash) ≡ true)
      → ((hash : String) → str_eq (signer.sign hash) "" ≡ false)
      → Trusts o (some signer)

module _ (h : Hashing) (o : Options) where
  push_entry-eq :
      (c : Chain) (e payload : Fields) (hash : String)
      → field_at "hash" e ≡ some (str hash)
      → without "signature" (without "hash" e) ≡ payload
      → hash ≡ receipt_hash h payload
      → field_at "previousHash" payload ≡ some (hash_json c.previous_hash)
      → push_entry h o c e ≡ push_proof h o c (some (str hash)) (field_at "signature" e) payload
  push_entry-eq c e payload hash f w made linked =
      rw (f, w)
        (rw (ap (is_text_of (some (str hash))) (sym made) ∙ eq_refl hash)
          (rw (linked, follows-hash_json c.previous_hash) refl))

  push_proof-valid :
      (c : Chain) (hash : String) (signature : Option Json) (payload : Fields)
      → is_truthy (field_at "proof" payload) ≡ true
      → verify_receipt_signature o.verifiers (field_at "proof" payload) hash signature
        ≡ valid_proof false
      → push_proof h o c (some (str hash)) signature payload
        ≡ ok (accept (record c { signed = c.signed + 1 }) (some (str hash)) payload)
  push_proof-valid c hash signature payload present valid = rw (present, valid) refl

  push_open : (c : Chain) (l : Line) → c.terminal ≡ false → push h o c l ≡ push_line h o c l
  unfolding push
  push_open c l unsealed =
      ap
        (λ b.
          if b
          then err (record { reason = entries_after_terminal; line = c.count })
          else push_line h o c l)
        unsealed

  module _ (c : Chain) (now : ℕ) (fs : Fields) (free : has_reserved fs ≡ false) where
    push_unsigned :
        (hash : String)
        → o.require_signatures ≡ false
        → let payload = payload_of none now (hash_json c.previous_hash) fs in
          (d : Chain) × (push_proof h o c
              (some (str hash))
              (field_at "signature" (entry_of none hash payload))
              payload
            ≡ ok d)
    push_unsigned hash plain =
        let payload = payload_of none now (hash_json c.previous_hash) fs in
        let bare = payload_of-IsBare none now (hash_json c.previous_hash) fs free in
        let no_proof : field_at "proof" payload ≡ none =
          field_at-put "proof" "previousHash" (hash_json c.previous_hash) fs
          ∙ absent "proof" fs (ground arith) in
        let no_signature : field_at "signature" (put "hash" (str hash) payload) ≡ none =
          field_at-put "signature" "hash" (str hash) payload
          ∙ absent "signature" payload bare.no_signature in
        (
          accept (record c { unsigned = c.unsigned + 1 }) (some (str hash)) payload,
          rw (no_proof, no_signature) (rw plain refl),
        )

    push_signed-ok :
        (signer : Signer) (v : Verifier) (hash : String)
        → find_verifier signer.key_id o.verifiers ≡ some v
        → v.window ≡ none
        → v.check hash (signer.sign hash) ≡ true
        → str_eq (signer.sign hash) "" ≡ false
        → let payload = payload_of (some signer) now (hash_json c.previous_hash) fs in
          (d : Chain) × (push_proof h o c
              (some (str hash))
              (field_at "signature" (entry_of (some signer) hash payload))
              payload
            ≡ ok d)
    unfolding verify_receipt_signature
    push_signed-ok signer v hash found open_ended checks text =
        let payload = payload_of (some signer) now (hash_json c.previous_hash) fs in
        let proof : field_at "proof" payload ≡ some (obj (proof_of signer now)) =
          field_at-put "proof" "proof" (obj (proof_of signer now))
            (put "previousHash" (hash_json c.previous_hash) fs) in
        let signature : field_at "signature" (entry_of (some signer) hash payload)
            ≡ some (str (signer.sign hash)) =
          rw text (
            field_at-put "signature" "signature" (str (signer.sign hash))
              (put "hash" (str hash) payload)) in
        (
          accept (record c { signed = c.signed + 1 }) (some (str hash)) payload,
          push_proof-valid c hash (field_at "signature" (entry_of (some signer) hash payload))
              payload (ap is_truthy proof)
              (ap
                  (λ p.
                    verify_receipt_signature o.verifiers p hash
                      (field_at "signature" (entry_of (some signer) hash payload)))
                  proof
                ∙ ap (verify_receipt_signature o.verifiers (some (obj (proof_of signer now))) hash)
                    signature
                ∙ rw (found, open_ended, checks, text) refl),
        )

    -- The line that the store writes when it stands where the verifier does.
    pub written-accepted :
        (signer : Option Signer) (hash : String)
        → Trusts o signer
        → hash ≡ receipt_hash h (payload_of signer now (hash_json c.previous_hash) fs)
        → c.terminal ≡ false
        → (d : Chain) × (push h o c (
              some
                (obj (entry_of signer hash (payload_of signer now (hash_json c.previous_hash) fs))))
            ≡ ok d)
    written-accepted signer hash trust made unsealed =
        let payload = payload_of signer now (hash_json c.previous_hash) fs in
        let bare = payload_of-IsBare signer now (hash_json c.previous_hash) fs free in
        let (d, proved) = by_trust signer hash trust in
        (
          d,
          push_open c (some (obj (entry_of signer hash payload))) unsealed
              ∙ push_entry-eq c (entry_of signer hash payload) payload hash
                  (entry_of-hash signer hash payload bare)
                  (entry_of-payload signer hash payload bare) made
                  (payload_of-previous signer now (hash_json c.previous_hash) fs free)
              ∙ proved,
        )
      where
        by_trust :
            (signer : Option Signer) (hash : String)
            → Trusts o signer
            → let payload = payload_of signer now (hash_json c.previous_hash) fs in
              (d : Chain) × (push_proof h o c
                  (some (str hash))
                  (field_at "signature" (entry_of signer hash payload))
                  payload
                ≡ ok d)
        by_trust none hash (unsigned plain) = push_unsigned hash plain
        by_trust (some s) hash (signed v found open_ended checks text) =
            push_signed-ok s v hash found open_ended (checks hash) (text hash)
