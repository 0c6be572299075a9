-- ===== src/Receipts/Entries.antt =====
-- src/core/receipt-store.js: the fields of an entry as the store writes it.
use etnpilot.Common.{
  ℕ, ◌≡◌, refl, ap, ◌∙◌, true, false, Option, none, some, String, str_eq, eq_refl, arith,
  Bool-cases, inl, inr, is_some, Json, str, obj, Fields, field_at, put, without, has_field,
  field_at-put, without-put, without-put_comm, without_absent,
}
use etnpilot.Receipts.Signing.{Signer, proof_of}
use etnpilot.Receipts.Store.{has_reserved, payload_of, entry_of}
use etnpilot.Receipts.Chain.{follows}
use etnpilot.Receipts.Tails.{hash_json}

-- A payload without the fields that the store adds to the text of the file.
pub record IsBare (payload : Fields) : Type 0 where
  pub no_hash : has_field "hash" payload ≡ false
  pub no_signature : has_field "signature" payload ≡ false

module _ (signer : Option Signer) (now : ℕ) (previous : Json) (fs : Fields)
    (free : has_reserved fs ≡ false) where
  pub payload_of-IsBare : IsBare (payload_of signer now previous fs)
  payload_of-IsBare = go signer
    where
      go : (s : Option Signer) → IsBare (payload_of s now previous fs)
      go none = record {
        no_hash = rw (field_at-put "hash" "previousHash" previous fs) (ground arith);
        no_signature = rw (field_at-put "signature" "previousHash" previous fs) (ground arith);
      }
      go (some s) = record {
        no_hash =
            rw
              (
                field_at-put "hash" "proof" (obj (proof_of s now)) (put "previousHash" previous fs),
                field_at-put "hash" "previousHash" previous fs,
              )
              (ground arith);
        no_signature =
            rw
              (
                field_at-put "signature" "proof" (obj (proof_of s now))
                    (put "previousHash" previous fs),
                field_at-put "signature" "previousHash" previous fs,
              )
              (ground arith);
      }

  pub payload_of-previous :
      field_at "previousHash" (payload_of signer now previous fs) ≡ some previous
  payload_of-previous = go signer
    where
      go :
          (s : Option Signer)
          → field_at "previousHash" (payload_of s now previous fs) ≡ some previous
      go none = field_at-put "previousHash" "previousHash" previous fs
      go (some s) =
          field_at-put "previousHash" "proof" (obj (proof_of s now))
            (put "previousHash" previous fs)
          ∙ field_at-put "previousHash" "previousHash" previous fs

pub absent : (k : String) (fs : Fields) → has_field k fs ≡ false → field_at k fs ≡ none
absent k fs h = go (field_at k fs) refl h
  where
    go : (v : Option Json) → field_at k fs ≡ v → is_some v ≡ false → field_at k fs ≡ none
    go none e n = e
    go (some v) e n = absurd (cc)

pub follows-hash_json : (p : Option String) → follows (some (hash_json p)) p ≡ true
follows-hash_json none = refl
follows-hash_json (some t) = eq_refl t

module _ (signer : Option Signer) (hash : String) (payload : Fields) (bare : IsBare payload) where
  pub entry_of-hash : field_at "hash" (entry_of signer hash payload) ≡ some (str hash)
  entry_of-hash = go signer
    where
      go : (s : Option Signer) → field_at "hash" (entry_of s hash payload) ≡ some (str hash)
      go none = field_at-put "hash" "hash" (str hash) payload
      go (some s) = elim (Bool-cases (str_eq (s.sign hash) "")) [
        | inl empty ↦ rw empty (field_at-put "hash" "hash" (str hash) payload)
        | inr text ↦ rw text (
            field_at-put "hash" "signature" (str (s.sign hash)) (put "hash" (str hash) payload)
            ∙ field_at-put "hash" "hash" (str hash) payload)
      ]

  pub entry_of-payload :
      without "signature" (without "hash" (entry_of signer hash payload)) ≡ payload
  entry_of-payload = go signer
    where
      plain : without "signature" (without "hash" (put "hash" (str hash) payload)) ≡ payload
      plain =
          ap (without "signature") (without-put "hash" (str hash) payload bare.no_hash)
          ∙ without_absent "signature" payload bare.no_signature

      go :
          (s : Option Signer)
          → without "signature" (without "hash" (entry_of s hash payload)) ≡ payload
      go none = plain
      go (some s) = elim (Bool-cases (str_eq (s.sign hash) "")) [
        | inl empty ↦ rw empty plain
        | inr text ↦ rw text (
            ap (without "signature") (
              without-put_comm "hash" "signature" (str (s.sign hash))
                (put "hash" (str hash) payload) refl
              ∙ ap (put "signature" (str (s.sign hash)))
                  (without-put "hash" (str hash) payload bare.no_hash))
            ∙ without-put "signature" (str (s.sign hash)) payload bare.no_signature)
      ]
