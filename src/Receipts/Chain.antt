-- ===== src/Receipts/Chain.antt =====
-- src/core/receipt-store.js: `ChainVerifier`, which checks a receipt line by line.
use etnpilot.Common.{
  ℕ, ◌+◌, Bool, true, false, not, ◌&&◌, ◌||◌, Option, none, some, List, [], ◌∷◌, ◌++◌, String,
  str_eq, if◌then◌else◌, ◌==◌, includes, Json, null, str, obj, Fields, field_at, without, is_truthy,
  Result, ok, err,
}
use etnpilot.Receipts.Signing.{
  Verifiers, SignatureError, SignatureCheck, valid_proof, bad_proof, verify_receipt_signature,
  fields_of,
}
use etnpilot.Receipts.Lines.{Line, FileLine, exceeds}
use etnpilot.Receipts.Store.{Hashing, receipt_hash, is_true}

pub record Options : Type 0 where
  pub verifiers : Verifiers
  pub require_signatures : Bool
  pub require_terminal : Bool
  pub require_dated : Bool

-- What the verifier keeps: `previous_hash` is null before the first entry.
pub record Chain : Type 0 where
  pub previous_hash : Option String
  pub legacy_entries : ℕ
  pub signed : ℕ
  pub unsigned : ℕ
  pub undated : ℕ
  pub terminal : Bool
  pub count : ℕ
  pub key_ids : List String

pub data Reason : Type 0 where
  entries_after_terminal invalid_json invalid_entry hash_mismatch chain_mismatch : Reason
  undated_entry signature_required empty_file terminal_receipt_required file_read_failed : Reason
  bad_signature : SignatureError → Reason

-- A failure, with the line that it names, 0 if none.
pub record Failure : Type 0 where
  pub reason : Reason
  pub line : ℕ

abbrev pub new_chain : Chain
new_chain = record {
  previous_hash = none;
  legacy_entries = 0;
  signed = 0;
  unsigned = 0;
  undated = 0;
  terminal = false;
  count = 0;
  key_ids = [];
}

abbrev pub fail_at : Chain → Reason → Result Failure Chain
fail_at c reason = err (record { reason = reason; line = c.count + 1 })

-- How the recorded hash of a payload was made: over the canonical text, over the text of the file, or
-- neither.
pub data HashKind : Type 0 where
  canonical legacy mismatched : HashKind

abbrev pub is_text_of : Option Json → String → Bool
is_text_of (some (str s)) t = str_eq s t
is_text_of _ t = false

abbrev pub hash_kind : Hashing → Option Json → Fields → HashKind
hash_kind h hash payload =
    if is_text_of hash (receipt_hash h payload)
    then canonical
    else if is_text_of hash (h.digest (h.file_text payload))
    then legacy
    else mismatched

-- `payload.previousHash === this.previousHash`.
abbrev pub follows : Option Json → Option String → Bool
follows (some null) none = true
follows (some (str s)) (some t) = str_eq s t
follows _ _ = false

abbrev pub add_key : Option Json → List String → List String
add_key (some (str k)) ks = if str_eq k "" || includes ks k then ks else ks ++ k ∷ []
add_key _ ks = ks

-- The text of a hash that has been checked.
abbrev pub text_of : Option Json → Option String
text_of (some (str s)) = some s
text_of _ = none

abbrev pub hash_text : Option Json → String
hash_text (some (str s)) = s
hash_text _ = ""

-- The last lines of `push`, for an entry that is accepted.
abbrev pub accept : Chain → Option Json → Fields → Chain
accept c hash payload = record c {
  key_ids = add_key (field_at "keyId" (fields_of (field_at "proof" payload))) c.key_ids;
  previous_hash = text_of hash;
  terminal = is_true (field_at "terminal" payload);
  count = c.count + 1;
}

module _ (h : Hashing) (o : Options) where
  abbrev pub push_signed : Chain → Option Json → Fields → SignatureCheck → Result Failure Chain
  push_signed c hash payload (bad_proof e) = fail_at c (bad_signature e)
  push_signed c hash payload (valid_proof false) =
      ok (accept (record c { signed = c.signed + 1 }) hash payload)
  push_signed c hash payload (valid_proof true) =
      if o.require_dated
      then fail_at c undated_entry
      else ok (accept (record c { undated = c.undated + 1; signed = c.signed + 1 }) hash payload)

  -- The checks of the signature, where there is a proof or a signature.
  abbrev pub push_proof : Chain → Option Json → Option Json → Fields → Result Failure Chain
  push_proof c hash signature payload =
      if is_truthy (field_at "proof" payload) || is_truthy signature
      then push_signed c hash payload (
          verify_receipt_signature o.verifiers (field_at "proof" payload) (hash_text hash)
            signature)
      else if o.require_signatures
      then fail_at c signature_required
      else ok (accept (record c { unsigned = c.unsigned + 1 }) hash payload)

  abbrev pub push_link : Chain → Option Json → Option Json → Fields → Result Failure Chain
  push_link c hash signature payload =
      if follows (field_at "previousHash" payload) c.previous_hash
      then push_proof c hash signature payload
      else fail_at c chain_mismatch

  abbrev pub push_hashed :
      Chain → HashKind → Option Json → Option Json → Fields → Result Failure Chain
  push_hashed c canonical hash signature payload = push_link c hash signature payload
  push_hashed c legacy hash signature payload =
      push_link (record c { legacy_entries = c.legacy_entries + 1 }) hash signature payload
  push_hashed c mismatched hash signature payload = fail_at c hash_mismatch

  abbrev pub push_entry : Chain → Fields → Result Failure Chain
  push_entry c fs =
      let payload = without "signature" (without "hash" fs) in
      push_hashed c (hash_kind h (field_at "hash" fs) payload) (field_at "hash" fs)
        (field_at "signature" fs) payload

  abbrev pub push_line : Chain → Line → Result Failure Chain
  push_line c none = fail_at c invalid_json
  push_line c (some (obj fs)) = push_entry c fs
  push_line c (some _) = fail_at c invalid_entry

  unfoldable pub push : Chain → Line → Result Failure Chain
  push c line =
      if c.terminal
      then err (record { reason = entries_after_terminal; line = c.count })
      else push_line c line

  unfoldable pub finish : Chain → Result Failure Chain
  finish c =
      if c.count == 0
      then err (record { reason = empty_file; line = 0 })
      else if o.require_terminal && not c.terminal
      then err (record { reason = terminal_receipt_required; line = 0 })
      else ok c

  abbrev pub and_then : Result Failure Chain → (Chain → Result Failure Chain) → Result Failure Chain
  and_then (ok c) k = k c
  and_then (err e) k = err e

  unfoldable pub push_all : Chain → List Line → Result Failure Chain
  push_all c [] = ok c
  push_all c (l ∷ ls) = and_then (push c l) (λ d. push_all d ls)

  -- `verifyReceiptText`, over the lines of the text; the report is the state of the verifier.
  unfoldable pub verify_receipt : List Line → Result Failure Chain
  verify_receipt lines = and_then (push_all new_chain lines) finish

  -- A line as `readLines` yields it, or the error that it throws.
  abbrev pub push_file : Chain → FileLine → Result Failure Chain
  push_file c l =
      if exceeds l then err (record { reason = file_read_failed; line = 0 }) else push c l.content

  unfoldable pub push_file_all : Chain → List FileLine → Result Failure Chain
  push_file_all c [] = ok c
  push_file_all c (l ∷ ls) = and_then (push_file c l) (λ d. push_file_all d ls)

  -- `verifyReceiptFile`, over the lines of a file that can be opened.
  unfoldable pub verify_receipt_file : List FileLine → Result Failure Chain
  verify_receipt_file lines = and_then (push_file_all new_chain lines) finish
