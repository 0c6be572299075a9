-- ===== src/Receipts/Store.antt =====
-- src/core/receipt-store.js: `JsonlReceiptStore`, which appends entries to the receipt of a run.
use etnpilot.Common.{
  ℕ, Bool, true, false, not, ◌&&◌, ◌||◌, Option, none, some, List, [], ◌∷◌, ◌++◌, String, str_eq,
  if◌then◌else◌, Json, null, bool, str, obj, Fields, put, field_at, has_field, Result, ok, err,
  Action,
}
use etnpilot.Receipts.Canonical.{JsonText, canonical_json}
use etnpilot.Receipts.Lines.{Line, FileLine, LineError, read_last_line}
use etnpilot.Receipts.Signing.{Signer, proof_of}

-- SHA-256 in hexadecimal, the texts of JSON values, the text of an object with its fields in the order
-- of the file (JSON.stringify), and the number of bytes of a text in UTF-8.
pub record Hashing : Type 0 where
  pub digest : String → String
  pub json : JsonText
  pub file_text : Fields → String
  pub bytes : String → ℕ

-- `receiptHash`.
unfoldable pub receipt_hash : Hashing → Fields → String
receipt_hash h payload = h.digest (canonical_json h.json (obj payload))

-- `tail`: the hash of the last entry, null if there is none, and whether it seals the chain.
pub record Tail : Type 0 where
  pub hash : Json
  pub terminal : Bool

-- The file, and the tail that is kept after the first read.
pub record Store : Type 0 where
  pub lines : List FileLine
  pub tail : Option Tail

pub data ReceiptError : Type 0 where
  type_error reserved_field sealed_chain unreadable_tail : ReceiptError
  read_failed : LineError → ReceiptError

-- `value === true`.
abbrev pub is_true : Option Json → Bool
is_true (some (bool true)) = true
is_true _ = false

abbrev pub or_null : Option Json → Json
or_null none = null
or_null (some v) = v

-- The last entry, as the tail of the chain.
abbrev pub tail_of_line : Option Line → Result ReceiptError Tail
tail_of_line none = ok (record { hash = null; terminal = false })
tail_of_line (some none) = err unreadable_tail
tail_of_line (some (some (obj fs))) =
    ok (record { hash = or_null (field_at "hash" fs); terminal = is_true (field_at "terminal" fs) })
tail_of_line (some (some _)) = ok (record { hash = null; terminal = false })

-- `#lastEntry`: an error of the reading is thrown on.
abbrev pub last_entry : Result LineError (Option Line) → Result ReceiptError Tail
last_entry (ok line) = tail_of_line line
last_entry (err e) = err (read_failed e)

abbrev pub tail_of : Store → Result ReceiptError Tail
tail_of s = by_tail s.tail
  where
    by_tail : Option Tail → Result ReceiptError Tail
    by_tail (some t) = ok t
    by_tail none = last_entry (read_last_line s.lines)

abbrev pub has_reserved : Fields → Bool
has_reserved fs =
    has_field "previousHash" fs
    || (has_field "proof" fs || (has_field "hash" fs || has_field "signature" fs))

abbrev pub is_boolean : Option Json → Bool
is_boolean (some (bool b)) = true
is_boolean _ = false

-- `assertReceiptPayload`.
abbrev pub assert_receipt_payload : Json → Result ReceiptError Fields
assert_receipt_payload (obj fs) =
    if has_reserved fs
    then err reserved_field
    else if has_field "terminal" fs && not (is_boolean (field_at "terminal" fs))
    then err type_error
    else ok fs
assert_receipt_payload _ = err type_error

abbrev pub with_proof : Option Signer → ℕ → Fields → Fields
with_proof none now fs = fs
with_proof (some signer) now fs = put "proof" (obj (proof_of signer now)) fs

abbrev pub payload_of : Option Signer → ℕ → Json → Fields → Fields
payload_of signer now previous fs = with_proof signer now (put "previousHash" previous fs)

abbrev pub with_signature : Option Signer → String → Fields → Fields
with_signature none hash fs = fs
with_signature (some signer) hash fs =
    if str_eq (signer.sign hash) "" then fs else put "signature" (str (signer.sign hash)) fs

-- The entry that is written for a payload.
abbrev pub entry_of : Option Signer → String → Fields → Fields
entry_of signer hash payload = with_signature signer hash (put "hash" (str hash) payload)

-- The line that `appendFile` adds.
abbrev pub file_line : Hashing → Fields → FileLine
file_line h entry = record { content = some (obj entry); bytes = h.bytes (h.file_text entry) }

pub data Event : Type 0 where
  appended : (now : ℕ) → Json → Event
  reopened : Event

module _ (h : Hashing) (signer : Option Signer) where
  abbrev pub write_entry : ℕ → Fields → Tail → Action Store ReceiptError String
  write_entry now fs tail s =
      if tail.terminal
      then (err sealed_chain, record s { tail = some tail })
      else let payload = payload_of signer now tail.hash fs in
        let hash = receipt_hash h payload in
        (
          ok hash,
          record {
            lines = s.lines ++ file_line h (entry_of signer hash payload) ∷ [];
            tail =
                some (record { hash = str hash; terminal = is_true (field_at "terminal" payload) });
          },
        )

  abbrev pub write_after : ℕ → Fields → Result ReceiptError Tail → Action Store ReceiptError String
  write_after now fs (ok tail) s = write_entry now fs tail s
  write_after now fs (err e) s = (err e, s)

  abbrev pub append_checked : ℕ → Result ReceiptError Fields → Action Store ReceiptError String
  append_checked now (ok fs) s = write_after now fs (tail_of s) s
  append_checked now (err e) s = (err e, s)

  -- `append`: the operations follow one another, as `pending` makes them.
  unfoldable pub append : ℕ → Json → Action Store ReceiptError String
  append now receipt = append_checked now (assert_receipt_payload receipt)

  -- What happens to a receipt: an entry is appended, or another process opens the file.
  unfoldable pub perform : Event → Store → Store
  unfolding append
  perform (appended now receipt) s = (append now receipt s).1
  perform reopened s = record s { tail = none }

  unfoldable pub perform_all : List Event → Store → Store
  perform_all [] s = s
  perform_all (e ∷ es) s = perform_all es (perform e s)
