-- ===== src/Receipts/Examples.antt =====
-- Receipts of two entries, with and without a signer.
use Prim.Native.String.{◌++◌ as str_append}
use etnpilot.Common.{
  ◌≡◌, ◌⊎◌, refl, true, false, none, some, List, [], ◌∷◌, str_eq, length, any, err, str, bool, obj,
  end, field, ok,
}
use etnpilot.Receipts.Canonical.{JsonText}
use etnpilot.Receipts.Signing.{Verifier, Signer}
use etnpilot.Receipts.Store.{
  Hashing, Event, append, read_failed, appended, reopened, perform, perform_all, tail_of,
}
use etnpilot.Receipts.Chain.{Options, Chain, verify_receipt, verify_receipt_file}
use etnpilot.Receipts.Lines.{contents, line_too_long}
use etnpilot.Receipts.Lengths.{is_long}
use etnpilot.Receipts.Tails.{tail_behind}
use etnpilot.Receipts.RoundTrip.{signed}
use etnpilot.Receipts.Continuity.{perform_all-verified}
use etnpilot.Receipts.Standing.{new_store}

abbrev plain_text : JsonText
plain_text = record {
  string_text = λ s. s;
  number_text = λ n. "0";
  date_text = λ n. "0";
  before = λ s t. str_eq s "a";
}

abbrev hashing : Hashing
hashing = record {
  digest = λ s. str_append "#" s;
  json = plain_text;
  file_text = λ fs. "{}";
  bytes = λ s. 300;
}

abbrev signer : Signer
signer = record { key_id = "k1"; sign = λ s. "signed" }

abbrev verifier : Verifier
verifier = record { check = λ hash s. str_eq s "signed"; window = none }

abbrev options : Options
options = record {
  verifiers = ("k1", verifier) ∷ [];
  require_signatures = true;
  require_terminal = false;
  require_dated = false;
}

abbrev two_entries : List Event
two_entries =
    appended 5 (obj (field "a" (str "first") end))
    ∷ reopened
    ∷ appended 6 (obj (field "terminal" (bool true) end))
    ∷ appended 7 (obj (field "a" (str "late") end))
    ∷ []

-- The third append finds the chain sealed.
two_lines : length (perform_all hashing (some signer) two_entries new_store).lines ≡ 2
unfolding perform_all perform
two_lines = refl

short_lines : any is_long (perform_all hashing (some signer) two_entries new_store).lines ≡ false
unfolding perform_all perform
short_lines = refl

perform_all-verified_example :
    let s = perform_all hashing (some signer) two_entries new_store in
    (s.lines ≡ [])
    ⊎ ((c : Chain) × (verify_receipt_file hashing options s.lines ≡ ok c)
        × (verify_receipt hashing options (contents s.lines) ≡ ok c)
        × (tail_of s ≡ ok (tail_behind c))
        × (c.count ≡ length s.lines))
perform_all-verified_example =
    perform_all-verified hashing options (some signer)
      (signed verifier refl refl (λ hash. refl) (λ hash. refl)) refl two_entries short_lines

abbrev long_entries : Hashing
long_entries = record hashing { bytes = λ s. 8388608 }

-- The only line has the limit's length: the verifier reads it, and a store that opens the file does not.
long_unread :
    tail_of (perform_all long_entries none (appended 5 (obj end) ∷ reopened ∷ []) new_store)
    ≡ err (read_failed line_too_long)
unfolding perform_all perform append
long_unread = refl
