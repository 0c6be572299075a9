-- ===== src/Receipts/Continuity.antt =====
-- src/core/receipt-store.js: a file that only the store writes is one that the verifier accepts, however
-- often the file is opened again between two entries.
use etnpilot.Common.{
  ℕ, suc, ◌≡◌, ◌⊎◌, subst, refl, sym, ap, ◌∙◌, Bool, true, false, Option, none, some, List, [], ◌∷◌,
  ◌++◌, String, if◌then◌else◌, ◌==◌, length, any, arith, inl, inr, Json, null, bool, num, time, str,
  arr, obj, Fields, field_at, Result, ok, err, ok-injective,
}
use etnpilot.Receipts.Signing.{Signer}
use etnpilot.Receipts.Store.{
  Hashing, receipt_hash, file_line, last_entry, Tail, Store, ReceiptError, is_true, sealed_chain,
  tail_of_line, tail_of, has_reserved, assert_receipt_payload, payload_of, entry_of, write_entry,
  write_after, append_checked, append, Event, appended, reopened, perform, perform_all,
}
use etnpilot.Receipts.Lines.{FileLine, contents, read_last_line}
use etnpilot.Receipts.Lengths.{
  is_long, last_line, Reads, read_last_line-Reads, verify_receipt_file-eq,
}
use etnpilot.Receipts.Chain.{Options, Chain, finish, and_then, verify_receipt, verify_receipt_file}
use etnpilot.Receipts.Tails.{hash_json, tail_behind}
use etnpilot.Receipts.RoundTrip.{Trusts}
use etnpilot.Receipts.Standing.{new_store, GoesOn, Stands, Stands-new, retail, after_write}

suc_nonzero : (n : ℕ) → (suc n == 0) ≡ false
suc_nonzero n = ground arith

module _ (h : Hashing) (o : Options) where
  finish-ok :
      (c : Chain) → (c.count == 0) ≡ false → o.require_terminal ≡ false → finish h o c ≡ ok c
  unfolding finish
  finish-ok c counted unsealed = ground arith

  module _ (signer : Option Signer) (trust : Trusts o signer) where
    write_entry-Stands :
        (now : ℕ) (fs : Fields) (s : Store) (stands : Stands h o s)
        → has_reserved fs ≡ false
        → Stands h o (write_entry h signer now fs (tail_behind stands.chain) s).1
    write_entry-Stands now fs s stands free = by_seal stands.chain.terminal refl
      where
        by_seal :
            (sealed : Bool)
            → stands.chain.terminal ≡ sealed
            → let payload = payload_of signer now (hash_json stands.chain.previous_hash) fs in
              let hash = receipt_hash h payload in
              Stands h o
                (if◌then◌else◌ {A = Result ReceiptError String × Store} sealed
                  (err sealed_chain, record s { tail = some (tail_behind stands.chain) })
                  (
                    ok hash,
                    record {
                      lines = s.lines ++ file_line h (entry_of signer hash payload) ∷ [];
                      tail = some (record {
                        hash = str hash;
                        terminal = is_true (field_at "terminal" payload);
                      });
                    },
                  )).1
        by_seal true e = retail h o s stands (some (tail_behind stands.chain)) (inl refl)
        by_seal false e = after_write h o signer trust now fs s stands free e

    write_after-Stands :
        (now : ℕ) (fs : Fields) (s : Store) (stands : Stands h o s)
        → has_reserved fs ≡ false
        → (t : Result ReceiptError Tail) → t ≡ ok (tail_behind stands.chain)
        → Stands h o (write_after h signer now fs t s).1
    write_after-Stands now fs s stands free t e =
        subst (λ u. Stands h o (write_after h signer now fs u s).1) (sym e)
          (write_entry-Stands now fs s stands free)

    assert-has_reserved :
        (receipt : Json) (fs : Fields)
        → assert_receipt_payload receipt ≡ ok fs
        → has_reserved fs ≡ false
    assert-has_reserved (obj fields) fs e = ground (arith, ok-injective {a = fields} {b = fs})
    assert-has_reserved null fs e = absurd (cc)
    assert-has_reserved (bool b) fs e = absurd (cc)
    assert-has_reserved (num n) fs e = absurd (cc)
    assert-has_reserved (time n) fs e = absurd (cc)
    assert-has_reserved (str t) fs e = absurd (cc)
    assert-has_reserved (arr xs) fs e = absurd (cc)

    append_checked-Stands :
        (now : ℕ) (s : Store)
        → Stands h o s
        → (r : Result ReceiptError Fields) → ((fs : Fields) → r ≡ ok fs → has_reserved fs ≡ false)
        → Stands h o (append_checked h signer now r s).1
    append_checked-Stands now s stands (ok fs) free = elim stands.kept [
      | inl e ↦ write_after-Stands now fs s stands (free fs refl) (tail_of s) e
      | inr (long, e, failed) ↦
          subst (λ u. Stands h o (write_after h signer now fs u s).1) (sym failed) stands
    ]
    append_checked-Stands now s stands (err e) free = stands

    reopened-GoesOn :
        (s : Store) (c : Chain)
        → tail_of_line (last_line (contents s.lines)) ≡ ok (tail_behind c)
        → Reads s.lines (read_last_line s.lines)
        → GoesOn (record s { tail = none }) c
    reopened-GoesOn s c behind (inl e) = inl (ap last_entry e ∙ behind)
    reopened-GoesOn s c behind (inr (long, e, failed)) = inr (long, e, ap last_entry failed)

    pub perform-Stands : (e : Event) (s : Store) → Stands h o s → Stands h o (perform h signer e s)
    unfolding perform append
    perform-Stands (appended now receipt) s stands =
        append_checked-Stands now s stands (assert_receipt_payload receipt)
          (assert-has_reserved receipt)
    perform-Stands reopened s stands =
        retail h o s stands none
          (reopened-GoesOn s stands.chain stands.behind (read_last_line-Reads s.lines))

    pub perform_all-Stands :
        (es : List Event) (s : Store) → Stands h o s → Stands h o (perform_all h signer es s)
    unfolding perform_all
    perform_all-Stands [] s stands = stands
    perform_all-Stands (e ∷ es) s stands =
        perform_all-Stands es (perform h signer e s) (perform-Stands e s stands)

    -- Every file that a store has written since it was empty, by appends that succeed or fail and openings
    -- by other processes in any order, and that has no line of 8 MiB or more, is empty or a receipt that the
    -- verifier accepts, read as a file and as a text with the same report, if it trusts the signer and does
    -- not ask for a seal; it counts each line, and the store goes on where it ends.
    pub perform_all-verified :
        o.require_terminal ≡ false
        → (es : List Event) → any is_long (perform_all h signer es new_store).lines ≡ false
        → let s = perform_all h signer es new_store in
          (s.lines ≡ [])
          ⊎ ((c : Chain) × (verify_receipt_file h o s.lines ≡ ok c)
              × (verify_receipt h o (contents s.lines) ≡ ok c)
              × (tail_of s ≡ ok (tail_behind c))
              × (c.count ≡ length s.lines))
    unfolding verify_receipt finish
    perform_all-verified unsealed es short =
        let s = perform_all h signer es new_store in
        by_lines s.lines refl (perform_all-Stands es new_store (Stands-new h o))
      where
        goes_on :
            (s : Store) (c : Chain)
            → any is_long s.lines ≡ false
            → GoesOn s c
            → tail_of s ≡ ok (tail_behind c)
        goes_on s c short (inl e) = e
        goes_on s c short (inr (long, _, _)) = absurd (cc)

        by_lines :
            (ls : List FileLine)
            → (perform_all h signer es new_store).lines ≡ ls
            → Stands h o (perform_all h signer es new_store)
            → let s = perform_all h signer es new_store in
              (s.lines ≡ [])
              ⊎ ((c : Chain) × (verify_receipt_file h o s.lines ≡ ok c)
                  × (verify_receipt h o (contents s.lines) ≡ ok c)
                  × (tail_of s ≡ ok (tail_behind c))
                  × (c.count ≡ length s.lines))
        by_lines [] e stands = inl e
        by_lines (l ∷ ls) e stands =
            let s = perform_all h signer es new_store in
            let text : verify_receipt h o (contents s.lines) ≡ ok stands.chain =
              ap (λ r. and_then h o r (finish h o)) stands.pushed
              ∙ finish-ok stands.chain
                  (ap (λ n. n == 0) (stands.counted ∙ ap length e) ∙ suc_nonzero (length ls))
                  unsealed in
            inr (
              stands.chain,
              verify_receipt_file-eq h o s.lines short ∙ text,
              text,
              goes_on s stands.chain short stands.kept,
              stands.counted,
            )
