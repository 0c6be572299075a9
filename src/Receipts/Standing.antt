-- ===== src/Receipts/Standing.antt =====
-- src/core/receipt-store.js: a store stands where the verifier of its lines does, also after the next entry.
use etnpilot.Common.{
  ℕ, suc, ◌+◌, ◌≡◌, ◌⊎◌, refl, sym, ap, ◌∙◌, true, false, Option, none, some, List, [], ◌∷◌, ◌++◌,
  length, any, arith, inl, str, obj, Fields, field_at, without, ok, err, field_at-without,
}
use etnpilot.Receipts.Signing.{Signer}
use etnpilot.Receipts.Store.{
  Hashing, receipt_hash, file_line, read_failed, Tail, Store, is_true, or_null, tail_of_line,
  tail_of, has_reserved, payload_of, entry_of,
}
use etnpilot.Receipts.Lines.{Line, contents, LineError}
use etnpilot.Receipts.Lengths.{is_long, last_line, contents-snoc}
use etnpilot.Receipts.Chain.{Options, Chain, new_chain, push, and_then, push_all}
use etnpilot.Receipts.Tails.{hash_json, tail_behind, push-tail, last_line-append}
use etnpilot.Receipts.Entries.{payload_of-IsBare, entry_of-payload, entry_of-hash}
use etnpilot.Receipts.RoundTrip.{push_all-append, Trusts, written-accepted}

abbrev pub new_store : Store
new_store = record { lines = []; tail = none }

length-snoc : {A : Type 0} → (xs : List A) (x : A) → length (xs ++ x ∷ []) ≡ suc (length xs)
length-snoc [] x = refl
length-snoc (y ∷ xs) x = ap suc (length-snoc xs x)

-- The store goes on where the verifier stands, or cannot read the last line, which is long.
abbrev pub GoesOn : Store → Chain → Type 0
GoesOn s c =
    (tail_of s ≡ ok (tail_behind c))
    ⊎ ((any is_long s.lines ≡ true) × (e : LineError) × (tail_of s ≡ err (read_failed e)))

module _ (h : Hashing) (o : Options) where
  -- The verifier reads the whole file and stands at its end, where the store goes on.
  pub record Stands (s : Store) : Type 0 where
    pub chain : Chain
    pub pushed : push_all h o new_chain (contents s.lines) ≡ ok chain
    pub kept : GoesOn s chain
    pub behind : tail_of_line (last_line (contents s.lines)) ≡ ok (tail_behind chain)
    pub counted : chain.count ≡ length s.lines

  pub Stands-new : Stands new_store
  unfolding push_all
  Stands-new = record {
    chain = new_chain;
    pushed = refl;
    kept = inl refl;
    behind = refl;
    counted = refl;
  }

  pub retail :
      (s : Store) (stands : Stands s) (t : Option Tail)
      → GoesOn (record s { tail = t }) stands.chain
      → Stands (record s { tail = t })
  retail s stands t kept = record {
    chain = stands.chain;
    pushed = stands.pushed;
    kept = kept;
    behind = stands.behind;
    counted = stands.counted;
  }

  module _ (signer : Option Signer) (trust : Trusts o signer) where
    pub after_write :
        (now : ℕ) (fs : Fields) (s : Store) (stands : Stands s)
        → has_reserved fs ≡ false
        → stands.chain.terminal ≡ false
        → let payload = payload_of signer now (hash_json stands.chain.previous_hash) fs in
          let hash = receipt_hash h payload in
          Stands (record {
            lines = s.lines ++ file_line h (entry_of signer hash payload) ∷ [];
            tail =
                some (record { hash = str hash; terminal = is_true (field_at "terminal" payload) });
          })
    after_write now fs s stands free unsealed =
        let payload = payload_of signer now (hash_json stands.chain.previous_hash) fs in
        let hash = receipt_hash h payload in
        let entry = entry_of signer hash payload in
        let line : Line = some (obj entry) in
        let added = file_line h entry in
        let bare = payload_of-IsBare signer now (hash_json stands.chain.previous_hash) fs free in
        let (d, accepted) =
          written-accepted h o stands.chain now fs free signer hash trust refl unsealed in
        let (told, more) = push-tail h o stands.chain d line accepted in
        let seal : field_at "terminal" entry ≡ field_at "terminal" payload =
          sym (field_at-without "hash" "terminal" entry refl)
          ∙ sym (field_at-without "signature" "terminal" (without "hash" entry) refl)
          ∙ ap (field_at "terminal") (entry_of-payload signer hash payload bare) in
        record {
          chain = d;
          pushed =
              ap (push_all h o new_chain) (contents-snoc s.lines added)
              ∙ push_all-append h o new_chain (contents s.lines) line
              ∙ ap (λ r. and_then h o r (λ c. push h o c line)) stands.pushed
              ∙ accepted;
          kept = inl (
              ap
                (λ v.
                  ok
                    (record { hash = or_null v; terminal = is_true (field_at "terminal" payload) }))
                (sym (entry_of-hash signer hash payload bare))
              ∙ ap
                  (λ v.
                    ok (record { hash = or_null (field_at "hash" entry); terminal = is_true v }))
                  (sym seal)
              ∙ told);
          behind =
              ap (λ ls. tail_of_line (last_line ls)) (contents-snoc s.lines added)
              ∙ ap tail_of_line (last_line-append (contents s.lines) line)
              ∙ told;
          counted =
              more ∙ ap (λ n. n + 1) stands.counted ∙ sym (length-snoc s.lines added ∙ omega arith);
        }
