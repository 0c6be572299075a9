-- ===== src/Receipts/Tails.antt =====
-- src/core/receipt-store.js: the last line of a receipt tells where its chain stands, so a process that
-- opens the file goes on where the last one stopped.
use etnpilot.Common.{
  ◌+◌, ◌≡◌, refl, sym, ap, ◌∙◌, Bool, true, false, ◌||◌, Option, none, some, List, [], ◌∷◌, ◌++◌,
  String, Bool-cases, inl, inr, str_eq→eq, Json, null, bool, num, time, str, arr, obj, Fields,
  field_at, without, is_truthy, ok, ok-injective, field_at-without,
}
use etnpilot.Receipts.Signing.{SignatureCheck, valid_proof, bad_proof, verify_receipt_signature}
use etnpilot.Receipts.Store.{Hashing, receipt_hash, Tail, tail_of_line}
use etnpilot.Receipts.Lines.{Line}
use etnpilot.Receipts.Lengths.{last_line}
use etnpilot.Receipts.Chain.{
  Options, Chain, HashKind, canonical, legacy, mismatched, is_text_of, hash_kind, follows,
  hash_text, accept, push_signed, push_proof, push_link, push_hashed, push_line, push,
}

abbrev pub hash_json : Option String → Json
hash_json none = null
hash_json (some t) = str t

-- The tail that a store is to have when the verifier stands behind its lines.
abbrev pub tail_behind : Chain → Tail
tail_behind c = record { hash = hash_json c.previous_hash; terminal = c.terminal }

is_text_of-str : (v : Option Json) (t : String) → is_text_of v t ≡ true → v ≡ some (str t)
is_text_of-str (some (str s)) t h = ap (λ x. some (str x)) (str_eq→eq s t h)
is_text_of-str none t h = absurd (cc)
is_text_of-str (some null) t h = absurd (cc)
is_text_of-str (some (bool b)) t h = absurd (cc)
is_text_of-str (some (num n)) t h = absurd (cc)
is_text_of-str (some (time n)) t h = absurd (cc)
is_text_of-str (some (arr xs)) t h = absurd (cc)
is_text_of-str (some (obj fs)) t h = absurd (cc)

abbrev is_match : HashKind → Bool
is_match canonical = true
is_match legacy = true
is_match mismatched = false

hash_kind-str :
    (h : Hashing) (v : Option Json) (payload : Fields)
    → is_match (hash_kind h v payload) ≡ true
    → (t : String) × (v ≡ some (str t))
hash_kind-str h v payload m = elim (Bool-cases (is_text_of v (receipt_hash h payload))) [
  | inl same ↦ (receipt_hash h payload, is_text_of-str v (receipt_hash h payload) same)
  | inr other ↦ elim (Bool-cases (is_text_of v (h.digest (h.file_text payload)))) [
    | inl same ↦
        (h.digest (h.file_text payload), is_text_of-str v (h.digest (h.file_text payload)) same)
    | inr differs ↦ absurd (cc (rw (other, differs) at m))
  ]
]

-- The state after an entry that is accepted in the state `c`.
abbrev IsAccepted : Chain → Option Json → Fields → Chain → Type 0
IsAccepted c hash payload d = (b : Chain) × (b.count ≡ c.count) × (accept b hash payload ≡ d)

module _ (h : Hashing) (o : Options) where
  push_signed-IsAccepted :
      (c : Chain) (hash : Option Json) (payload : Fields) (r : SignatureCheck) (d : Chain)
      → push_signed h o c hash payload r ≡ ok d
      → IsAccepted c hash payload d
  push_signed-IsAccepted c hash payload (bad_proof e) d s = absurd (cc)
  push_signed-IsAccepted c hash payload (valid_proof false) d s =
      (record c { signed = c.signed + 1 }, refl, ok-injective s)
  push_signed-IsAccepted c hash payload (valid_proof true) d s = elim (Bool-cases o.require_dated) [
    | inl dated ↦ absurd (cc (rw dated at s))
    | inr any_date ↦ (
      record c { undated = c.undated + 1; signed = c.signed + 1 },
      refl,
      ok-injective (rw any_date at s),
    )
  ]

  push_proof-IsAccepted :
      (c : Chain) (hash signature : Option Json) (payload : Fields) (d : Chain)
      → push_proof h o c hash signature payload ≡ ok d
      → IsAccepted c hash payload d
  push_proof-IsAccepted c hash signature payload d s =
      elim (Bool-cases (is_truthy (field_at "proof" payload) || is_truthy signature)) [
        | inl signed ↦
            push_signed-IsAccepted c hash payload
              (verify_receipt_signature o.verifiers (field_at "proof" payload) (hash_text hash)
                signature)
              d (rw signed at s)
        | inr plain ↦ elim (Bool-cases o.require_signatures) [
          | inl wanted ↦ absurd (cc (rw (plain, wanted) at s))
          | inr free ↦
              (record c { unsigned = c.unsigned + 1 }, refl, ok-injective (rw (plain, free) at s))
        ]
      ]

  push_link-IsAccepted :
      (c : Chain) (hash signature : Option Json) (payload : Fields) (d : Chain)
      → push_link h o c hash signature payload ≡ ok d
      → IsAccepted c hash payload d
  push_link-IsAccepted c hash signature payload d s =
      elim (Bool-cases (follows (field_at "previousHash" payload) c.previous_hash)) [
        | inl linked ↦ push_proof-IsAccepted c hash signature payload d (rw linked at s)
        | inr loose ↦ absurd (cc (rw loose at s))
      ]

  push_hashed-IsAccepted :
      (c : Chain) (k : HashKind) (hash signature : Option Json) (payload : Fields) (d : Chain)
      → push_hashed h o c k hash signature payload ≡ ok d
      → (is_match k ≡ true) × IsAccepted c hash payload d
  push_hashed-IsAccepted c canonical hash signature payload d s =
      (refl, push_link-IsAccepted c hash signature payload d s)
  push_hashed-IsAccepted c legacy hash signature payload d s = (
    refl,
    push_link-IsAccepted (record c { legacy_entries = c.legacy_entries + 1 }) hash signature payload
        d s,
  )
  push_hashed-IsAccepted c mismatched hash signature payload d s = absurd (cc)

  push_line-tail :
      (c d : Chain) (l : Line)
      → push_line h o c l ≡ ok d
      → (tail_of_line (some l) ≡ ok (tail_behind d)) × (d.count ≡ c.count + 1)
  push_line-tail c d none s = absurd (cc)
  push_line-tail c d (some null) s = absurd (cc)
  push_line-tail c d (some (bool b)) s = absurd (cc)
  push_line-tail c d (some (num n)) s = absurd (cc)
  push_line-tail c d (some (time n)) s = absurd (cc)
  push_line-tail c d (some (str t)) s = absurd (cc)
  push_line-tail c d (some (arr xs)) s = absurd (cc)
  push_line-tail c d (some (obj fs)) s =
      let payload = without "signature" (without "hash" fs) in
      let hash = field_at "hash" fs in
      let (matched, (b, counted, accepted)) =
        push_hashed-IsAccepted c (hash_kind h hash payload) hash (field_at "signature" fs) payload d
          s in
      let (t, text) = hash_kind-str h hash payload matched in
      let seal : field_at "terminal" payload ≡ field_at "terminal" fs =
        field_at-without "signature" "terminal" (without "hash" fs) refl
        ∙ field_at-without "hash" "terminal" fs refl in
      (
        rw (← accepted) (rw (text, seal) refl),
        ap (λ x. x.count) (sym accepted) ∙ ap (λ n. n + 1) counted,
      )

  -- A line that is accepted tells the tail, and is counted.
  pub push-tail :
      (c d : Chain) (l : Line)
      → push h o c l ≡ ok d
      → (tail_of_line (some l) ≡ ok (tail_behind d)) × (d.count ≡ c.count + 1)
  unfolding push
  push-tail c d l s = elim (Bool-cases c.terminal) [
    | inl sealed ↦ absurd (cc (rw sealed at s))
    | inr more ↦ push_line-tail c d l (rw more at s)
  ]

pub last_line-append : (ls : List Line) (l : Line) → last_line (ls ++ l ∷ []) ≡ some l
last_line-append [] l = refl
last_line-append (k ∷ []) l = refl
last_line-append (k ∷ m ∷ ls) l = last_line-append (m ∷ ls) l
