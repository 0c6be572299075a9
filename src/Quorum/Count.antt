-- ===== src/Quorum/Count.antt =====
-- src/workflow/quorum.js: how many voices a quorum counts.
use etnpilot.Common.{
  ℕ, suc, ◌+◌, ◌≡◌, refl, ap, ◌∙◌, Bool, true, false, not, ◌&&◌, Option, none, some, is_some, List,
  [], ◌∷◌, String, length, count, includes, if◌then◌else◌, leb, ◌==◌, JsNumber, arith, Bool-cases,
  inl, inr, keep_new, unique, any, some-injective,
}
use etnpilot.Quorum.Votes.{
  Verdict, approve, reject, abstain, Vote, is_approve, is_reject, is_abstain, is_repeat, seen_with,
  split_votes, Quorum, threshold_of, with_threshold, evaluate_quorum,
}

-- The providers of the approvals, and the number of approvals without a provider.
abbrev pub approvers : List Vote → List String
approvers [] = []
approvers (v ∷ vs) = elim (is_approve v.verdict) [
  | true ↦ elim v.provider [ none ↦ approvers vs | some p ↦ p ∷ approvers vs ]
  | false ↦ approvers vs
]

abbrev pub is_nameless : Vote → Bool
is_nameless v = is_approve v.verdict && not (is_some v.provider)

-- The voices among the approvals: each nameless vote, and each provider once or as often as it votes.
abbrev pub voices : Bool → List Vote → ℕ
voices distinct votes =
    count is_nameless votes
    + (if distinct then length (unique (approvers votes)) else length (approvers votes))

split_votes-distinct :
    (seen : List String) (votes : List Vote)
    → length (split_votes true seen votes).0
      ≡ count is_nameless votes + length (keep_new seen (approvers votes))
unfolding split_votes
split_votes-distinct seen [] = refl
split_votes-distinct seen (v ∷ vs) =
    go v.verdict v.provider v refl refl (λ more. split_votes-distinct more vs)
  where
    go :
        (d : Verdict) (o : Option String) (v : Vote)
        → v.verdict ≡ d
        → v.provider ≡ o
        → ((more : List String)
            → length (split_votes true more vs).0
              ≡ count is_nameless vs + length (keep_new more (approvers vs)))
        → length (split_votes true seen (v ∷ vs)).0
          ≡ count is_nameless (v ∷ vs) + length (keep_new seen (approvers (v ∷ vs)))
    go reject o v e f ih = rw e (ih seen)
    go abstain o v e f ih = rw e (ih seen)
    go approve none v e f ih = rw (e, f) (ap suc (ih seen) ∙ omega arith)
    go approve (some p) v e f ih =
        rw (e, f)
          (elim (Bool-cases (includes seen p)) [
            | inl old ↦ rw old (ih seen)
            | inr new ↦ rw new (ap suc (ih (p ∷ seen)) ∙ omega arith)
          ])

split_votes-all :
    (seen : List String) (votes : List Vote)
    → length (split_votes false seen votes).0 ≡ count is_nameless votes + length (approvers votes)
unfolding split_votes
split_votes-all seen [] = refl
split_votes-all seen (v ∷ vs) =
    go v.verdict v.provider v refl refl (λ more. split_votes-all more vs)
  where
    go :
        (d : Verdict) (o : Option String) (v : Vote)
        → v.verdict ≡ d
        → v.provider ≡ o
        → ((more : List String)
            → length (split_votes false more vs).0 ≡ count is_nameless vs + length (approvers vs))
        → length (split_votes false seen (v ∷ vs)).0
          ≡ count is_nameless (v ∷ vs) + length (approvers (v ∷ vs))
    go reject o v e f ih = rw e (ih seen)
    go abstain o v e f ih = rw e (ih seen)
    go approve none v e f ih = rw (e, f) (ap suc (ih seen) ∙ omega arith)
    go approve (some p) v e f ih = rw (e, f) (ap suc (ih (p ∷ seen)) ∙ omega arith)

split_votes-voices :
    (distinct : Bool) (votes : List Vote)
    → length (split_votes distinct [] votes).0 ≡ voices distinct votes
unfolding unique
split_votes-voices true votes = split_votes-distinct [] votes
split_votes-voices false votes = split_votes-all [] votes

count-any_reject :
    (vs : List Vote)
    → (count (λ (v : Vote). is_reject v.verdict) vs == 0) ≡ not (any (λ v. is_reject v.verdict) vs)
count-any_reject [] = refl
count-any_reject (v ∷ vs) = go v.verdict v refl (count-any_reject vs)
  where
    go :
        (d : Verdict) (v : Vote)
        → v.verdict ≡ d
        → (count (λ (v : Vote). is_reject v.verdict) vs == 0)
          ≡ not (any (λ v. is_reject v.verdict) vs)
        → (count (λ (v : Vote). is_reject v.verdict) (v ∷ vs) == 0)
          ≡ not (any (λ v. is_reject v.verdict) (v ∷ vs))
    go reject v e ih = rw e ground arith
    go approve v e ih = rw e ih
    go abstain v e ih = rw e ih

evaluate_quorum-satisfied :
    (distinct : Bool) (required : Option JsNumber) (votes : List Vote) {q : Quorum}
    → evaluate_quorum distinct required votes ≡ some q
    → q.satisfied
      ≡ (leb q.required (voices distinct votes) && not (any (λ v. is_reject v.verdict) votes))
unfolding evaluate_quorum
evaluate_quorum-satisfied distinct required votes {q} e = go (threshold_of required votes) e
  where
    go :
        (o : Option ℕ)
        → with_threshold distinct votes o ≡ some q
        → q.satisfied
          ≡ (leb q.required (voices distinct votes) && not (any (λ v. is_reject v.verdict) votes))
    go none f = absurd (cc)
    go (some n) f =
        rw (← some-injective f)
          (rw (split_votes-voices distinct votes, count-any_reject votes) refl)

split_votes-approvals :
    (distinct : Bool) (seen : List String) (votes : List Vote)
    → length (split_votes distinct seen votes).0 + length (split_votes distinct seen votes).1
      ≡ count (λ (v : Vote). is_approve v.verdict) votes
unfolding split_votes
split_votes-approvals distinct seen [] = omega arith
split_votes-approvals distinct seen (v ∷ vs) =
    go v.verdict v refl (split_votes-approvals distinct seen vs)
      (split_votes-approvals distinct (seen_with v.provider seen) vs)
  where
    go :
        (d : Verdict) (v : Vote)
        → v.verdict ≡ d
        → length (split_votes distinct seen vs).0 + length (split_votes distinct seen vs).1
          ≡ count (λ (v : Vote). is_approve v.verdict) vs
        → length (split_votes distinct (seen_with v.provider seen) vs).0
            + length (split_votes distinct (seen_with v.provider seen) vs).1
          ≡ count (λ (v : Vote). is_approve v.verdict) vs
        → length (split_votes distinct seen (v ∷ vs)).0
            + length (split_votes distinct seen (v ∷ vs)).1
          ≡ count (λ (v : Vote). is_approve v.verdict) (v ∷ vs)
    go reject v e ih ih' = rw e ih
    go abstain v e ih ih' = rw e ih
    go approve v e ih ih' = rw e (elim (Bool-cases (is_repeat distinct seen v.provider)) [
      | inl old ↦ rw old (omega (arith, ih))
      | inr new ↦ rw new (omega (arith, ih'))
    ])

count-verdicts :
    (vs : List Vote)
    → count (λ (v : Vote). is_approve v.verdict) vs
        + (count (λ (v : Vote). is_reject v.verdict) vs
            + count (λ (v : Vote). is_abstain v.verdict) vs)
      ≡ length vs
count-verdicts [] = omega arith
count-verdicts (v ∷ vs) = go v.verdict v refl (count-verdicts vs)
  where
    go :
        (d : Verdict) (v : Vote)
        → v.verdict ≡ d
        → count (λ (v : Vote). is_approve v.verdict) vs
            + (count (λ (v : Vote). is_reject v.verdict) vs
                + count (λ (v : Vote). is_abstain v.verdict) vs)
          ≡ length vs
        → count (λ (v : Vote). is_approve v.verdict) (v ∷ vs)
            + (count (λ (v : Vote). is_reject v.verdict) (v ∷ vs)
                + count (λ (v : Vote). is_abstain v.verdict) (v ∷ vs))
          ≡ length (v ∷ vs)
    go approve v e ih = rw e (omega (arith, ih))
    go reject v e ih = rw e (omega (arith, ih))
    go abstain v e ih = rw e (omega (arith, ih))

evaluate_quorum-accounts :
    (distinct : Bool) (required : Option JsNumber) (votes : List Vote) {q : Quorum}
    → evaluate_quorum distinct required votes ≡ some q
    → q.approvals + q.discounted + (q.rejections + q.abstentions) ≡ length votes
unfolding evaluate_quorum
evaluate_quorum-accounts distinct required votes {q} e = go (threshold_of required votes) e
  where
    go :
        (o : Option ℕ)
        → with_threshold distinct votes o ≡ some q
        → q.approvals + q.discounted + (q.rejections + q.abstentions) ≡ length votes
    go none f = absurd (cc)
    go (some n) f =
        rw (← some-injective f)
          (omega (arith, split_votes-approvals distinct [] votes, count-verdicts votes))

-- A quorum is satisfied exactly if nobody rejects and there are at least as many voices for the
-- change as required, where, if providers are to be distinct, a provider is one voice however often
-- it approves, and an abstention is none. Every vote is accounted for: it counts as an approval, is
-- discounted as a repeated one, rejects or abstains.
pub evaluate_quorum_counts :
    (distinct : Bool) (required : Option JsNumber) (votes : List Vote) {q : Quorum}
    → evaluate_quorum distinct required votes ≡ some q
    → (q.satisfied
        ≡ (leb q.required (voices distinct votes) && not (any (λ v. is_reject v.verdict) votes)))
      × (q.approvals + q.discounted + (q.rejections + q.abstentions) ≡ length votes)
evaluate_quorum_counts distinct required votes e = (
  evaluate_quorum-satisfied distinct required votes e,
  evaluate_quorum-accounts distinct required votes e,
)
