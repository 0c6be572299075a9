-- ===== src/Quorum/Votes.antt =====
-- src/workflow/quorum.js: `evaluateQuorum`, over votes whose verdicts `parseVerdict` has read. The
-- list of the providers that it reports is left out.
use etnpilot.Common.{
  ℕ, ◌+◌, ◌/◌, Bool, true, false, not, ◌&&◌, Option, none, some, List, [], ◌∷◌, String, length,
  count, includes, if◌then◌else◌, leb, ◌==◌, JsNumber, whole, other,
}

pub data Verdict : Type 0 where
  approve reject abstain : Verdict

pub record Vote : Type 0 where
  pub verdict : Verdict
  pub provider : Option String

abbrev pub is_approve : Verdict → Bool
is_approve approve = true
is_approve _ = false

abbrev pub is_reject : Verdict → Bool
is_reject reject = true
is_reject _ = false

abbrev pub is_abstain : Verdict → Bool
is_abstain abstain = true
is_abstain _ = false

-- `distinctProviders && vote.provider !== undefined && seenProviders.has(vote.provider)`.
abbrev pub is_repeat : Bool → List String → Option String → Bool
is_repeat distinct seen none = false
is_repeat distinct seen (some p) = distinct && includes seen p

abbrev pub seen_with : Option String → List String → List String
seen_with none seen = seen
seen_with (some p) seen = p ∷ seen

-- The loop over the votes: those that count, and those that are discounted.
unfoldable pub split_votes : Bool → List String → List Vote → List Vote × List Vote
split_votes distinct seen [] = ([], [])
split_votes distinct seen (v ∷ vs) =
    let (counted, discounted) = split_votes distinct seen vs in
    let (counted', discounted') = split_votes distinct (seen_with v.provider seen) vs in
    if not (is_approve v.verdict)
    then (counted, discounted)
    else if is_repeat distinct seen v.provider
    then (counted, v ∷ discounted)
    else (v ∷ counted', discounted')

pub record Quorum : Type 0 where
  pub required : ℕ
  pub approvals : ℕ
  pub rejections : ℕ
  pub abstentions : ℕ
  pub satisfied : Bool
  pub discounted : ℕ

-- `required ?? Math.floor(votes.length / 2) + 1`, and its check; `none` is the TypeError.
abbrev pub threshold_of : Option JsNumber → List Vote → Option ℕ
threshold_of none votes = some (length votes / 2 + 1)
threshold_of (some other) votes = none
threshold_of (some (whole n)) votes = if leb 1 n then some n else none

abbrev pub outcome : Bool → List Vote → ℕ → Quorum
unfolding split_votes
outcome distinct votes threshold =
    let (counted, discounted) = split_votes distinct [] votes in
    let rejections = count (λ (v : Vote). is_reject v.verdict) votes in
    record {
      required = threshold;
      approvals = length counted;
      rejections = rejections;
      abstentions = count (λ (v : Vote). is_abstain v.verdict) votes;
      satisfied = leb threshold (length counted) && rejections == 0;
      discounted = length discounted;
    }

abbrev pub with_threshold : Bool → List Vote → Option ℕ → Option Quorum
with_threshold distinct votes none = none
with_threshold distinct votes (some n) = some (outcome distinct votes n)

unfoldable pub evaluate_quorum : Bool → Option JsNumber → List Vote → Option Quorum
unfolding split_votes
evaluate_quorum distinct required votes =
    with_threshold distinct votes (threshold_of required votes)
