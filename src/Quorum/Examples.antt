-- ===== src/Quorum/Examples.antt =====
-- Three reviewers on two providers, and the theorems at their votes.
use etnpilot.Common.{◌≡◌, refl, true, false, none, some, List, [], ◌∷◌, unique, ◌+◌}
use etnpilot.Quorum.Votes.{approve, abstain, Vote, Quorum, split_votes, evaluate_quorum}
use etnpilot.Quorum.Count.{evaluate_quorum_counts}

abbrev votes : List Vote
votes =
    record { verdict = approve; provider = some "a" }
    ∷ record { verdict = approve; provider = some "a" }
    ∷ record { verdict = abstain; provider = some "b" }
    ∷ []

abbrev counted : Quorum
counted = record {
  required = 2;
  approvals = 1;
  rejections = 0;
  abstentions = 1;
  satisfied = false;
  discounted = 1;
}

counted_here : evaluate_quorum true none votes ≡ some counted
unfolding evaluate_quorum split_votes
counted_here = refl

evaluate_quorum_counts_example :
    (counted.satisfied ≡ false)
    × (counted.approvals + counted.discounted + (counted.rejections + counted.abstentions) ≡ 3)
unfolding unique
evaluate_quorum_counts_example = evaluate_quorum_counts true none votes counted_here
