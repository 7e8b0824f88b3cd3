-- ===== src/Tests/Engine.antt =====
-- Runs of an engine at concrete inputs (src/consensus/ConsensusEngine.ts).
use synpeer.Prelude.{
  ℕ, ◌+◌, ◌≤◌, String, refl, none, some, List, [], ◌∷◌, Bool, true, filter, length,
}
use synpeer.Dict.{get, put}
use synpeer.Consensus.Votes.{VoteType, votes_for_contribution}
use synpeer.Consensus.Votes.Tally.{is_by}
use synpeer.Consensus.Quorum.{Requirements}
use synpeer.Consensus.Witnesses.{Witnesses, Texts}
use synpeer.Consensus.Witnesses as Choosing
use synpeer.Consensus.Round.{Round, approved, rejected, reached, do_fail, external_at, complete}
use synpeer.Consensus.Round as Rounds
use synpeer.Consensus.Engine.{
  make, create_snapshot, restore_snapshot, start_contribution_round, started,
  record_external_result, external_result, external_result_on, find_round, found_or, put_back,
}
use synpeer.Consensus.Engine.Events.{
  Event, do_round, do_verified, do_result, do_call, restart, happen, happen_all,
}
use synpeer.Consensus.Engine.Restart.{IsSameOn, restart_restores, counted_once}
use synpeer.Consensus.Engine.Decided.{IsDecidedAt}
use synpeer.Consensus.Engine.Outcome.{decision_lasts}
use synpeer.Tests.Consensus.{vote_id, vote_id-IsInjective}

abbrev texts : Texts
texts = record { decimal = λ n. "1"; hex = λ n. "h"; at_most = λ a b. true }

abbrev trusting : String → Bool
trusting peer = true

abbrev requirements : Requirements
requirements = record {
  min_peers = 2;
  required_agreement = record { num = 66; den = 100 };
  min_trust_score = 0;
  timeout = 100;
}

nobody : Witnesses
nobody = Choosing.make (record {
  min_trust_score = 0;
  min_count = 1;
  max_count = 3;
  require_geographic_diversity = true;
  require_random_selection = true;
})

abbrev clock : ℕ → ℕ
clock n = 500 + n

abbrev opening : Event
opening = do_round (λ at. "hash") clock "c" (some "r1") none

-- Two rounds on one contribution, and a voter who votes in both and again after a restart.
abbrev voting : List Event
voting =
    opening
    ∷ do_round (λ at. "hash") clock "c" none (some 7)
    ∷ do_verified clock "r1" "c" "p" VoteType.approve none none
    ∷ do_verified clock "hash" "c" "p" VoteType.reject none none
    ∷ restart
    ∷ do_verified clock "r9" "c" "p" VoteType.approve (some "again") none
    ∷ []

counted_once_example :
    length (
      filter (is_by "p") (
        votes_for_contribution
          (happen_all vote_id texts trusting (make requirements nobody) voting).manager
          "c"))
    ≤ 1
counted_once_example =
    counted_once vote_id vote_id-IsInjective texts trusting requirements nobody voting "c" "p"

restart_restores_example :
    IsSameOn
      (restore_snapshot vote_id
        (make requirements nobody)
        (create_snapshot (happen_all vote_id texts trusting (make requirements nobody) voting)))
      (happen_all vote_id texts trusting (make requirements nobody) voting)
restart_restores_example =
    restart_restores vote_id vote_id-IsInjective texts trusting requirements nobody voting
      (make requirements nobody)

abbrev reported : List Event
reported = opening ∷ do_result "r1" "c" (some approved) (record { num = 3; den = 4 }) 900 ∷ []

abbrev approved_round : Round
approved_round = record {
  contribution_id = "c";
  status = reached;
  start_time = 501;
  end_time = some 900;
  witnesses = [];
  votes = [];
  quorum_required = 2;
  quorum_reached = true;
  approval = record { num = 3; den = 4 };
  result = some approved;
}

reported_decided :
    IsDecidedAt
      (some approved)
      "r1"
      (happen_all vote_id texts trusting (make requirements nobody) reported)
unfolding happen_all happen start_contribution_round started record_external_result external_result
    external_result_on find_round found_or put_back make get put Rounds.make
    Rounds.record_external_result external_at complete
reported_decided = record { round = approved_round; found = refl; decided = (refl, (refl, refl)) }

abbrev later : List Event
later =
    do_verified clock "r1" "c" "q" VoteType.reject none none
    ∷ restart
    ∷ do_result "r1" "c" (some rejected) (record { num = 1; den = 4 }) 950
    ∷ do_call "r2" (do_fail 960)
    ∷ []

decision_lasts_example : IsDecidedAt (some approved) "r1" (
    happen_all vote_id texts trusting
      (happen_all vote_id texts trusting (make requirements nobody) reported)
      later)
decision_lasts_example =
    decision_lasts vote_id vote_id-IsInjective texts trusting (some approved) "r1" requirements
      nobody reported later reported_decided (refl, (refl, (refl, (refl, tt))))
