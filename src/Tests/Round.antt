-- ===== src/Tests/Round.antt =====
-- Rounds of the consensus at concrete inputs (src/consensus).
use synpeer.Prelude.{ℕ, ◌+◌, String, ◌≡◌, refl, none, some, [], ◌∷◌, Bool, true, false}
use synpeer.Dict.{get, put, keys}
use synpeer.Consensus.Votes.{
  Vote, VoteType, Manager, empty, try_cast_vote, cast_over, store, track, count_votes, count_list,
  votes_for_contribution, found_votes, has_voted, some_by,
}
use synpeer.Consensus.Quorum.{Requirements, calculate_quorum, share, at_least, more_than}
use synpeer.Consensus.Round.{
  State, approved, rejected, reached, expired, do_start, do_vote, do_expire, make, start,
  expire_if_timed_out, cast_vote, record_verified_vote, take_cast, check_quorum, complete,
  same_result, perform_all,
}
use synpeer.Consensus.Round.Decision.{
  tally, RestsOnTally, never_rejected, deciding_vote, late_vote_reaches,
}

abbrev by_voter : String → String → String
by_voter contribution voter = voter

abbrev trusting : String → Bool
trusting peer = true

abbrev requirements : Requirements
requirements = record {
  min_peers = 1;
  required_agreement = record { num = 66; den = 100 };
  min_trust_score = 0;
  timeout = 100;
}

opened : State
unfolding make
opened = make "c" 0 empty [] requirements

abbrev clock : ℕ → ℕ
clock n = 500 + n

never_rejected_example :
    same_result
      (perform_all by_voter trusting opened
        (do_start 1 ∷ do_vote clock "p" VoteType.reject none ∷ do_expire 200 ∷ [])).round.result
      rejected
    ≡ false
never_rejected_example =
    never_rejected by_voter trusting opened
      (do_start 1 ∷ do_vote clock "p" VoteType.reject none ∷ do_expire 200 ∷ [])
      (unfold opened in refl) (refl, (refl, (refl, tt)))

-- A round that has expired.
late : State
unfolding opened
late = start opened 400

late_expired : late.round.status ≡ expired
unfolding late opened make start expire_if_timed_out
late_expired = refl

first_vote : Vote
first_vote = record {
  contribution_id = "c";
  voter = "p";
  vote = VoteType.approve;
  reason = none;
  timestamp = 500;
  signature = "";
}

after_vote : Manager
unfolding first_vote
after_vote = store by_voter empty first_vote

late_vote_reaches_example :
    ((record_verified_vote by_voter late clock "p" VoteType.approve none none).0.round.status
      ≡ reached)
    × ((record_verified_vote by_voter late clock "p" VoteType.approve none none).0.round.result
        ≡ some approved)
late_vote_reaches_example =
    late_vote_reaches by_voter late clock "p" VoteType.approve none none after_vote first_vote
      (unfold late opened make start expire_if_timed_out after_vote first_vote try_cast_vote
          cast_over store empty get in
        refl)
      (unfold late opened make start expire_if_timed_out in refl)
      (unfold late opened make start expire_if_timed_out after_vote first_vote store track empty get
          put keys tally calculate_quorum count_votes count_list votes_for_contribution found_votes
          share at_least more_than in
        refl)

deciding_vote_example :
    RestsOnTally (cast_vote by_voter trusting late clock "p" VoteType.approve none).0
deciding_vote_example =
    deciding_vote by_voter trusting late clock "p" VoteType.approve none
      (unfold late opened make start expire_if_timed_out in refl)
      (unfold cast_vote has_voted some_by take_cast check_quorum complete try_cast_vote cast_over
          late opened make start expire_if_timed_out store track empty get put keys calculate_quorum
          count_votes count_list votes_for_contribution found_votes share at_least more_than in
        refl)
