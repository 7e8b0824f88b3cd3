-- ===== src/Consensus/Round.antt =====
-- src/consensus/ConsensusRound.ts, over the vote manager and the quorum manager. Whether a peer is
-- verified and which witnesses are selected come from other managers: parameters. The events that are
-- emitted are left out. `now` gives the readings of the clock of one call.
pub mod Decision
use synpeer.Prelude.{
  ℕ, ◌+◌, ◌*◌, String, Option, none, some, List, [], ◌∷◌, ◌++◌, Bool, true, false, not, ◌&&◌, ◌||◌,
  leb, nat_beq, if◌then◌else◌,
}
use synpeer.Dict.{Dict, put}
use synpeer.Consensus.Votes.{
  Vote, VoteType, Manager, CastResult, accepted, conflict, invalid, Counts, try_cast_vote,
  has_voted, count_votes,
}
use synpeer.Consensus.Quorum.{Fraction, Requirements, QuorumResult, calculate_quorum, more_than}

pub data RoundStatus : Type 0 where
  pending voting reached failed expired : RoundStatus

pub data RoundResult : Type 0 where
  approved rejected : RoundResult

pub record Round : Type 0 where
  pub contribution_id : String
  pub status : RoundStatus
  pub start_time : ℕ
  pub end_time : Option ℕ
  pub witnesses : List String
  pub votes : List Vote
  pub quorum_required : ℕ
  pub quorum_reached : Bool
  pub approval : Fraction
  pub result : Option RoundResult

-- A round with the managers that it writes to.
pub record State : Type 0 where
  pub round : Round
  pub manager : Manager
  pub history : Dict QuorumResult
  pub requirements : Requirements

unfoldable pub make : String → ℕ → Manager → Dict QuorumResult → Requirements → State
make contribution now m h r = record {
  round = record {
    contribution_id = contribution;
    status = pending;
    start_time = now;
    end_time = none;
    witnesses = [];
    votes = [];
    quorum_required = r.min_peers;
    quorum_reached = false;
    approval = record { num = 0; den = 1 };
    result = none;
  };
  manager = m;
  history = h;
  requirements = r;
}

abbrev pub is_voting : RoundStatus → Bool
is_voting voting = true
is_voting _ = false

unfoldable pub expire_if_timed_out : State → ℕ → State × Bool
expire_if_timed_out s now =
    if is_voting s.round.status && leb (s.round.start_time + s.requirements.timeout) now
    then (record s { round = record s.round { status = expired; end_time = some now } }, true)
    else (s, false)

unfoldable pub start : State → ℕ → State
unfolding expire_if_timed_out
start s now = (expire_if_timed_out (record s { round = record s.round { status = voting } }) now).0

unfoldable pub select_witnesses : State → List String → State
select_witnesses s witnesses = record s { round = record s.round { witnesses = witnesses } }

unfoldable pub complete : Round → RoundResult → ℕ → Round
complete r result now = record r { status = reached; result = some result; end_time = some now }

unfoldable pub check_quorum : State → (ℕ → ℕ) → State
unfolding complete
check_quorum s now =
    let c = count_votes s.manager s.round.contribution_id in
    let q = calculate_quorum s.requirements (now 1) c.approve c.reject c.abstain in
    let r = record s.round { approval = q.actual_agreement } in
    if q.reached && not s.round.quorum_reached
    then record s {
      round =
          complete (record r { quorum_reached = true })
            (if more_than q.actual_agreement q.reject_share then approved else rejected) (now 2);
      history = put s.history s.round.contribution_id q;
    }
    else record s { round = r }

-- A new vote is pushed, and the quorum is looked at; `repeated` is the answer to a vote cast before.
unfoldable pub take_cast : State → (ℕ → ℕ) → Bool → Manager × CastResult → State × Bool
unfolding check_quorum
take_cast s now repeated (m, accepted v true) = (record s { manager = m }, repeated)
take_cast s now repeated (m, accepted v false) = (
  check_quorum
      (record s { manager = m; round = record s.round { votes = s.round.votes ++ v ∷ [] } }) now,
  true,
)
take_cast s now repeated (m, conflict v) = (record s { manager = m }, false)
take_cast s now repeated (m, invalid) = (record s { manager = m }, false)

module _ (create_vote_id : String → String → String) where
  unfoldable pub cast_vote :
      (String → Bool) → State → (ℕ → ℕ) → String → VoteType → Option String → State × Bool
  unfolding take_cast
  cast_vote is_verified s now voter vote reason =
      if not (is_verified voter)
      then (s, false)
      else if has_voted s.manager s.round.contribution_id voter
      then (s, false)
      else take_cast s now false (
          try_cast_vote create_vote_id s.manager (now 0) s.round.contribution_id voter vote reason
            none)

  unfoldable pub record_verified_vote :
      State → (ℕ → ℕ) → String → VoteType → Option String → Option String → State × Bool
  unfolding take_cast
  record_verified_vote s now voter vote reason signature = take_cast s now true (
      try_cast_vote create_vote_id s.manager (now 0) s.round.contribution_id voter vote reason
        signature)

abbrev pub same_result : Option RoundResult → RoundResult → Bool
same_result none r = false
same_result (some approved) approved = true
same_result (some rejected) rejected = true
same_result (some approved) rejected = false
same_result (some rejected) approved = false

abbrev pub same_fraction : Fraction → Fraction → Bool
same_fraction p q = nat_beq (p.num * q.den) (q.num * p.den)

unfoldable pub external_at : RoundStatus → State → RoundResult → Fraction → ℕ → State × Bool
unfolding complete
external_at reached s result approval decided =
    (s, same_result s.round.result result && same_fraction s.round.approval approval)
external_at failed s result approval decided = (s, false)
external_at expired s result approval decided = (s, false)
external_at pending s result approval decided = (
  record s {
    round = complete (record s.round { quorum_reached = true; approval = approval }) result decided;
  },
  true,
)
external_at voting s result approval decided = (
  record s {
    round = complete (record s.round { quorum_reached = true; approval = approval }) result decided;
  },
  true,
)

unfoldable pub record_external_result : State → RoundResult → Fraction → ℕ → State × Bool
unfolding external_at
record_external_result s result approval decided =
    external_at s.round.status s result approval decided

unfoldable pub fail : State → ℕ → State
fail s now = record s { round = record s.round { status = failed; end_time = some now } }

unfoldable pub cancel : State → ℕ → State
cancel s now = record s { round = record s.round { status = failed; end_time = some now } }

abbrev is_reached : RoundStatus → Bool
is_reached reached = true
is_reached _ = false

abbrev is_over : RoundStatus → Bool
is_over reached = true
is_over failed = true
is_over expired = true
is_over _ = false

unfoldable pub is_complete : Round → Bool
is_complete r = is_over r.status

unfoldable pub is_successful : Round → Bool
is_successful r = is_reached r.status && same_result r.result approved

-- The calls of one round.
pub data Call : Type 0 where
  do_start do_expire do_fail do_cancel : ℕ → Call
  do_vote : (ℕ → ℕ) → String → VoteType → Option String → Call
  do_verified_vote : (ℕ → ℕ) → String → VoteType → Option String → Option String → Call
  do_external : RoundResult → Fraction → ℕ → Call

module _ (create_vote_id : String → String → String) (is_verified : String → Bool) where
  unfoldable pub perform : State → Call → State
  unfolding start expire_if_timed_out fail cancel cast_vote record_verified_vote
      record_external_result
  perform s (do_start now) = start s now
  perform s (do_expire now) = (expire_if_timed_out s now).0
  perform s (do_fail now) = fail s now
  perform s (do_cancel now) = cancel s now
  perform s (do_vote now voter vote reason) =
      (cast_vote create_vote_id is_verified s now voter vote reason).0
  perform s (do_verified_vote now voter vote reason signature) =
      (record_verified_vote create_vote_id s now voter vote reason signature).0
  perform s (do_external result approval decided) =
      (record_external_result s result approval decided).0

  unfoldable pub perform_all : State → List Call → State
  unfolding perform
  perform_all s [] = s
  perform_all s (c ∷ cs) = perform_all (perform s c) cs
