-- ===== src/Consensus/Round/Decision.antt =====
-- On what decides a round, and what may change the decision.
use synpeer.Prelude.{
  ℕ, ◌+◌, ◌≤◌, ◌<◌, String, ◌≡◌, Option, none, some, List, [], ◌∷◌, ◌++◌, Bool, true, false, not,
  arith, if◌then◌else◌, All,
}
use synpeer.Consensus.Votes.{
  Vote, VoteType, Manager, CastResult, accepted, conflict, invalid, try_cast_vote, has_voted,
  count_votes,
}
use synpeer.Consensus.Quorum.{Requirements, QuorumResult, calculate_quorum, more_than}
use synpeer.Consensus.Quorum.Agreement.{reached_iff}
use synpeer.Consensus.Round.{
  RoundStatus, reached, RoundResult, approved, rejected, State, Call, do_start, do_expire, do_fail,
  do_cancel, do_vote, do_verified_vote, do_external, expire_if_timed_out, start, complete,
  check_quorum, take_cast, cast_vote, record_verified_vote, external_at, record_external_result,
  fail, cancel, same_result, perform, perform_all,
}

-- The tally of the votes of the round.
unfoldable pub tally : State → ℕ → QuorumResult
tally s now =
    let c = count_votes s.manager s.round.contribution_id in
    calculate_quorum s.requirements now c.approve c.reject c.abstain

reached_majority :
    (r : Requirements) (now a b c : ℕ)
    → (calculate_quorum r now a b c).reached ≡ true
    → more_than
        (calculate_quorum r now a b c).actual_agreement
        (calculate_quorum r now a b c).reject_share
      ≡ true
unfolding calculate_quorum
reached_majority r now a b c h = ground (arith, h)

abbrev IsNotRejected : State → Type 0
IsNotRejected s = same_result s.round.result rejected ≡ false

check_quorum-IsNotRejected :
    (s : State) (now : ℕ → ℕ) → IsNotRejected s → IsNotRejected (check_quorum s now)
unfolding check_quorum complete
check_quorum-IsNotRejected s now h =
    let c = count_votes s.manager s.round.contribution_id in
    ground (arith, h, reached_majority s.requirements (now 1) c.approve c.reject c.abstain)

take_cast-IsNotRejected :
    (s : State) (now : ℕ → ℕ) (b : Bool) (r : Manager × CastResult)
    → IsNotRejected s
    → IsNotRejected (take_cast s now b r).0
unfolding take_cast
take_cast-IsNotRejected s now b (m, accepted v true) h = h
take_cast-IsNotRejected s now b (m, accepted v false) h =
    check_quorum-IsNotRejected
      (record s { manager = m; round = record s.round { votes = s.round.votes ++ v ∷ [] } }) now h
take_cast-IsNotRejected s now b (m, conflict v) h = h
take_cast-IsNotRejected s now b (m, invalid) h = h

-- A call that is no external result.
abbrev pub is_own : Call → Bool
is_own (do_external result approval decided) = false
is_own _ = true

-- A vote, or an external result.
abbrev pub is_report : Call → Bool
is_report (do_vote now voter vote reason) = true
is_report (do_verified_vote now voter vote reason signature) = true
is_report (do_external result approval decided) = true
is_report _ = false

-- A round that is reached, by a quorum or an external result, stays so.
abbrev pub IsDecided : RoundStatus → Option RoundResult → State → Type 0
IsDecided status result s =
    (s.round.quorum_reached ≡ true) × ((s.round.status ≡ status) × (s.round.result ≡ result))

check_quorum-IsDecided :
    (status : RoundStatus) (result : Option RoundResult) (s : State) (now : ℕ → ℕ)
    → IsDecided status result s
    → IsDecided status result (check_quorum s now)
unfolding check_quorum
check_quorum-IsDecided status result s now h = ground (arith, h)

take_cast-IsDecided :
    (status : RoundStatus) (result : Option RoundResult) (s : State) (now : ℕ → ℕ) (b : Bool)
    (r : Manager × CastResult)
    → IsDecided status result s
    → IsDecided status result (take_cast s now b r).0
unfolding take_cast
take_cast-IsDecided status result s now b (m, accepted v true) h = h
take_cast-IsDecided status result s now b (m, accepted v false) h =
    check_quorum-IsDecided status result
      (record s { manager = m; round = record s.round { votes = s.round.votes ++ v ∷ [] } }) now h
take_cast-IsDecided status result s now b (m, conflict v) h = h
take_cast-IsDecided status result s now b (m, invalid) h = h

module _ (f : String → String → String) (is_verified : String → Bool) where
  cast_vote-cases :
      (P : State → Type 0) (s : State) (now : ℕ → ℕ) (voter : String) (vote : VoteType)
      (reason : Option String)
      → P s
      → ((r : Manager × CastResult) → P (take_cast s now false r).0)
      → P (cast_vote f is_verified s now voter vote reason).0
  unfolding cast_vote
  cast_vote-cases P s now voter vote reason h k =
      go (is_verified voter) (has_voted s.manager s.round.contribution_id voter)
    where
      pair : State × Bool → Type 0
      pair x = P x.0

      cast_result : Manager × CastResult
      cast_result = try_cast_vote f s.manager (now 0) s.round.contribution_id voter vote reason none

      go :
          (a b : Bool)
          → pair (
              if not a
              then (s, false)
              else if b
              then (s, false)
              else take_cast s now false cast_result)
      go false b = h
      go true true = h
      go true false = k cast_result

  perform-IsNotRejected :
      (s : State) (c : Call)
      → is_own c ≡ true
      → IsNotRejected s
      → IsNotRejected (perform f is_verified s c)
  unfolding perform start expire_if_timed_out fail cancel record_verified_vote
  perform-IsNotRejected s (do_start now) o h = ground (arith, h)
  perform-IsNotRejected s (do_expire now) o h = ground (arith, h)
  perform-IsNotRejected s (do_fail now) o h = h
  perform-IsNotRejected s (do_cancel now) o h = h
  perform-IsNotRejected s (do_vote now voter vote reason) o h =
      cast_vote-cases IsNotRejected s now voter vote reason h
        (λ r. take_cast-IsNotRejected s now false r h)
  perform-IsNotRejected s (do_verified_vote now voter vote reason signature) o h =
      take_cast-IsNotRejected s now true _ h
  perform-IsNotRejected s (do_external result approval decided) o h = cc

  pub perform-IsDecided :
      (result : Option RoundResult) (s : State) (c : Call)
      → is_report c ≡ true
      → IsDecided reached result s
      → IsDecided reached result (perform f is_verified s c)
  unfolding perform record_verified_vote record_external_result external_at
  perform-IsDecided result s (do_vote now voter vote reason) o h =
      cast_vote-cases (IsDecided reached result) s now voter vote reason h
        (λ r. take_cast-IsDecided reached result s now false r h)
  perform-IsDecided result s (do_verified_vote now voter vote reason signature) o h =
      take_cast-IsDecided reached result s now true _ h
  perform-IsDecided result s (do_external other approval decided) o h = ground (arith, h)
  perform-IsDecided result s (do_start now) o h = cc
  perform-IsDecided result s (do_expire now) o h = cc
  perform-IsDecided result s (do_fail now) o h = cc
  perform-IsDecided result s (do_cancel now) o h = cc

  -- A round that is not rejected is never rejected by starting, votes, expiry, failure and
  -- cancellation, whatever the votes are.
  pub never_rejected :
      (s : State) (cs : List Call)
      → same_result s.round.result rejected ≡ false
      → All (λ (c : Call). is_own c ≡ true) cs
      → same_result (perform_all f is_verified s cs).round.result rejected ≡ false
  unfolding perform_all
  never_rejected s [] h o = h
  never_rejected s (c ∷ cs) h o =
      never_rejected (perform f is_verified s c) cs (perform-IsNotRejected s c o.0 h) o.1

  -- A round that is reached keeps its status and result through any votes and external results.
  pub decision_stands :
      (result : Option RoundResult) (s : State) (cs : List Call)
      → IsDecided reached result s
      → All (λ (c : Call). is_report c ≡ true) cs
      → IsDecided reached result (perform_all f is_verified s cs)
  unfolding perform_all
  decision_stands result s [] h o = h
  decision_stands result s (c ∷ cs) h o =
      decision_stands result (perform f is_verified s c) cs (perform-IsDecided result s c o.0 h) o.1

-- What a round that has just been decided rests on.
abbrev pub RestsOnTally : State → Type 0
RestsOnTally s =
    (s.requirements.min_peers
      ≤ (count_votes s.manager s.round.contribution_id).approve
        + (count_votes s.manager s.round.contribution_id).reject
        + (count_votes s.manager s.round.contribution_id).abstain)
    × (((count_votes s.manager s.round.contribution_id).reject
          < (count_votes s.manager s.round.contribution_id).approve)
        × ((s.round.status ≡ reached) × (s.round.result ≡ some approved)))

check_quorum-RestsOnTally :
    (s : State) (now : ℕ → ℕ)
    → s.round.quorum_reached ≡ false
    → (check_quorum s now).round.quorum_reached ≡ true
    → RestsOnTally (check_quorum s now)
unfolding check_quorum complete
check_quorum-RestsOnTally s now h k =
    let c = count_votes s.manager s.round.contribution_id in
    ground (
      arith,
      h,
      k,
      reached_majority s.requirements (now 1) c.approve c.reject c.abstain,
      reached_iff s.requirements (now 1) c.approve c.reject c.abstain,
    )

take_cast-RestsOnTally :
    (s : State) (now : ℕ → ℕ) (b : Bool) (r : Manager × CastResult)
    → s.round.quorum_reached ≡ false
    → (take_cast s now b r).0.round.quorum_reached ≡ true
    → RestsOnTally (take_cast s now b r).0
unfolding take_cast
take_cast-RestsOnTally s now b (m, accepted v true) h k = absurd (ground (arith, h, k))
take_cast-RestsOnTally s now b (m, accepted v false) h k =
    check_quorum-RestsOnTally
      (record s { manager = m; round = record s.round { votes = s.round.votes ++ v ∷ [] } }) now h k
take_cast-RestsOnTally s now b (m, conflict v) h k = absurd (ground (arith, h, k))
take_cast-RestsOnTally s now b (m, invalid) h k = absurd (ground (arith, h, k))

module _ (f : String → String → String) (is_verified : String → Bool) where
  -- When castVote makes a round reach its quorum, the votes stored for its contribution are at
  -- least the required peers and hold more approvals than rejections, and the round is reached
  -- and approved.
  pub deciding_vote :
      (s : State) (now : ℕ → ℕ) (voter : String) (vote : VoteType) (reason : Option String)
      → s.round.quorum_reached ≡ false
      → (cast_vote f is_verified s now voter vote reason).0.round.quorum_reached ≡ true
      → RestsOnTally (cast_vote f is_verified s now voter vote reason).0
  deciding_vote s now voter vote reason h =
      cast_vote-cases f is_verified (λ x. x.round.quorum_reached ≡ true → RestsOnTally x) s now
        voter vote reason (λ k. absurd (ground (arith, h, k)))
        (λ r. take_cast-RestsOnTally s now false r h)

module _ (f : String → String → String) where
  -- A new vote that brings the tally to a quorum makes a round without one reached and approved,
  -- whatever its status was.
  pub late_vote_reaches :
      (s : State) (now : ℕ → ℕ) (voter : String) (vote : VoteType)
      (reason signature : Option String) (m : Manager) (v : Vote)
      → try_cast_vote f s.manager (now 0) s.round.contribution_id voter vote reason signature
        ≡ (m, accepted v false)
      → s.round.quorum_reached ≡ false
      → (tally (record s { manager = m }) (now 1)).reached ≡ true
      → ((record_verified_vote f s now voter vote reason signature).0.round.status ≡ reached)
        × ((record_verified_vote f s now voter vote reason signature).0.round.result
            ≡ some approved)
  unfolding record_verified_vote tally take_cast check_quorum complete
  late_vote_reaches s now voter vote reason signature m v e q h = rw e (
      let c = count_votes m s.round.contribution_id in
      ground (arith, h, q, reached_majority s.requirements (now 1) c.approve c.reject c.abstain))
