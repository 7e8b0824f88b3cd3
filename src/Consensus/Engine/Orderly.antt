-- ===== src/Consensus/Engine/Orderly.antt =====
-- What stays in order in the managers of an engine, whatever it is called with.
use synpeer.Prelude.{
  ℕ, String, Bool, true, false, not, ◌&&◌, Option, none, [], ◌∷◌, ◌++◌, leb, ◌+◌, Bool-cases, inl,
  inr,
}
use synpeer.Dict.{Dict}
use synpeer.Dict.Entries.{IsDistinct, put-IsDistinct}
use synpeer.Consensus.Votes.{
  VoteType, Manager, CastResult, accepted, conflict, invalid, try_cast_vote, has_voted, count_votes,
}
use synpeer.Consensus.Votes.Index.{IsIndexed, IsInjective, try_cast_vote-IsIndexed}
use synpeer.Consensus.Votes.Distinct.{try_cast_vote-IsDistinct}
use synpeer.Consensus.Quorum.{Fraction, QuorumResult, calculate_quorum}
use synpeer.Consensus.Round.{
  Round, RoundResult, State, Call, do_start, do_expire, do_fail, do_cancel, do_vote,
  do_verified_vote, do_external, start, expire_if_timed_out, check_quorum, take_cast, cast_vote,
  fail, cancel, external_at,
}
use synpeer.Consensus.Round as Rounds
use synpeer.Consensus.Engine.{Engine}

module _ (f : String → String → String) where
  -- The votes and the results that a round shares with the others.
  pub record AreKept (m : Manager) (history : Dict QuorumResult) : Type 0 where
    pub indexed : IsIndexed f m
    pub votes : IsDistinct m.votes
    pub results : IsDistinct history

  abbrev pub IsManaged : State → Type 0
  IsManaged s = AreKept s.manager s.history

  pub record IsOrderly (e : Engine) : Type 0 where
    pub indexed : IsIndexed f e.manager
    pub votes : IsDistinct e.manager.votes
    pub results : IsDistinct e.history
    pub rounds : IsDistinct e.rounds

module _ (f : String → String → String) (inj : IsInjective f) where
  check_quorum-IsManaged :
      (s : State) (now : ℕ → ℕ) → IsManaged f s → IsManaged f (check_quorum s now)
  unfolding check_quorum
  check_quorum-IsManaged s now h =
      let c = count_votes s.manager s.round.contribution_id in
      let q = calculate_quorum s.requirements (now 1) c.approve c.reject c.abstain in
      elim (Bool-cases (q.reached && not s.round.quorum_reached)) [
        | inl b ↦ rw b (record {
          indexed = h.indexed;
          votes = h.votes;
          results = put-IsDistinct s.history s.round.contribution_id q h.results;
        })
        | inr b ↦ rw b h
      ]

  take_cast-IsManaged :
      (s : State) (now : ℕ → ℕ) (b : Bool) (r : Manager × CastResult)
      → AreKept f r.0 s.history
      → IsManaged f (take_cast s now b r).0
  unfolding take_cast
  take_cast-IsManaged s now b (m, accepted v true) h = h
  take_cast-IsManaged s now b (m, accepted v false) h =
      check_quorum-IsManaged
        (record s { manager = m; round = record s.round { votes = s.round.votes ++ v ∷ [] } }) now h
  take_cast-IsManaged s now b (m, conflict v) h = h
  take_cast-IsManaged s now b (m, invalid) h = h

  cast-AreKept :
      (s : State) (now : ℕ) (voter : String) (vote : VoteType) (reason signature : Option String)
      → IsManaged f s
      → AreKept f
          (try_cast_vote f s.manager now s.round.contribution_id voter vote reason signature).0
          s.history
  cast-AreKept s now voter vote reason signature h = record {
    indexed =
        try_cast_vote-IsIndexed f inj s.manager now s.round.contribution_id voter vote reason
          signature h.indexed;
    votes =
        try_cast_vote-IsDistinct f s.manager now s.round.contribution_id voter vote reason signature
          h.votes;
    results = h.results;
  }

  cast_vote-IsManaged :
      (is_verified : String → Bool) (s : State) (now : ℕ → ℕ) (voter : String) (vote : VoteType)
      (reason : Option String)
      → IsManaged f s
      → IsManaged f (cast_vote f is_verified s now voter vote reason).0
  unfolding cast_vote
  cast_vote-IsManaged is_verified s now voter vote reason h =
      elim (Bool-cases (is_verified voter)) [
        | inl a ↦ elim (Bool-cases (has_voted s.manager s.round.contribution_id voter)) [
          | inl b ↦ rw (a, b) h
          | inr b ↦
              rw (a, b)
                (take_cast-IsManaged s now false _
                  (cast-AreKept s (now 0) voter vote reason none h))
        ]
        | inr a ↦ rw a h
      ]

  external_at-IsManaged :
      (s : State) (result : RoundResult) (approval : Fraction) (decided : ℕ)
      → IsManaged f s
      → IsManaged f (Rounds.record_external_result s result approval decided).0
  unfolding Rounds.record_external_result external_at
  external_at-IsManaged s result approval decided h = go s.round.status
    where
      go : (t : Rounds.RoundStatus) → IsManaged f (external_at t s result approval decided).0
      go Rounds.reached = h
      go Rounds.RoundStatus.failed = h
      go Rounds.RoundStatus.expired = h
      go Rounds.RoundStatus.pending = h
      go Rounds.RoundStatus.voting = h

  expire-IsManaged :
      (s : State) (now : ℕ) → IsManaged f s → IsManaged f (expire_if_timed_out s now).0
  unfolding expire_if_timed_out
  expire-IsManaged s now h =
      elim (Bool-cases (
        Rounds.is_voting s.round.status && leb (s.round.start_time + s.requirements.timeout) now)) [
          | inl b ↦ rw b h
          | inr b ↦ rw b h
        ]

  pub perform-IsManaged :
      (is_verified : String → Bool) (s : State) (c : Call)
      → IsManaged f s
      → IsManaged f (Rounds.perform f is_verified s c)
  unfolding Rounds.perform start fail cancel Rounds.record_verified_vote
  perform-IsManaged v s (do_start now) h =
      expire-IsManaged (record s { round = record s.round { status = Rounds.RoundStatus.voting } })
        now h
  perform-IsManaged v s (do_expire now) h = expire-IsManaged s now h
  perform-IsManaged v s (do_fail now) h = h
  perform-IsManaged v s (do_cancel now) h = h
  perform-IsManaged v s (do_vote now voter vote reason) h =
      cast_vote-IsManaged v s now voter vote reason h
  perform-IsManaged v s (do_verified_vote now voter vote reason signature) h =
      take_cast-IsManaged s now true _ (cast-AreKept s (now 0) voter vote reason signature h)
  perform-IsManaged v s (do_external result approval decided) h =
      external_at-IsManaged s result approval decided h
