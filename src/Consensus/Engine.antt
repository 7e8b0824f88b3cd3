-- ===== src/Consensus/Engine.antt =====
-- src/consensus/ConsensusEngine.ts: rounds that share the managers of votes, quorums and witnesses. The
-- text of a round's id is a parameter. A round is changed through the engine, or by whoever holds it.
pub mod Orderly
pub mod Events
pub mod Runs
pub mod Restart
pub mod Decided
pub mod Outcome
use synpeer.Prelude.{
  ℕ, String, Option, none, some, List, [], ◌∷◌, Bool, true, false, not, ◌==◌, if◌then◌else◌, map,
  filter,
}
use synpeer.Dict.{Dict, get, has, put, delete, values}
use synpeer.Dict.Entries.{put_all}
use synpeer.Consensus.Votes.{Vote, VoteType, Manager, empty, restore_votes, import_votes}
use synpeer.Consensus.Quorum.{Fraction, Requirements, QuorumResult, restore_entries, import_entries}
use synpeer.Consensus.Witnesses as Choosing
use synpeer.Consensus.Witnesses.{Witnesses, Texts}
use synpeer.Consensus.Round.{Round, RoundResult, State, Call, is_complete, is_successful}
use synpeer.Consensus.Round as Rounds

pub record Engine : Type 0 where
  pub rounds : Dict Round
  pub manager : Manager
  pub history : Dict QuorumResult
  pub requirements : Requirements
  pub witnesses : Witnesses

unfoldable pub make : Requirements → Witnesses → Engine
make r w = record { rounds = []; manager = empty; history = []; requirements = r; witnesses = w }

-- A round with the managers it is given.
abbrev pub state_of : Engine → Round → State
state_of e r = record {
  round = r;
  manager = e.manager;
  history = e.history;
  requirements = e.requirements;
}

-- The managers and the round as a call has left them.
unfoldable pub put_back : Engine → String → State → Engine
put_back e id s = record e {
  rounds = put e.rounds id s.round;
  manager = s.manager;
  history = s.history;
}

unfoldable pub started : Engine → String → Round → Option Round → Engine × Round
started e id fresh none = (record e { rounds = put e.rounds id fresh }, fresh)
started e id fresh (some existing) = (e, existing)

abbrev pub or_time : Option ℕ → ℕ → ℕ
or_time none now = now
or_time (some at) now = at

abbrev pub or_id : Option String → String → String
or_id none id = id
or_id (some id) _ = id

-- `id_of` is the hash of the contribution, its contributor, type and value, and a time.
unfoldable pub start_contribution_round :
    (ℕ → String) → Engine → (ℕ → ℕ) → String → Option String → Option ℕ → Engine × Round
unfolding started
start_contribution_round id_of e now contribution round_id started_at =
    let id = or_id round_id (id_of (or_time started_at (now 0))) in
    started e id (Rounds.make contribution (now 1) e.manager e.history e.requirements).round
      (get e.rounds id)

-- The first round of a contribution, with its id.
unfoldable pub round_by_contribution : Dict Round → String → Option (String × Round)
round_by_contribution [] contribution = none
round_by_contribution ((id, r) ∷ rs) contribution =
    let rest = round_by_contribution rs contribution in
    if r.contribution_id == contribution then some (id, r) else rest

unfoldable pub found_or : Option Round → String → Option (String × Round) → Option (String × Round)
found_or none id other = other
found_or (some r) id other = some (id, r)

unfoldable pub find_round : Engine → String → String → Option (String × Round)
unfolding found_or round_by_contribution
find_round e id contribution =
    found_or (get e.rounds id) id (round_by_contribution e.rounds contribution)

module _ (create_vote_id : String → String → String) where
  verified_vote_on :
      Engine
      → (ℕ → ℕ)
      → String
      → VoteType
      → Option String
      → Option String
      → Option (String × Round)
      → Engine × Bool
  unfolding put_back
  verified_vote_on e now voter vote reason signature none = (e, false)
  verified_vote_on e now voter vote reason signature (some (id, r)) =
      let x =
        Rounds.record_verified_vote create_vote_id (state_of e r) now voter vote reason signature in
      (put_back e id x.0, x.1)

  unfoldable pub record_verified_vote :
      Engine
      → (ℕ → ℕ)
      → String
      → String
      → String
      → VoteType
      → Option String
      → Option String
      → Engine × Bool
  unfolding verified_vote_on find_round
  record_verified_vote e now id contribution voter vote reason signature =
      verified_vote_on e now voter vote reason signature (find_round e id contribution)

unfoldable pub external_result_on :
    Engine → RoundResult → Fraction → ℕ → Option (String × Round) → Engine × Bool
unfolding put_back
external_result_on e result approval decided none = (e, false)
external_result_on e result approval decided (some (id, r)) =
    let x = Rounds.record_external_result (state_of e r) result approval decided in
    (put_back e id x.0, x.1)

unfoldable pub external_result :
    Engine → String → String → Option RoundResult → Fraction → ℕ → Engine × Bool
unfolding external_result_on find_round
external_result e id contribution none approval decided = (e, false)
external_result e id contribution (some result) approval decided =
    external_result_on e result approval decided (find_round e id contribution)

-- A result that is pending is none.
unfoldable pub record_external_result :
    Engine → String → String → Option RoundResult → Fraction → ℕ → Engine × Bool
unfolding external_result
record_external_result e id contribution result approval decided =
    external_result e id contribution result approval decided

unfoldable pub active_rounds : Engine → List Round
active_rounds e = filter (λ (r : Round). not (is_complete r)) (values e.rounds)

unfoldable pub completed_rounds : Engine → List Round
completed_rounds e = filter (λ (r : Round). is_complete r) (values e.rounds)

unfoldable pub successful_rounds : Engine → List Round
successful_rounds e = filter (λ (r : Round). is_successful r) (values e.rounds)

-- The round that is cancelled is not kept.
unfoldable pub remove_round : Engine → String → Engine × Bool
remove_round e id =
    if has e.rounds id then (record e { rounds = delete e.rounds id }, true) else (e, false)

unfoldable pub clear_all_rounds : Engine → Engine
clear_all_rounds e = record e { rounds = [] }

unfoldable pub reset : Engine → Engine
unfolding clear_all_rounds
reset e = record (clear_all_rounds e) {
  manager = empty;
  history = [];
  witnesses = Choosing.clear_all e.witnesses;
}

-- A stored round carries its id.
pub record Snapshot : Type 0 where
  pub rounds : List (String × Round)
  pub votes : List Vote
  pub quorum_history : List (String × Option QuorumResult)

unfoldable pub create_snapshot : Engine → Snapshot
unfolding values
create_snapshot e = record {
  rounds = e.rounds;
  votes = values e.manager.votes;
  quorum_history = map (λ x. (x.0, some x.1)) e.history;
}

module _ (create_vote_id : String → String → String) where
  unfoldable pub restore_snapshot : Engine → Snapshot → Engine
  unfolding restore_votes restore_entries put_all
  restore_snapshot e s = record e {
    rounds = put_all [] s.rounds;
    manager = restore_votes create_vote_id s.votes;
    history = restore_entries [] s.quorum_history;
  }

  -- The votes and results that were parsed, each vote with what the clock says at its turn.
  unfoldable pub import_data : Engine → ℕ → List (ℕ × Vote) → List (String × QuorumResult) → Engine
  unfolding import_votes import_entries
  import_data e now votes entries = record e {
    manager = import_votes create_vote_id e.manager votes;
    history = import_entries e.requirements now e.history entries;
  }

  called : (String → Bool) → Engine → String → Call → Option Round → Engine
  unfolding put_back
  called is_verified e id c none = e
  called is_verified e id c (some r) =
      put_back e id (Rounds.perform create_vote_id is_verified (state_of e r) c)

  -- A call of whoever holds a round.
  unfoldable pub call_round : (String → Bool) → Engine → String → Call → Engine
  unfolding called
  call_round is_verified e id c = called is_verified e id c (get e.rounds id)

witnesses_selected :
    Texts → Engine → (String → ℕ) → String → List String → Option Round → Engine × List String
unfolding put_back
witnesses_selected t e now id excluded none = (e, [])
witnesses_selected t e now id excluded (some r) =
    let x = Choosing.select_witnesses t e.witnesses now r.contribution_id excluded in
    (put_back (record e { witnesses = x.0 }) id (Rounds.select_witnesses (state_of e r) x.1), x.1)

-- `selectWitnesses` of a round, which asks the manager of the witnesses.
unfoldable pub select_witnesses :
    Texts → Engine → (String → ℕ) → String → List String → Engine × List String
unfolding witnesses_selected
select_witnesses t e now id excluded = witnesses_selected t e now id excluded (get e.rounds id)
