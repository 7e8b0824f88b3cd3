-- ===== src/Consensus/Engine/Events.antt =====
-- The calls of an engine (src/consensus/ConsensusEngine.ts) and of its rounds, one after the other.
use synpeer.Prelude.{ℕ, String, Bool, Option, List, [], ◌∷◌}
use synpeer.Consensus.Votes.{Vote, VoteType}
use synpeer.Consensus.Quorum.{Fraction, QuorumResult}
use synpeer.Consensus.Witnesses.{Texts}
use synpeer.Consensus.Round.{RoundResult, Call}
use synpeer.Consensus.Engine.{
  Engine, start_contribution_round, record_verified_vote, record_external_result, remove_round,
  clear_all_rounds, reset, Snapshot, create_snapshot, restore_snapshot, import_data, call_round,
  select_witnesses,
}

-- The calls of an engine; `restart` restores what the engine itself has stored.
pub data Event : Type 0 where
  do_round : (ℕ → String) → (ℕ → ℕ) → String → Option String → Option ℕ → Event
  do_verified :
      (ℕ → ℕ) → String → String → String → VoteType → Option String → Option String → Event
  do_result : String → String → Option RoundResult → Fraction → ℕ → Event
  do_call : String → Call → Event
  do_select : (String → ℕ) → String → List String → Event
  do_remove : String → Event
  do_clear do_reset restart : Event
  do_restore : Snapshot → Event
  do_import : ℕ → List (ℕ × Vote) → List (String × QuorumResult) → Event

module _ (f : String → String → String) (t : Texts) (is_verified : String → Bool) where
  unfoldable pub happen : Engine → Event → Engine
  unfolding start_contribution_round record_verified_vote record_external_result call_round
      select_witnesses remove_round clear_all_rounds reset restore_snapshot create_snapshot
      import_data
  happen e (do_round id_of now contribution id at) =
      (start_contribution_round id_of e now contribution id at).0
  happen e (do_verified now id contribution voter vote reason signature) =
      (record_verified_vote f e now id contribution voter vote reason signature).0
  happen e (do_result id contribution result approval decided) =
      (record_external_result e id contribution result approval decided).0
  happen e (do_call id c) = call_round f is_verified e id c
  happen e (do_select now id excluded) = (select_witnesses t e now id excluded).0
  happen e (do_remove id) = (remove_round e id).0
  happen e do_clear = clear_all_rounds e
  happen e do_reset = reset e
  happen e restart = restore_snapshot f e (create_snapshot e)
  happen e (do_restore s) = restore_snapshot f e s
  happen e (do_import now votes entries) = import_data f e now votes entries

  unfoldable pub happen_all : Engine → List Event → Engine
  unfolding happen
  happen_all e [] = e
  happen_all e (x ∷ xs) = happen_all (happen e x) xs
