-- ===== src/Consensus/Votes.antt =====
-- src/consensus/VoteManager.ts. The id of a vote is a hash of the contribution and the voter: a
-- parameter. A set of ids is a dictionary of units.
pub mod Index
pub mod Casting
pub mod Tally
pub mod Removal
pub mod Import
pub mod Distinct
use synpeer.Prelude.{
  ℕ, ◌+◌, suc, String, Option, none, some, List, [], ◌∷◌, Bool, true, false, not, ◌&&◌, ◌||◌, ◌==◌,
  ltb, filter, length, if◌then◌else◌,
}
use synpeer.Dict.{Dict, get, has, put, delete, keys, values, size}

-- `other` is any value that is not a vote.
pub data VoteType : Type 0 where
  approve reject abstain other : VoteType

pub record Vote : Type 0 where
  pub contribution_id : String
  pub voter : String
  pub vote : VoteType
  pub reason : Option String
  pub timestamp : ℕ
  pub signature : String

pub record Manager : Type 0 where
  pub votes : Dict Vote
  pub votes_by_contribution : Dict (Dict (Unit {0}))
  pub votes_by_voter : Dict (Dict (Unit {0}))

pub data CastResult : Type 0 where
  accepted : Vote → Bool → CastResult
  conflict : Vote → CastResult
  invalid : CastResult

abbrev pub is_vote : VoteType → Bool
is_vote approve = true
is_vote reject = true
is_vote abstain = true
is_vote other = false

abbrev pub same_type : VoteType → VoteType → Bool
same_type approve approve = true
same_type reject reject = true
same_type abstain abstain = true
same_type other other = true
same_type _ _ = false

abbrev pub same_reason : Option String → Option String → Bool
same_reason none none = true
same_reason none (some b) = false
same_reason (some a) none = false
same_reason (some a) (some b) = a == b

-- `signature || ''`
abbrev pub or_empty : Option String → String
or_empty none = ""
or_empty (some s) = s

abbrev pub ids_or_none : Option (Dict (Unit {0})) → Dict (Unit {0})
ids_or_none none = []
ids_or_none (some ids) = ids

unfoldable pub empty : Manager
empty = record { votes = []; votes_by_contribution = []; votes_by_voter = [] }

-- Adds an id to the set of a key, which is made if it is not there.
unfoldable pub track : Dict (Dict (Unit {0})) → String → String → Dict (Dict (Unit {0}))
track d key id = put d key (put (ids_or_none (get d key)) id tt)

-- Takes an id out of the set of a key, if there is one.
untrack_from :
    Dict (Dict (Unit {0})) → String → String → Option (Dict (Unit {0})) → Dict (Dict (Unit {0}))
untrack_from d key id none = d
untrack_from d key id (some ids) = put d key (delete ids id)

unfoldable pub untrack : Dict (Dict (Unit {0})) → String → String → Dict (Dict (Unit {0}))
unfolding untrack_from
untrack d key id = untrack_from d key id (get d key)

module _ (create_vote_id : String → String → String) where
  -- The three writes of a new vote.
  unfoldable pub store : Manager → Vote → Manager
  store m v =
      let id = create_vote_id v.contribution_id v.voter in
      record {
        votes = put m.votes id v;
        votes_by_contribution = track m.votes_by_contribution v.contribution_id id;
        votes_by_voter = track m.votes_by_voter v.voter id;
      }

  unfoldable pub cast_over : Manager → Vote → Option Vote → Manager × CastResult
  cast_over m v none = (store m v, accepted v false)
  cast_over m v (some existing) =
      if same_type existing.vote v.vote && same_reason existing.reason v.reason
      then (m, accepted existing true)
      else (m, conflict existing)

  unfoldable pub try_cast_vote :
      Manager
      → ℕ
      → String
      → String
      → VoteType
      → Option String
      → Option String
      → Manager × CastResult
  unfolding cast_over store
  try_cast_vote m now contribution voter vote reason signature =
      if is_vote vote
      then cast_over m
          (record {
            contribution_id = contribution;
            voter = voter;
            vote = vote;
            reason = reason;
            timestamp = now;
            signature = or_empty signature;
          })
          (get m.votes (create_vote_id contribution voter))
      else (m, invalid)

  restore_over : Manager → Vote → Option Vote → Manager
  restore_over m v none = store m v
  restore_over m v (some existing) =
      if not (same_type existing.vote v.vote) || not (same_reason existing.reason v.reason)
      then m
      else store m v

  -- One round of `restoreVotes`, on an entry of the stored list.
  unfoldable pub restore_one : Manager → Vote → Manager
  unfolding restore_over store
  restore_one m v =
      if is_vote v.vote
      then restore_over m v (get m.votes (create_vote_id v.contribution_id v.voter))
      else m

  restore_from : Manager → List Vote → Manager
  restore_from m [] = m
  restore_from m (v ∷ vs) = restore_from (restore_one m v) vs

  unfoldable pub restore_votes : List Vote → Manager
  unfolding restore_from
  restore_votes vs = restore_from empty vs

unfoldable pub found_votes : Dict Vote → List String → List Vote
found_votes d [] = []
found_votes d (id ∷ ids) =
    let rest = found_votes d ids in elim (get d id) [ none ↦ rest | some v ↦ v ∷ rest ]

unfoldable pub votes_for_contribution : Manager → String → List Vote
unfolding found_votes
votes_for_contribution m c =
    found_votes m.votes (keys (ids_or_none (get m.votes_by_contribution c)))

unfoldable pub votes_by_voter : Manager → String → List Vote
unfolding found_votes
votes_by_voter m v = found_votes m.votes (keys (ids_or_none (get m.votes_by_voter v)))

pub record Counts : Type 0 where
  pub total : ℕ
  pub approve : ℕ
  pub reject : ℕ
  pub abstain : ℕ

unfoldable pub count_list : List Vote → Counts
count_list vs = record {
  total = length vs;
  approve = length (filter (λ (v : Vote). same_type v.vote VoteType.approve) vs);
  reject = length (filter (λ (v : Vote). same_type v.vote VoteType.reject) vs);
  abstain = length (filter (λ (v : Vote). same_type v.vote VoteType.abstain) vs);
}

unfoldable pub count_votes : Manager → String → Counts
unfolding count_list votes_for_contribution
count_votes m c = count_list (votes_for_contribution m c)

unfoldable pub some_by : String → List Vote → Bool
some_by voter [] = false
some_by voter (v ∷ vs) = v.voter == voter || some_by voter vs

unfoldable pub has_voted : Manager → String → String → Bool
unfolding votes_for_contribution some_by
has_voted m c voter = some_by voter (votes_for_contribution m c)

-- `now - vote.timestamp > 5 * 60 * 1000`
unfoldable pub validate_vote : Manager → ℕ → Vote → Bool
unfolding has_voted
validate_vote m now v =
    if ltb (v.timestamp + 300000) now
    then false
    else if has_voted m v.contribution_id v.voter
    then false
    else is_vote v.vote

module _ (create_vote_id : String → String → String) where
  -- `importFromJSON` on the votes that were parsed, each with what the clock says at its turn.
  unfoldable pub import_votes : Manager → List (ℕ × Vote) → Manager
  import_votes m [] = m
  import_votes m ((now, v) ∷ vs) =
      import_votes (if validate_vote m now v then store create_vote_id m v else m) vs

remove_found : Manager → String → Option Vote → Manager × Bool
remove_found m id none = (m, false)
remove_found m id (some v) = (
  record {
    votes = delete m.votes id;
    votes_by_contribution = untrack m.votes_by_contribution v.contribution_id id;
    votes_by_voter = untrack m.votes_by_voter v.voter id;
  },
  true,
)

unfoldable pub remove_vote : Manager → String → Manager × Bool
unfolding remove_found untrack
remove_vote m id = remove_found m id (get m.votes id)
