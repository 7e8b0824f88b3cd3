-- ===== src/Consensus/Votes/Removal.antt =====
-- The bulk removals and the remaining queries of src/consensus/VoteManager.ts.
use synpeer.Prelude.{
  ℕ, ◌+◌, String, ◌≡◌, refl, none, some, List, [], ◌∷◌, ◌==◌, eq_iff, arith, if◌then◌else◌, filter,
  Option-cases, inl, inr,
}
use synpeer.Dict.{Dict, get, has, delete, size}
use synpeer.Dict.Laws.{get-delete}
use synpeer.Consensus.Votes.{
  Vote, VoteType, Manager, same_type, ids_or_none, empty, remove_vote, remove_found,
  votes_for_contribution,
}
use synpeer.Consensus.Votes.Index.{IsIndexed, in_contribution}

-- The loop over a set of vote ids, and how many of them were stored.
unfoldable pub remove_each : Manager → Dict (Unit {0}) → Manager × ℕ
remove_each m [] = (m, 0)
remove_each m ((id, u) ∷ ids) =
    let r = remove_vote m id in
    let rest = remove_each r.0 ids in (rest.0, (if r.1 then 1 else 0) + rest.1)

unfoldable pub remove_votes_for_contribution : Manager → String → Manager × ℕ
unfolding remove_each
remove_votes_for_contribution m c = elim (get m.votes_by_contribution c) [
  | none ↦ (m, 0)
  | some ids ↦ (
    record (remove_each m ids).0 {
      votes_by_contribution = delete (remove_each m ids).0.votes_by_contribution c;
    },
    (remove_each m ids).1,
  )
]

unfoldable pub remove_votes_by_voter : Manager → String → Manager × ℕ
unfolding remove_each
remove_votes_by_voter m voter = elim (get m.votes_by_voter voter) [
  | none ↦ (m, 0)
  | some ids ↦ (
    record (remove_each m ids).0 {
      votes_by_voter = delete (remove_each m ids).0.votes_by_voter voter;
    },
    (remove_each m ids).1,
  )
]

unfoldable pub clear_all : Manager → Manager
unfolding empty
clear_all m = empty

unfoldable pub votes_by_type : Manager → String → VoteType → List Vote
unfolding votes_for_contribution
votes_by_type m c t = filter (λ (v : Vote). same_type v.vote t) (votes_for_contribution m c)

unfoldable pub contribution_vote_count : Manager → String → ℕ
unfolding size
contribution_vote_count m c = size (ids_or_none (get m.votes_by_contribution c))

unfoldable pub voter_vote_count : Manager → String → ℕ
unfolding size
voter_vote_count m voter = size (ids_or_none (get m.votes_by_voter voter))

get-remove_vote :
    (m : Manager) (id i : String)
    → get (remove_vote m id).0.votes i ≡ (if id == i then none else get m.votes i)
unfolding remove_vote remove_found
get-remove_vote m id i = elim (Option-cases (get m.votes id)) [
  | inl e ↦ ground (arith, e, eq_iff id i)
  | inr (v, e) ↦ ground (arith, e, get-delete m.votes id i)
]

get-remove_each :
    (m : Manager) (ids : Dict (Unit {0})) (i : String)
    → get (remove_each m ids).0.votes i ≡ (if has ids i then none else get m.votes i)
unfolding remove_each has
get-remove_each m [] i = refl
get-remove_each m ((id, u) ∷ ids) i =
    ground (arith, get-remove_each (remove_vote m id).0 ids i, get-remove_vote m id i)

-- On an indexed manager removeVotesForContribution removes the votes of the contribution, and
-- leaves every other vote as it is.
pub get-remove_votes_for_contribution :
    (f : String → String → String) (m : Manager) (c i : String)
    → IsIndexed f m
    → get (remove_votes_for_contribution m c).0.votes i
      ≡ (if in_contribution c (get m.votes i) then none else get m.votes i)
unfolding remove_votes_for_contribution has
get-remove_votes_for_contribution f m c i x = elim (Option-cases (get m.votes_by_contribution c)) [
  | inl e ↦ ground (arith, e, x.contributions c i)
  | inr (ids, e) ↦ ground (arith, e, x.contributions c i, get-remove_each m ids i)
]
