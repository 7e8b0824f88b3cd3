-- ===== src/Consensus/Votes/Tally.antt =====
-- What the counts of a contribution stand for.
use synpeer.Prelude.{
  String, ◌≡◌, ◌≤◌, ◌+◌, refl, Bool, true, false, some, List, [], ◌∷◌, ◌==◌, eq_iff, eq_refl, arith,
  if◌then◌else◌, filter, length, inl, inr, Option-cases, All, Bool-cases, subst,
}
use synpeer.Dict.{Dict, get, has, keys}
use synpeer.Dict.Entries.{IsDistinct}
use synpeer.Consensus.Votes.{
  Vote, Manager, VoteType, is_vote, same_type, ids_or_none, found_votes, votes_for_contribution,
  count_list, count_votes,
}
use synpeer.Consensus.Votes.Index.{IsIndexed, IsInjective, names}

IsBallot : Vote → Type 0
IsBallot v = is_vote v.vote ≡ true

found_votes-IsBallot :
    (d : Dict Vote) (ids : List String)
    → ((i : String) (v : Vote) → get d i ≡ some v → is_vote v.vote ≡ true)
    → All IsBallot (found_votes d ids)
unfolding found_votes IsBallot
found_votes-IsBallot d [] h = tt
found_votes-IsBallot d (i ∷ ids) h = elim (Option-cases (get d i)) [
  | inl g ↦ rw (All, g) (found_votes-IsBallot d ids h)
  | inr (v, g) ↦ rw (All, g) (h i v g, found_votes-IsBallot d ids h)
]

ballot_counted :
    (v : Vote)
    → IsBallot v
    → (if same_type v.vote VoteType.approve then 1 else 0)
        + (if same_type v.vote VoteType.reject then 1 else 0)
        + (if same_type v.vote VoteType.abstain then 1 else 0)
      ≡ 1
unfolding IsBallot
ballot_counted v h = go v.vote h
  where
    go :
        (t : VoteType)
        → is_vote t ≡ true
        → (if same_type t VoteType.approve then 1 else 0)
            + (if same_type t VoteType.reject then 1 else 0)
            + (if same_type t VoteType.abstain then 1 else 0)
          ≡ 1
    go VoteType.approve h = refl
    go VoteType.reject h = refl
    go VoteType.abstain h = refl
    go VoteType.other h = cc

count_list-total :
    (vs : List Vote)
    → All IsBallot vs
    → (count_list vs).total
      ≡ (count_list vs).approve + (count_list vs).reject + (count_list vs).abstain
unfolding count_list
count_list-total [] h = refl
count_list-total (v ∷ vs) h = ground (arith, ballot_counted v h.0, count_list-total vs h.1)

-- In an indexed manager the total of countVotes is the sum of its approvals, rejections and
-- abstentions.
pub count_votes-total :
    (f : String → String → String) (m : Manager) (c : String)
    → IsIndexed f m
    → (count_votes m c).total
      ≡ (count_votes m c).approve + (count_votes m c).reject + (count_votes m c).abstain
unfolding count_votes votes_for_contribution
count_votes-total f m c x =
    count_list-total (votes_for_contribution m c) (found_votes-IsBallot m.votes _ x.typed)

abbrev pub is_by : String → Vote → Bool
is_by voter v = v.voter == voter

module _ (d : Dict Vote) (voter id : String) where
  none_by :
      (ids : Dict (Unit {0}))
      → ((i : String) (e : Vote) → has ids i ≡ true → get d i ≡ some e → e.voter ≡ voter → i ≡ id)
      → has ids id ≡ false
      → length (filter (is_by voter) (found_votes d (keys ids))) ≡ 0
  unfolding has found_votes keys
  none_by [] h n = refl
  none_by ((j, u) ∷ ids) h n =
      let rest = none_by ids (λ i e x g v. h i e (ground (arith, x)) g v) (ground (arith, n)) in
      elim (Option-cases (get d j)) [
        | inl g ↦ ground (arith, g, rest)
        | inr (e, g) ↦ ground (
          arith,
          g,
          rest,
          n,
          eq_iff e.voter voter,
          h j e (ground (arith, eq_refl j)) g,
          eq_refl id,
        )
      ]

  once_by :
      (ids : Dict (Unit {0}))
      → ((i : String) (e : Vote) → has ids i ≡ true → get d i ≡ some e → e.voter ≡ voter → i ≡ id)
      → IsDistinct ids
      → length (filter (is_by voter) (found_votes d (keys ids))) ≤ 1
  unfolding has found_votes keys
  once_by [] h n = omega arith
  once_by ((j, u) ∷ ids) h n = elim (Option-cases (get d j)) [
    | inl g ↦ ground (arith, g, once_by ids later n.1)
    | inr (e, g) ↦ elim (Bool-cases (e.voter == voter)) [
      | inl b ↦
          let here = h j e (ground (arith, eq_refl j)) g ((eq_iff e.voter voter).0 b) in
          let rest = none_by ids later (subst (λ k. has ids k ≡ false) here n.0) in
          ground (arith, g, b, rest)
      | inr b ↦ ground (arith, g, b, once_by ids later n.1)
    ]
  ]
    where
      later :
          (i : String) (e : Vote) → has ids i ≡ true → get d i ≡ some e → e.voter ≡ voter → i ≡ id
      later i e x g v = h i e (ground (arith, x)) g v

-- In an indexed manager, where vote ids do not collide, the votes of a contribution hold at most
-- one vote of each voter.
pub voter_counted_once :
    (f : String → String → String)
    → IsInjective f
    → (m : Manager) → IsIndexed f m
    → (c voter : String) → length (filter (is_by voter) (votes_for_contribution m c)) ≤ 1
unfolding votes_for_contribution
voter_counted_once f inj m x c voter =
    once_by m.votes voter (f c voter) (ids_or_none (get m.votes_by_contribution c)) owner
      (x.distinct c)
  where
    owner :
        (i : String) (e : Vote)
        → names m.votes_by_contribution c i ≡ true
        → get m.votes i ≡ some e
        → e.voter ≡ voter
        → i ≡ f c voter
    owner i e h g v =
        ground (arith, g, v, x.contributions c i, h, eq_iff e.contribution_id c, x.keyed i e g)
