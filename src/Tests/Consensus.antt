-- ===== src/Tests/Consensus.antt =====
-- Votes and quorums at concrete inputs (src/consensus).
use synpeer.Prelude.{ℕ, String, ◌≡◌, refl, ap, ◌∙◌, true, none, some, List, [], ◌∷◌, arith}
use Prim.Native.Char.{char, code}
use Prim.Native.String as Text
use synpeer.Dict.{get, put, keys}
use synpeer.Consensus.Votes.{
  Vote, VoteType, Manager, empty, track, store, cast_over, try_cast_vote, count_votes, count_list,
  votes_for_contribution, found_votes,
}
use synpeer.Consensus.Votes.Index.{IsInjective, IsIndexed, empty-IsIndexed}
use synpeer.Consensus.Votes.Casting.{Cast, cast, cast_all, cast_all-IsIndexed, cast_all_kept}
use synpeer.Consensus.Quorum.{
  Requirements, calculate_quorum, share, at_least, more_than, estimate_time,
}

-- The contribution and the voter, told apart.
pub vote_id : String → String → String
vote_id Text.[] v = Text.◌∷◌ (char 46 tt) v
vote_id (Text.◌∷◌ c s) v = Text.◌∷◌ (char 58 tt) (Text.◌∷◌ c (vote_id s v))

first : String → ℕ
first Text.[] = 0
first (Text.◌∷◌ c s) = code c

tail : String → String
tail Text.[] = ""
tail (Text.◌∷◌ c s) = s

-- The first character of one text, before another.
graft : String → String → String
graft Text.[] t = t
graft (Text.◌∷◌ c s) t = Text.◌∷◌ c t

pub vote_id-IsInjective : IsInjective vote_id
unfolding vote_id first tail graft
vote_id-IsInjective Text.[] v Text.[] w h = (refl, ap tail h)
vote_id-IsInjective Text.[] v (Text.◌∷◌ d t) w h = absurd (omega (arith, ap first h))
vote_id-IsInjective (Text.◌∷◌ c s) v Text.[] w h = absurd (omega (arith, ap first h))
vote_id-IsInjective (Text.◌∷◌ c s) v (Text.◌∷◌ d t) w h =
    let again = vote_id-IsInjective s v t w (ap (λ x. tail (tail x)) h) in
    (ap (λ x. graft (tail x) s) h ∙ ap (graft (Text.◌∷◌ d t)) again.0, again.1)

-- A manager that has heard three voters on a contribution.
ballot : ℕ → String → VoteType → Cast
ballot now p t = record {
  at = now;
  contribution = "c1";
  voter = p;
  vote = t;
  reason = none;
  signature = none;
}

abbrev ballots : List Cast
ballots =
    ballot 1 "a" VoteType.approve
    ∷ ballot 2 "b" VoteType.reject
    ∷ ballot 3 "a" VoteType.reject
    ∷ ballot 4 "d" VoteType.approve
    ∷ []

first_ballot : Vote
first_ballot = record {
  contribution_id = "c1";
  voter = "a";
  vote = VoteType.approve;
  reason = none;
  timestamp = 1;
  signature = "";
}

heard : Manager
unfolding ballot
heard = cast_all vote_id empty ballots

heard-IsIndexed : IsIndexed vote_id heard
unfolding heard
heard-IsIndexed =
    cast_all-IsIndexed vote_id vote_id-IsInjective empty ballots (empty-IsIndexed vote_id)

first_stored : get heard.votes (vote_id "c1" "a") ≡ some first_ballot
unfolding heard cast_all cast try_cast_vote cast_over store get put vote_id empty ballot
    first_ballot
first_stored = refl

cast_all_kept_example :
    get (cast_all vote_id heard ballots).votes (vote_id "c1" "a") ≡ some first_ballot
cast_all_kept_example =
    cast_all_kept vote_id heard ballots (vote_id "c1" "a") first_ballot first_stored

counted_three : (count_votes heard "c1").total ≡ 3
unfolding heard cast_all cast try_cast_vote cast_over store track get put vote_id empty ballot
    count_votes count_list votes_for_contribution found_votes keys
counted_three = refl

abbrev usual : Requirements
usual = record {
  min_peers = 3;
  required_agreement = record { num = 66; den = 100 };
  min_trust_score = 50;
  timeout = 1000;
}

reached_two_thirds : (calculate_quorum usual 0 2 1 0).reached ≡ true
unfolding calculate_quorum share at_least more_than
reached_two_thirds = refl

-- As many votes as are required are enough, at any rate.
estimate_time_reached : estimate_time 3 3 0 ≡ some (record { num = 0; den = 1 })
unfolding estimate_time
estimate_time_reached = refl
