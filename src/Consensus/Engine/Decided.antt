-- ===== src/Consensus/Engine/Decided.antt =====
-- A decided round of an engine, and the round that a message is about.
use synpeer.Prelude.{
  String, Bool, true, false, not, Option, some, [], ◌∷◌, ◌≡◌, refl, sym, ◌∙◌, ◌==◌, if◌then◌else◌,
  Bool-cases, Option-cases, inl, inr, eq_iff, All, subst,
}
use mathlib.Core.Option.{some-injective}
use synpeer.Dict.{Dict, get}
use synpeer.Dict.Laws.{get-put}
use synpeer.Dict.Entries.{IsDistinct, found_each}
use synpeer.Consensus.Round.{Round, RoundResult, State, reached}
use synpeer.Consensus.Round.Decision.{is_report, IsDecided}
use synpeer.Consensus.Engine.{
  Engine, state_of, put_back, find_round, found_or, round_by_contribution,
}
use synpeer.Consensus.Engine.Events.{
  Event, do_round, do_verified, do_result, do_call, do_select, do_remove, do_clear, do_reset,
  restart, do_restore, do_import,
}

-- A round that stands in the engine and is decided.
pub record IsDecidedAt (result : Option RoundResult) (id : String) (e : Engine) : Type 0 where
  pub round : Round
  pub found : get e.rounds id ≡ some round
  pub decided : (round.quorum_reached ≡ true) × ((round.status ≡ reached) × (round.result ≡ result))

-- An event that neither removes the round, nor starts, expires, fails or cancels it again.
abbrev pub is_harmless : String → Event → Bool
is_harmless id (do_round id_of now contribution round_id at) = true
is_harmless id (do_verified now round_id contribution voter vote reason signature) = true
is_harmless id (do_result round_id contribution result approval decided) = true
is_harmless id (do_call k c) = if k == id then is_report c else true
is_harmless id (do_select now k excluded) = true
is_harmless id (do_remove k) = not (k == id)
is_harmless id do_clear = false
is_harmless id do_reset = false
is_harmless id restart = true
is_harmless id (do_restore s) = false
is_harmless id (do_import now votes entries) = true

pub put_back-IsDecidedAt :
    (result : Option RoundResult) (id : String) (e : Engine) (k : String) (s : State)
    → (k ≡ id → IsDecided reached result s)
    → IsDecidedAt result id e
    → IsDecidedAt result id (put_back e k s)
unfolding put_back
put_back-IsDecidedAt result id e k s h d = elim (Bool-cases (k == id)) [
  | inl b ↦ record {
    round = s.round;
    found = get-put e.rounds k s.round id ∙ rw b refl;
    decided = h ((eq_iff k id).0 b);
  }
  | inr b ↦ record {
    round = d.round;
    found = get-put e.rounds k s.round id ∙ (rw b refl ∙ d.found);
    decided = d.decided;
  }
]

pub state-IsDecided :
    (result : Option RoundResult) (id : String) (e : Engine) (r : Round)
    → get e.rounds id ≡ some r
    → IsDecidedAt result id e
    → IsDecided reached result (state_of e r)
state-IsDecided result id e r g d =
    let same : d.round ≡ r = some-injective _ _ (sym d.found ∙ g) in
    subst (λ (x : Round). (x.quorum_reached ≡ true) × ((x.status ≡ reached) × (x.result ≡ result)))
      same d.decided

found_by_contribution :
    (f d : Dict Round) (contribution k : String) (r : Round)
    → All (λ x. get f x.0 ≡ some x.1) d
    → round_by_contribution d contribution ≡ some (k, r)
    → get f k ≡ some r
unfolding round_by_contribution
found_by_contribution f [] contribution k r h e = cc
found_by_contribution f ((i, q) ∷ d) contribution k r h e =
    elim (Bool-cases (q.contribution_id == contribution)) [
      | inl b ↦
          let same : (i, q) ≡ (k, r) = some-injective _ _ (rw b at e) in
          subst (λ (x : String × Round). get f x.0 ≡ some x.1) same h.0
      | inr b ↦ found_by_contribution f d contribution k r h.1 (rw b at e)
    ]

pub find_round-found :
    (e : Engine) (id contribution k : String) (r : Round)
    → IsDistinct e.rounds
    → find_round e id contribution ≡ some (k, r)
    → get e.rounds k ≡ some r
unfolding find_round found_or
find_round-found e id contribution k r h g = elim (Option-cases (get e.rounds id)) [
  | inl n ↦
      found_by_contribution e.rounds e.rounds contribution k r (found_each e.rounds h) (rw n at g)
  | inr (q, n) ↦
      let same : (id, q) ≡ (k, r) = some-injective _ _ (rw n at g) in
      subst (λ (x : String × Round). get e.rounds x.0 ≡ some x.1) same n
]
