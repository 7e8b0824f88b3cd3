-- ===== src/Consensus/Witnesses.antt =====
-- src/consensus/WitnessManager.ts. A map of the selected sets keeps their elements in order. The texts
-- of numbers and `localeCompare` are parameters; trust scores are natural numbers.
pub mod Keyed
pub mod Selection
pub mod Choice
pub mod Best
use Prim.Native.String as Text
use synpeer.Prelude.{
  ℕ, zero, suc, ◌+◌, ◌-◌, String, Option, none, some, List, [], ◌∷◌, ◌++◌, Bool, true, false, ◌==◌,
  leb, ltb, not, filter, length, map, if◌then◌else◌,
}
use synpeer.Prelude.Sort.{sort}
use synpeer.Prelude.Hash.{hash_from, magnitude}
use synpeer.Dict.{Dict, get, has, put, delete, keys, values, size}

pub record Witness : Type 0 where
  pub peer_id : String
  pub trust_score : ℕ
  pub last_seen : ℕ
  pub geographic_region : Option String
  pub selected_count : ℕ

pub record Criteria : Type 0 where
  pub min_trust_score : ℕ
  pub min_count : ℕ
  pub max_count : ℕ
  pub require_geographic_diversity : Bool
  pub require_random_selection : Bool

pub record Witnesses : Type 0 where
  pub known : Dict Witness
  pub selected : Dict (Dict (Unit {0}))
  pub criteria : Criteria
  pub counter : ℕ

unfoldable pub make : Criteria → Witnesses
make c = record { known = []; selected = []; criteria = c; counter = 0 }

unfoldable pub register_witness : Witnesses → ℕ → String → ℕ → Option String → Witnesses
register_witness m now peer trust region = record m {
  known = put m.known peer (record {
    peer_id = peer;
    trust_score = trust;
    last_seen = now;
    geographic_region = region;
    selected_count = 0;
  });
}

with_trust : Witnesses → ℕ → String → ℕ → Option Witness → Witnesses × Bool
with_trust m now peer trust none = (m, false)
with_trust m now peer trust (some w) = (
  record m { known = put m.known peer (record w { trust_score = trust; last_seen = now }) },
  true,
)

unfoldable pub update_witness_trust_score : Witnesses → ℕ → String → ℕ → Witnesses × Bool
unfolding with_trust
update_witness_trust_score m now peer trust = with_trust m now peer trust (get m.known peer)

-- `Array.prototype.includes`
abbrev pub includes : List String → String → Bool
includes [] p = false
includes (x ∷ xs) p = if x == p then true else includes xs p

-- `now` is the reading of the clock for each witness: 24 hours in milliseconds.
unfoldable pub is_eligible : Criteria → List String → (String → ℕ) → Witness → Bool
is_eligible c excluded now w =
    if ltb w.trust_score c.min_trust_score
    then false
    else if includes excluded w.peer_id
    then false
    else not (ltb 86400000 (now w.peer_id - w.last_seen))

unfoldable pub get_eligible_witnesses : Witnesses → List String → (String → ℕ) → List Witness
unfolding values
get_eligible_witnesses m excluded now =
    filter (is_eligible m.criteria excluded now) (values m.known)

abbrev pub peer_ids : List Witness → List String
peer_ids ws = map (λ (w : Witness). w.peer_id) ws

-- A set, made of a list: `add` keeps the first place of an element.
unfoldable pub add_each : Dict (Unit {0}) → List String → Dict (Unit {0})
add_each d [] = d
add_each d (p ∷ ps) = add_each (put d p tt) ps

-- The region as a condition reads it: an empty text counts as none.
unfoldable pub region_of : Option Witness → Option String
region_of none = none
region_of (some w) = elim w.geographic_region [
  | none ↦ none
  | some r ↦ if r == "" then none else some r
]

abbrev with_region : Dict (Unit {0}) → Option String → Dict (Unit {0})
with_region regions none = regions
with_region regions (some r) = put regions r tt

unfoldable pub regions_of : Dict Witness → Dict (Unit {0}) → List String → Dict (Unit {0})
unfolding region_of
regions_of known regions [] = regions
regions_of known regions (p ∷ ps) =
    regions_of known (with_region regions (region_of (get known p))) ps

abbrev is_new_region : Dict (Unit {0}) → Option String → Bool
is_new_region regions none = false
is_new_region regions (some r) = not (has regions r)

-- The loop over the eligible witnesses, left by `break` once there are three regions.
unfoldable pub additional_witnesses : Dict (Unit {0}) → Dict (Unit {0}) → List Witness → List String
unfolding region_of size
additional_witnesses regions chosen [] = []
additional_witnesses regions chosen (w ∷ ws) =
    let next = with_region regions (region_of (some w)) in
    let skipped = additional_witnesses regions chosen ws in
    let rest = additional_witnesses next (put chosen w.peer_id tt) ws in
    if has chosen w.peer_id
    then skipped
    else if is_new_region regions (region_of (some w))
    then w.peer_id ∷ (if leb 3 (size next) then [] else rest)
    else skipped

unfoldable pub ensure_geographic_diversity : Dict Witness → List String → List Witness → List String
unfolding regions_of additional_witnesses size add_each
ensure_geographic_diversity known chosen eligible =
    let regions = regions_of known [] chosen in
    if leb 3 (size regions)
    then chosen
    else chosen ++ additional_witnesses regions (add_each [] chosen) eligible

-- `slice(0, n)`
abbrev pub take {ℓ} : {A : Type ℓ} → ℕ → List A → List A
take zero xs = []
take (suc n) [] = []
take (suc n) (x ∷ xs) = x ∷ take n xs

unfoldable pub count_selected : Dict Witness → List String → Dict Witness
count_selected known [] = known
count_selected known (p ∷ ps) = elim (get known p) [
  | none ↦ count_selected known ps
  | some w ↦ count_selected (put known p (record w { selected_count = w.selected_count + 1 })) ps
]

-- The texts that the platform makes, and `a.localeCompare(b) <= 0`.
pub record Texts : Type 0 where
  pub decimal : ℕ → String
  pub hex : ℕ → String
  pub at_most : String → String → Bool

module _ (t : Texts) where
  unfoldable pub hash_peer_id : String → ℕ → String
  unfolding hash_from magnitude
  hash_peer_id peer counter =
      t.hex (magnitude (hash_from 0 (Text.◌++◌ peer (Text.◌++◌ "_" (t.decimal counter)))))

  -- By the hash of the peer, or by trust, the highest first.
  unfoldable pub precedes : Criteria → ℕ → Witness → Witness → Bool
  unfolding hash_peer_id
  precedes c counter v w =
      if c.require_random_selection
      then t.at_most (hash_peer_id v.peer_id counter) (hash_peer_id w.peer_id counter)
      else leb w.trust_score v.trust_score

  unfoldable pub order_witnesses : Criteria → ℕ → List Witness → List String
  unfolding precedes
  order_witnesses c counter ws = peer_ids (sort (precedes c counter) ws)

  unfoldable pub next_counter : Criteria → ℕ → ℕ
  next_counter c n = if c.require_random_selection then n + 1 else n

  unfoldable pub choose : Witnesses → List Witness → List String
  unfolding order_witnesses ensure_geographic_diversity next_counter
  choose m eligible =
      let ordered = order_witnesses m.criteria (next_counter m.criteria m.counter) eligible in
      take m.criteria.max_count (
        if m.criteria.require_geographic_diversity
        then ensure_geographic_diversity m.known ordered eligible
        else ordered)

  unfoldable pub select_witnesses :
      Witnesses → (String → ℕ) → String → List String → Witnesses × List String
  unfolding get_eligible_witnesses choose next_counter count_selected add_each
  select_witnesses m now contribution excluded =
      let eligible = get_eligible_witnesses m excluded now in
      let chosen = choose m eligible in
      if ltb (length eligible) m.criteria.min_count then (m, []) else (
        record m {
          known = count_selected m.known chosen;
          selected = put m.selected contribution (add_each [] chosen);
          counter = next_counter m.criteria m.counter;
        },
        chosen,
      )

unfoldable pub get_selected_witnesses : Witnesses → String → List String
unfolding keys
get_selected_witnesses m contribution = elim (get m.selected contribution) [
  | none ↦ []
  | some chosen ↦ keys chosen
]

pub record Signature : Type 0 where
  pub algorithm : String
  pub public_key : String
  pub timestamp : ℕ

unfoldable pub verify_witness_signature : Witnesses → ℕ → String → Signature → Bool
verify_witness_signature m now peer s =
    if not (has m.known peer)
    then false
    else if not (s.algorithm == "ed25519")
    then false
    else if ltb 300000 (now - s.timestamp)
    then false
    else s.public_key == peer

unfoldable pub remove_witness : Witnesses → String → Witnesses × Bool
remove_witness m peer = (record m { known = delete m.known peer }, has m.known peer)

unfoldable pub clear_all : Witnesses → Witnesses
clear_all m = record m { known = []; selected = [] }

unfoldable pub update_criteria : Witnesses → Criteria → Witnesses
update_criteria m c = record m { criteria = c }

unfoldable pub put_witnesses : Dict Witness → List Witness → Dict Witness
put_witnesses known [] = known
put_witnesses known (w ∷ ws) = put_witnesses (put known w.peer_id w) ws

unfoldable pub import_witnesses : Witnesses → List Witness → Witnesses
unfolding put_witnesses
import_witnesses m ws = record m { known = put_witnesses m.known ws }
