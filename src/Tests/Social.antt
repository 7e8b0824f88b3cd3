-- ===== src/Tests/Social.antt =====
-- Conflicts of two versions at concrete inputs (src/services/social).
use synpeer.Prelude.{
  String, ◌≡◌, ◌≢◌, ◌⊎◌, ◌↔◌, refl, ap, ◌∙◌, Bool, true, false, ◌||◌, ◌&&◌, none, some, List, [],
  ◌∷◌, arith, ltb, nat_beq, Bool-cases, inl, inr, sym, if◌then◌else◌, eq_iff,
}
use synpeer.Prelude.Int.{ℤ, pos, ◌+ℤ◌}
use Prim.Native.Nat.{compare, Ordering}
use Prim.Native.Char.{Char, code}
use Prim.Native.String as Text
use text.Mathlib.TextEquality.{codes_equal}
use mathlib.Core.Bool.{false≢true}
use synpeer.Social.Conflict.{
  Entity, Version, Property, resolve, get_revision, has_stable_identity, same_properties,
  is_valid_metadata, is_valid_timestamp,
}
use synpeer.Social.Conflict.Winner.{
  IsDecisive, IsSibling, IsAcceptable, is_overtaken, replicas_agree_iff,
}
use synpeer.Social.Conflict.Convergence.{Has, hash_of, receive_all, replicas_converge}

greater : String → String → Bool
greater Text.[] t = false
greater (Text.◌∷◌ c s) Text.[] = true
greater (Text.◌∷◌ c s) (Text.◌∷◌ d t) =
    let rest = greater s t in ltb (code d) (code c) || (nat_beq (code c) (code d) && rest)

same_code : (c d : Char) → nat_beq (code c) (code d) ≡ true → c ≡ d
same_code c d h = codes_equal c d (go (compare (code c) (code d)) refl)
  where
    go : (o : Ordering) → compare (code c) (code d) ≡ o → compare (code c) (code d) ≡ Ordering.eq
    go Ordering.eq e = e
    go Ordering.lt e = absurd (ground (arith, h, e))
    go Ordering.gt e = absurd (ground (arith, h, e))

greater-IsDecisive : IsDecisive greater
unfolding greater
greater-IsDecisive Text.[] Text.[] n = absurd (n refl)
greater-IsDecisive Text.[] (Text.◌∷◌ d t) n = refl
greater-IsDecisive (Text.◌∷◌ c s) Text.[] n = refl
greater-IsDecisive (Text.◌∷◌ c s) (Text.◌∷◌ d t) n = elim (Bool-cases (nat_beq (code c) (code d))) [
  | inl b ↦ ground (
    arith,
    b,
    greater-IsDecisive s t (λ e. n (ap (λ x. Text.◌∷◌ x s) (same_code c d b) ∙ ap (Text.◌∷◌ d) e)),
  )
  | inr b ↦ ground (arith, b)
]

greater_trans : (a b c : String) → greater a b ≡ true → greater b c ≡ true → greater a c ≡ true
unfolding greater
greater_trans Text.[] b c h k = cc
greater_trans (Text.◌∷◌ x a) Text.[] c h k = cc
greater_trans (Text.◌∷◌ x a) (Text.◌∷◌ y b) Text.[] h k = refl
greater_trans (Text.◌∷◌ x a) (Text.◌∷◌ y b) (Text.◌∷◌ z c) h k =
    ground (arith, h, k, greater_trans a b c)

abbrev live : Version
live = record {
  id = "follow_1";
  author = "a";
  created_at = pos 1;
  updated_at = pos 2;
  revision = some (pos 1);
  previous_revision_hash = none;
  deleted = false;
  property = λ name. Property.text name;
}

abbrev gone : Version
gone = record live { deleted = true; updated_at = pos 3 }

abbrev hash : Version → String
hash v = if v.deleted then "gone" else "live"

hashes_differ : hash live ≢ hash gone
hashes_differ e = false≢true ((eq_iff "live" "gone").1 e)

pair-IsSibling : (e : Entity) → IsSibling e live gone
unfolding has_stable_identity same_properties
pair-IsSibling Entity.post = (refl, refl)
pair-IsSibling Entity.profile = (refl, refl)
pair-IsSibling Entity.comment = (refl, refl)
pair-IsSibling Entity.reaction = (refl, refl)
pair-IsSibling Entity.follow = (refl, refl)
pair-IsSibling Entity.chat = (refl, refl)

live-IsAcceptable : IsAcceptable live (pos 50) (pos 10)
unfolding is_valid_timestamp is_valid_metadata ◌+ℤ◌
live-IsAcceptable = (refl, refl)

gone-IsAcceptable : IsAcceptable gone (pos 50) (pos 10)
unfolding is_valid_timestamp is_valid_metadata ◌+ℤ◌
gone-IsAcceptable = (refl, refl)

replicas_agree_iff_example :
    ((resolve greater Entity.post
        (some live)
        gone
        (some "live")
        "gone"
        (pos 50)
        (pos 10)).winner_state_hash
      ≡ (resolve greater Entity.post
          (some gone)
          live
          (some "gone")
          "live"
          (pos 50)
          (pos 10)).winner_state_hash)
    ↔ ((is_overtaken Entity.post live gone || is_overtaken Entity.post gone live) ≡ false)
replicas_agree_iff_example =
    replicas_agree_iff greater Entity.post live gone "live" "gone" (pos 50) (pos 50) (pos 10)
      (greater-IsDecisive "live" "gone" (λ e. false≢true ((eq_iff "live" "gone").1 e)))
      (pair-IsSibling Entity.post) live-IsAcceptable gone-IsAcceptable
      (λ e. false≢true ((eq_iff "live" "").1 e)) (λ e. false≢true ((eq_iff "gone" "").1 e))
      hashes_differ

-- A deletion of the first revision that meets a second revision.
edited : Version
edited = record live { revision = some (pos 2) }

overtaken_diverges : is_overtaken Entity.post gone edited ≡ true
unfolding edited get_revision
overtaken_diverges = refl

abbrev one_way : List (ℤ × Version)
one_way = (pos 50, live) ∷ (pos 50, gone) ∷ []

abbrev other_way : List (ℤ × Version)
other_way = (pos 50, gone) ∷ (pos 50, live) ∷ (pos 50, gone) ∷ []

abbrev Both : Version → Type 0
Both v = Has v (live ∷ gone ∷ [])

either : (v : Version) → Both v → (v ≡ live) ⊎ (v ≡ gone)
either v (inl a) = inl a
either v (inr (inl a)) = inr a
either v (inr (inr a)) = absurd a

Both-IsSibling : (v w : Version) → Both v → Both w → IsSibling Entity.follow v w
unfolding has_stable_identity same_properties
Both-IsSibling v w x y = go (either v x) (either w y)
  where
    go : (v ≡ live) ⊎ (v ≡ gone) → (w ≡ live) ⊎ (w ≡ gone) → IsSibling Entity.follow v w
    go (inl a) (inl b) = rw (a, b) (refl, refl)
    go (inl a) (inr b) = rw (a, b) (refl, refl)
    go (inr a) (inl b) = rw (a, b) (refl, refl)
    go (inr a) (inr b) = rw (a, b) (refl, refl)

Both-determined :
    (v w : Version)
    → Both v
    → Both w
    → hash v ≡ hash w
    → (get_revision v ≡ get_revision w) × (v.deleted ≡ w.deleted)
Both-determined v w x y h = go (either v x) (either w y)
  where
    go :
        (v ≡ live) ⊎ (v ≡ gone)
        → (w ≡ live) ⊎ (w ≡ gone)
        → (get_revision v ≡ get_revision w) × (v.deleted ≡ w.deleted)
    go (inl a) (inl b) = rw (a, b) (refl, refl)
    go (inl a) (inr b) = absurd (hashes_differ (rw (a, b) at h))
    go (inr a) (inl b) = absurd (hashes_differ (sym (rw (a, b) at h)))
    go (inr a) (inr b) = rw (a, b) (refl, refl)

Both-hashed : (v : Version) → Both v → hash v ≢ ""
Both-hashed v x e = go (either v x)
  where
    go : (v ≡ live) ⊎ (v ≡ gone) → ⊥
    go (inl a) = false≢true ((eq_iff "live" "").1 (rw a at e))
    go (inr a) = false≢true ((eq_iff "gone" "").1 (rw a at e))

there : (v : Version) → Has v (live ∷ gone ∷ []) → Has v (gone ∷ live ∷ gone ∷ [])
there v (inl a) = inr (inl a)
there v (inr (inl a)) = inl a
there v (inr (inr a)) = absurd a

back : (v : Version) → Has v (gone ∷ live ∷ gone ∷ []) → Has v (live ∷ gone ∷ [])
back v (inl a) = inr (inl a)
back v (inr x) = x

replicas_converge_example :
    hash_of hash (receive_all greater hash Entity.follow (pos 10) none one_way)
    ≡ hash_of hash (receive_all greater hash Entity.follow (pos 10) none other_way)
replicas_converge_example =
    replicas_converge greater hash Entity.follow (pos 10)
      (record { decisive = greater-IsDecisive; transitive = greater_trans }) refl one_way other_way
      (live-IsAcceptable, (gone-IsAcceptable, tt))
      (gone-IsAcceptable, (live-IsAcceptable, (gone-IsAcceptable, tt))) there back
      (record { siblings = Both-IsSibling; determined = Both-determined; hashed = Both-hashed })
