-- ===== src/Social/Conflict/Winner.antt =====
-- On two replicas that hold two versions of one entity, and hear of each other's.
use synpeer.Prelude.{
  String, ◌≡◌, ◌≢◌, ◌↔◌, refl, sym, ◌∙◌, some, Bool, true, false, not, ◌&&◌, ◌||◌, ◌==◌, eq_iff,
  arith, if◌then◌else◌,
}
use synpeer.Prelude.Int.{ℤ, ltb_ℤ}
use synpeer.Social.Conflict.{
  Entity, Version, get_revision, Property, undefined, null, text, same, or_null, equal_optional,
  same_properties, has_stable_identity, has_final_tombstone, is_valid_metadata, is_valid_timestamp,
  kept, duplicate, applied, resolve_higher, resolve_equal, resolve_versions, resolve_existing,
  resolve,
}

same_comm : (p q : Property) → same p q ≡ same q p
same_comm undefined undefined = refl
same_comm undefined null = refl
same_comm undefined (text b) = refl
same_comm null undefined = refl
same_comm null null = refl
same_comm null (text b) = refl
same_comm (text a) undefined = refl
same_comm (text a) null = refl
same_comm (text a) (text b) = ground (arith, eq_iff a b, eq_iff b a)

equal_optional_comm : (p q : Property) → equal_optional p q ≡ equal_optional q p
equal_optional_comm p q = same_comm (or_null p) (or_null q)

both_comm : (a b c d : Bool) → a ≡ b → c ≡ d → (a && c) ≡ (b && d)
both_comm a b c d h k = rw (h, k) refl

same_properties_comm :
    (e : Entity) (p q : String → Property) → same_properties e p q ≡ same_properties e q p
unfolding same_properties
same_properties_comm Entity.post p q = equal_optional_comm (p "replyTo") (q "replyTo")
same_properties_comm Entity.profile p q = refl
same_properties_comm Entity.comment p q =
    both_comm _ _ _ _ (same_comm (p "postId") (q "postId"))
      (equal_optional_comm (p "parentCommentId") (q "parentCommentId"))
same_properties_comm Entity.reaction p q =
    both_comm _ _ _ _
      (both_comm _ _ _ _ (same_comm (p "postId") (q "postId"))
        (equal_optional_comm (p "commentId") (q "commentId")))
      (same_comm (p "reactionType") (q "reactionType"))
same_properties_comm Entity.follow p q =
    both_comm _ _ _ _ (same_comm (p "followerId") (q "followerId"))
      (same_comm (p "followingId") (q "followingId"))
same_properties_comm Entity.chat p q =
    both_comm _ _ _ _
      (both_comm _ _ _ _ (same_comm (p "senderId") (q "senderId"))
        (same_comm (p "recipientId") (q "recipientId")))
      (same_comm (p "conversationId") (q "conversationId"))

pub has_stable_identity_comm :
    (e : Entity) (v w : Version) → has_stable_identity e v w ≡ has_stable_identity e w v
unfolding has_stable_identity
has_stable_identity_comm e v w =
    rw (same_properties_comm e v.property w.property)
      (ground (arith, eq_iff v.id w.id, eq_iff w.id v.id))

-- The incoming version passes the checks that do not look at the stored one.
abbrev pub IsAcceptable : Version → ℤ → ℤ → Type 0
IsAcceptable v now skew =
    (is_valid_timestamp v now skew ≡ true)
    × (is_valid_metadata v.revision v.previous_revision_hash ≡ true)

-- Two versions of one entity by one author.
abbrev pub IsSibling : Entity → Version → Version → Type 0
IsSibling e v w = (v.author ≡ w.author) × (has_stable_identity e v w ≡ true)

pub IsSibling-sym : (e : Entity) (v w : Version) → IsSibling e v w → IsSibling e w v
IsSibling-sym e v w (a, s) = (sym a, sym (has_stable_identity_comm e v w) ∙ s)

-- A comparison under which of two different hashes exactly one is greater.
abbrev pub IsDecisive : (String → String → Bool) → Type 0
IsDecisive g = (a b : String) → a ≢ b → g a b ≡ not (g b a)

-- One of the two is deleted, of an entity whose deletion is final, and has the lower revision.
abbrev pub is_overtaken : Entity → Version → Version → Bool
is_overtaken e v w =
    has_final_tombstone e && v.deleted && not w.deleted && ltb_ℤ (get_revision v) (get_revision w)

differ : (a b : String) → a ≢ b → (a == b) ≡ false
differ a b n = ground (arith, eq_iff a b, n)

module _ (g : String → String → Bool) where
  pub resolve-siblings :
      (e : Entity) (v w : Version) (hv hw : String) (now skew : ℤ)
      → IsAcceptable w now skew
      → IsSibling e v w
      → hv ≢ ""
      → resolve g e (some v) w (some hv) hw now skew
        ≡ (if hv == hw then kept duplicate hv false else resolve_versions g e v w hv hw)
  unfolding resolve resolve_existing
  resolve-siblings e v w hv hw now skew a s n =
      rw (a.0, a.1) (ground (arith, eq_iff hv "", eq_iff v.author w.author, s, n))

  pub winner_of_two :
      (e : Entity) (v w : Version) (hv hw : String)
      → g hv hw ≡ not (g hw hv)
      → hv ≢ hw
      → ((resolve_versions g e v w hv hw).winner_state_hash
          ≡ (resolve_versions g e w v hw hv).winner_state_hash)
        ↔ ((is_overtaken e v w || is_overtaken e w v) ≡ false)
  unfolding resolve_versions resolve_higher resolve_equal kept applied
  winner_of_two e v w hv hw d n = ground (arith, d, n)

  -- Two replicas that hold two valid versions of one entity by one author with different hashes,
  -- of which localeCompare puts exactly one after the other, and hear of each other's, choose the
  -- same winner exactly unless the deletion is final for the entity and one version is a deletion
  -- of a lower revision than the other, which is none.
  pub replicas_agree_iff :
      (e : Entity) (v w : Version) (hv hw : String) (now later skew : ℤ)
      → g hv hw ≡ not (g hw hv)
      → IsSibling e v w
      → IsAcceptable v later skew
      → IsAcceptable w now skew
      → hv ≢ ""
      → hw ≢ ""
      → hv ≢ hw
      → ((resolve g e (some v) w (some hv) hw now skew).winner_state_hash
          ≡ (resolve g e (some w) v (some hw) hv later skew).winner_state_hash)
        ↔ ((is_overtaken e v w || is_overtaken e w v) ≡ false)
  replicas_agree_iff e v w hv hw now later skew d s av aw nv nw n =
      rw
        (
          resolve-siblings e v w hv hw now skew aw s nv,
          resolve-siblings e w v hw hv later skew av (IsSibling-sym e v w s) nw,
          differ hv hw n,
          differ hw hv (λ x. n (sym x)),
        )
        (winner_of_two e v w hv hw d n)
