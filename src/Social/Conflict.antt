-- ===== src/Social/Conflict.antt =====
-- src/services/social/SocialConflictResolver.ts, with the revision metadata of SocialCanonical.ts. The
-- properties of an entity that `Reflect.get` reads are a function of their names. Times and revisions
-- are integers; `localeCompare` is a parameter, as the test that its result is positive.
pub mod Winner
pub mod Convergence
use Prim.Native.Char.{Char, code}
use Prim.Native.String as Text
use synpeer.Prelude.{
  ℕ, zero, suc, String, Option, none, some, Bool, true, false, not, ◌&&◌, ◌||◌, ◌==◌, leb,
  if◌then◌else◌,
}
use synpeer.Prelude.Int.{ℤ, pos, ◌+ℤ◌, ◌-ℤ◌, ltb_ℤ}

pub data Entity : Type 0 where
  post profile comment reaction follow chat : Entity

pub data Action : Type 0 where
  apply keep reject : Action

pub data Reason : Type 0 where
  no_local_record duplicate author_mismatch identity_mismatch invalid_revision
        timestamp_out_of_range higher_revision revision_gap previous_revision_mismatch
        lower_revision final_tombstone tombstone_wins canonical_hash_wins canonical_hash_loses :
      Reason

-- A property as it is read: absent, null or a text.
pub data Property : Type 0 where
  undefined null : Property
  text : String → Property

pub record Version : Type 0 where
  pub id : String
  pub author : String
  pub created_at : ℤ
  pub updated_at : ℤ
  pub revision : Option ℤ
  pub previous_revision_hash : Option String
  pub deleted : Bool
  pub property : String → Property

pub record Resolution : Type 0 where
  pub action : Action
  pub reason : Reason
  pub winner_state_hash : String
  pub conflict : Bool

abbrev pub beq_ℤ : ℤ → ℤ → Bool
beq_ℤ a b = not (ltb_ℤ a b) && not (ltb_ℤ b a)

-- `revision ?? 1`
abbrev pub revision_or_one : Option ℤ → ℤ
revision_or_one none = pos 1
revision_or_one (some r) = r

unfoldable pub get_revision : Version → ℤ
get_revision v = revision_or_one v.revision

-- A character of `[a-f0-9]`, in either case.
is_hex : Char → Bool
is_hex c =
    (leb 48 (code c) && leb (code c) 57)
    || (leb 65 (code c) && leb (code c) 70)
    || (leb 97 (code c) && leb (code c) 102)

hex_digits : ℕ → String → Bool
unfolding is_hex
hex_digits zero Text.[] = true
hex_digits zero (Text.◌∷◌ c s) = false
hex_digits (suc n) Text.[] = false
hex_digits (suc n) (Text.◌∷◌ c s) = let rest = hex_digits n s in is_hex c && rest

-- `/^[a-f0-9]{64}$/i`
abbrev is_digest : Option String → Bool
unfolding hex_digits
is_digest none = false
is_digest (some s) = hex_digits 64 s

abbrev is_undefined : Option String → Bool
is_undefined none = true
is_undefined (some s) = false

-- `Number.MAX_SAFE_INTEGER` is the largest whole number that a safe integer may be.
unfoldable pub is_valid_metadata : Option ℤ → Option String → Bool
unfolding is_digest
is_valid_metadata none previous = is_undefined previous
is_valid_metadata (some r) previous =
    if ltb_ℤ (pos 9007199254740991) r || ltb_ℤ r (pos 1)
    then false
    else if beq_ℤ r (pos 1)
    then is_undefined previous
    else is_digest previous

unfoldable pub is_valid_timestamp : Version → ℤ → ℤ → Bool
is_valid_timestamp v now skew = not (
    not (ltb_ℤ (pos 0) v.created_at)
    || ltb_ℤ v.updated_at v.created_at
    || ltb_ℤ (now +ℤ skew) v.created_at
    || ltb_ℤ (now +ℤ skew) v.updated_at)

-- `===`
abbrev pub same : Property → Property → Bool
same undefined undefined = true
same null null = true
same (text a) (text b) = a == b
same undefined null = false
same undefined (text b) = false
same null undefined = false
same null (text b) = false
same (text a) undefined = false
same (text a) null = false

-- `value ?? null`
abbrev pub or_null : Property → Property
or_null undefined = null
or_null null = null
or_null (text a) = text a

abbrev pub equal_optional : Property → Property → Bool
equal_optional p q = same (or_null p) (or_null q)

-- The properties that no version of an entity changes.
unfoldable pub same_properties : Entity → (String → Property) → (String → Property) → Bool
same_properties Entity.post p q = equal_optional (p "replyTo") (q "replyTo")
same_properties Entity.profile p q = true
same_properties Entity.comment p q =
    same (p "postId") (q "postId") && equal_optional (p "parentCommentId") (q "parentCommentId")
same_properties Entity.reaction p q =
    same (p "postId") (q "postId")
    && equal_optional (p "commentId") (q "commentId")
    && same (p "reactionType") (q "reactionType")
same_properties Entity.follow p q =
    same (p "followerId") (q "followerId") && same (p "followingId") (q "followingId")
same_properties Entity.chat p q =
    same (p "senderId") (q "senderId")
    && same (p "recipientId") (q "recipientId")
    && same (p "conversationId") (q "conversationId")

unfoldable pub has_stable_identity : Entity → Version → Version → Bool
unfolding same_properties
has_stable_identity e v w =
    v.id == w.id && beq_ℤ v.created_at w.created_at && same_properties e v.property w.property

abbrev pub has_final_tombstone : Entity → Bool
has_final_tombstone Entity.post = true
has_final_tombstone Entity.comment = true
has_final_tombstone Entity.chat = true
has_final_tombstone Entity.profile = false
has_final_tombstone Entity.reaction = false
has_final_tombstone Entity.follow = false

unfoldable pub rejected : Reason → String → Resolution
rejected reason hash = record {
  action = Action.reject;
  reason = reason;
  winner_state_hash = hash;
  conflict = true;
}

unfoldable pub kept : Reason → String → Bool → Resolution
kept reason hash conflict = record {
  action = Action.keep;
  reason = reason;
  winner_state_hash = hash;
  conflict = conflict;
}

unfoldable pub applied : Reason → String → Bool → Resolution
applied reason hash conflict = record {
  action = Action.apply;
  reason = reason;
  winner_state_hash = hash;
  conflict = conflict;
}

abbrev hash_or : Option String → String → String
hash_or none other = other
hash_or (some h) other = h

-- `previousRevisionHash !== undefined && previousRevisionHash !== existingStateHash`
abbrev differs : Option String → String → Bool
differs none hash = false
differs (some h) hash = not (h == hash)

-- An incoming version of a higher revision.
unfoldable pub resolve_higher : Version → Version → String → String → Resolution
unfolding applied
resolve_higher existing incoming existing_hash incoming_hash =
    let gap = get_revision incoming -ℤ get_revision existing in
    let mismatch = beq_ℤ gap (pos 1) && differs incoming.previous_revision_hash existing_hash in
    applied
      (if mismatch
        then previous_revision_mismatch
        else if ltb_ℤ (pos 1) gap
        then revision_gap
        else higher_revision)
      incoming_hash (mismatch || ltb_ℤ (pos 1) gap)

module _ (is_greater : String → String → Bool) where
  -- Two versions of one revision.
  unfoldable pub resolve_equal : Version → Version → String → String → Resolution
  unfolding applied kept
  resolve_equal existing incoming existing_hash incoming_hash =
      if existing.deleted && not incoming.deleted
      then kept tombstone_wins existing_hash true
      else if not existing.deleted && incoming.deleted
      then applied tombstone_wins incoming_hash true
      else if is_greater incoming_hash existing_hash
      then applied canonical_hash_wins incoming_hash true
      else kept canonical_hash_loses existing_hash true

  -- Two different versions of one entity by one author.
  unfoldable pub resolve_versions : Entity → Version → Version → String → String → Resolution
  unfolding resolve_equal resolve_higher kept
  resolve_versions e existing incoming existing_hash incoming_hash =
      if existing.deleted && not incoming.deleted && has_final_tombstone e
      then kept final_tombstone existing_hash true
      else if ltb_ℤ (get_revision existing) (get_revision incoming)
      then resolve_higher existing incoming existing_hash incoming_hash
      else if ltb_ℤ (get_revision incoming) (get_revision existing)
      then kept lower_revision existing_hash true
      else resolve_equal existing incoming existing_hash incoming_hash

  resolve_existing : Entity → Option Version → Version → Option String → String → Resolution
  unfolding resolve_versions rejected kept applied
  resolve_existing e none incoming existing_hash incoming_hash =
      applied no_local_record incoming_hash false
  resolve_existing e (some existing) incoming none incoming_hash =
      rejected invalid_revision incoming_hash
  resolve_existing e (some existing) incoming (some existing_hash) incoming_hash =
      if existing_hash == ""
      then rejected invalid_revision incoming_hash
      else if not (existing.author == incoming.author)
      then rejected author_mismatch existing_hash
      else if not (has_stable_identity e existing incoming)
      then rejected identity_mismatch existing_hash
      else if existing_hash == incoming_hash
      then kept duplicate existing_hash false
      else resolve_versions e existing incoming existing_hash incoming_hash

  unfoldable pub resolve :
      Entity → Option Version → Version → Option String → String → ℤ → ℤ → Resolution
  unfolding resolve_existing
  resolve e existing incoming existing_hash incoming_hash now skew =
      if not (is_valid_timestamp incoming now skew)
      then rejected timestamp_out_of_range (hash_or existing_hash incoming_hash)
      else if not (is_valid_metadata incoming.revision incoming.previous_revision_hash)
      then rejected invalid_revision (hash_or existing_hash incoming_hash)
      else resolve_existing e existing incoming existing_hash incoming_hash

-- `now - updatedAt >= SOCIAL_TOMBSTONE_MIN_RETENTION_MS`
unfoldable pub can_purge_tombstone : Version → ℤ → Bool
can_purge_tombstone v now = v.deleted && not (ltb_ℤ (now -ℤ v.updated_at) (pos 2592000000))
