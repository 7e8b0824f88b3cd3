-- ===== src/Social/Conflict/Convergence.antt =====
-- On replicas that hear of the same versions of an entity, in any order and any number of times.
use synpeer.Prelude.{
  String, ◌≡◌, ◌≢◌, ◌⊎◌, refl, sym, ap, subst, ◌∙◌, Option, none, some, List, [], ◌∷◌, Bool, true,
  false, not, ◌&&◌, ◌||◌, ◌==◌, eq_iff, eq_refl, arith, inl, inr, if◌then◌else◌, All,
}
use synpeer.Prelude.Int.{ℤ, ltb_ℤ}
use synpeer.Social.Conflict.{
  Entity, Action, Version, get_revision, has_final_tombstone, kept, applied, resolve_higher,
  resolve_equal, resolve_versions, resolve_existing, resolve,
}
use synpeer.Social.Conflict.Winner.{IsAcceptable, IsSibling, IsDecisive, resolve-siblings}

abbrev acted : Action → Version → Option Version → Option Version
acted Action.apply v s = some v
acted Action.keep v s = s
acted Action.reject v s = s

abbrev pub Has : {A : Type 0} → A → List A → Type 0
Has x [] = ⊥
Has x (y ∷ ys) = (x ≡ y) ⊎ Has x ys

abbrev pub hash_of : (Version → String) → Option Version → Option String
hash_of hash none = none
hash_of hash (some v) = some (hash v)

-- The versions of a list of messages.
abbrev pub versions : List (ℤ × Version) → List Version
versions [] = []
versions ((now, v) ∷ ms) = v ∷ versions ms

module _ (g : String → String → Bool) (hash : Version → String) (e : Entity) (skew : ℤ) where
  -- What a replica holds of the entity after it hears of a version at a time.
  unfoldable pub receive : Option Version → ℤ × Version → Option Version
  unfolding resolve
  receive s (now, v) = acted (resolve g e s v (hash_of hash s) (hash v) now skew).action v s

  unfoldable pub receive_all : Option Version → List (ℤ × Version) → Option Version
  unfolding receive
  receive_all s [] = s
  receive_all s (m ∷ ms) = receive_all (receive s m) ms

  -- Whether v wins over w, which is another version.
  outranks : Version → Version → Bool
  outranks v w =
      ltb_ℤ (get_revision w) (get_revision v)
      || (not (ltb_ℤ (get_revision v) (get_revision w))
          && (if w.deleted && not v.deleted
              then false
              else if not w.deleted && v.deleted
              then true
              else g (hash v) (hash w)))

  leads : Version → Version → Bool
  unfolding outranks
  leads v w = hash v == hash w || not (outranks w v)

  better : Version → Version → Version
  unfolding outranks
  better s v = if hash s == hash v then s else if outranks v s then v else s

  pub record IsCoherent (group : Version → Type 0) : Type 0 where
    pub siblings : (v w : Version) → group v → group w → IsSibling e v w
    pub determined :
        (v w : Version)
        → group v
        → group w
        → hash v ≡ hash w
        → (get_revision v ≡ get_revision w) × (v.deleted ≡ w.deleted)
    pub hashed : (v : Version) → group v → hash v ≢ ""

  -- `localeCompare` orders the hashes.
  pub record IsOrder : Type 0 where
    pub decisive : IsDecisive g
    pub transitive : (a b c : String) → g a b ≡ true → g b c ≡ true → g a c ≡ true

  module _ (o : IsOrder) (group : Version → Type 0) (c : IsCoherent group)
      (open_ended : has_final_tombstone e ≡ false) where
    receive-better :
        (s v : Version) (now : ℤ)
        → group s
        → group v
        → IsAcceptable v now skew
        → receive (some s) (now, v) ≡ some (better s v)
    unfolding receive better outranks resolve_versions resolve_higher resolve_equal kept applied
    receive-better s v now gs gv a =
        rw
          (resolve-siblings g e s v (hash s) (hash v) now skew a (c.siblings s v gs gv)
            (c.hashed s gs))
          (ground (arith, open_ended))

    leads_trans :
        (u v w : Version)
        → group u
        → group v
        → group w
        → leads u v ≡ true
        → leads v w ≡ true
        → leads u w ≡ true
    unfolding leads outranks
    leads_trans u v w gu gv gw h k = ground (
      arith,
      h,
      k,
      c.determined u v gu gv,
      c.determined v w gv gw,
      eq_iff (hash u) (hash v),
      eq_iff (hash v) (hash w),
      eq_iff (hash u) (hash w),
      o.decisive (hash u) (hash v),
      o.decisive (hash v) (hash w),
      o.decisive (hash u) (hash w),
      o.transitive (hash u) (hash v) (hash w),
    )

    leads_antisym :
        (v w : Version) → group v → group w → leads v w ≡ true → leads w v ≡ true → hash v ≡ hash w
    unfolding leads outranks
    leads_antisym v w gv gw h k = ground (
      arith,
      h,
      k,
      eq_iff (hash v) (hash w),
      eq_iff (hash w) (hash v),
      o.decisive (hash v) (hash w),
    )

    leads_self : (v : Version) → leads v v ≡ true
    unfolding leads
    leads_self v = ground (arith, eq_refl (hash v))

    leads_loser : (s v : Version) → outranks v s ≡ true → leads v s ≡ true
    unfolding leads outranks
    leads_loser s v h =
        ground (arith, h, eq_iff (hash v) (hash s), eq_refl (hash s), o.decisive (hash v) (hash s))

    leads_or :
        (s v : Version) → ((hash s == hash v) ≡ true) ⊎ (outranks v s ≡ false) → leads s v ≡ true
    unfolding leads
    leads_or s v h = ground (arith, h)

    leads-better : (s v : Version) → (leads (better s v) s ≡ true) × (leads (better s v) v ≡ true)
    unfolding better
    leads-better s v = go (hash s == hash v) (outranks v s) refl refl
      where
        go :
            (x y : Bool)
            → (hash s == hash v) ≡ x
            → outranks v s ≡ y
            → (leads (if x then s else if y then v else s) s ≡ true)
              × (leads (if x then s else if y then v else s) v ≡ true)
        go true y a b = (leads_self s, leads_or s v (inl a))
        go false true a b = (leads_loser s v b, leads_self v)
        go false false a b = (leads_self s, leads_or s v (inr b))

    better-group : (s v : Version) → group s → group v → group (better s v)
    unfolding better
    better-group s v gs gv = go (hash s == hash v) (outranks v s)
      where
        go : (x y : Bool) → group (if x then s else if y then v else s)
        go true y = gs
        go false true = gv
        go false false = gs

    -- The messages of the group, each acceptable when it comes.
    abbrev IsHeard : ℤ × Version → Type 0
    IsHeard m = group m.1 × IsAcceptable m.1 m.0 skew

    -- A version of the group that no version heard wins over.
    record Leader (s : Version) (ms : List (ℤ × Version)) (r : Option Version) : Type 0 where
      top : Version
      reached : r ≡ some top
      member : group top
      first : leads top s ≡ true
      others : All (λ (m : ℤ × Version). leads top m.1 ≡ true) ms

    receive_all-Leader :
        (s : Version) (ms : List (ℤ × Version))
        → group s
        → All IsHeard ms
        → Leader s ms (receive_all (some s) ms)
    unfolding receive_all
    receive_all-Leader s [] gs h = record {
      top = s;
      reached = refl;
      member = gs;
      first = leads_self s;
      others = tt;
    }
    receive_all-Leader s ((now, v) ∷ ms) gs h =
        let s' = better s v in
        let gs' = better-group s v gs h.0.0 in
        let l = receive_all-Leader s' ms gs' h.1 in
        let over = leads-better s v in
        record {
          top = l.top;
          reached = ap (λ x. receive_all x ms) (receive-better s v now gs h.0.0 h.0.1) ∙ l.reached;
          member = l.member;
          first = leads_trans l.top s' s l.member gs' gs l.first over.0;
          others = (leads_trans l.top s' v l.member gs' h.0.0 l.first over.1, l.others);
        }

  abbrev pub IsTimely : ℤ × Version → Type 0
  IsTimely m = IsAcceptable m.1 m.0 skew

  led :
      (t w : Version) (ms : List (ℤ × Version))
      → All (λ (m : ℤ × Version). leads t m.1 ≡ true) ms
      → Has w (versions ms)
      → leads t w ≡ true
  led t w [] h i = absurd i
  led t w ((now, v) ∷ ms) h (inl i) = subst (λ x. leads t x ≡ true) (sym i) h.0
  led t w ((now, v) ∷ ms) h (inr i) = led t w ms h.1 i

  heard-All :
      (group : Version → Type 0) (ms : List (ℤ × Version))
      → ((v : Version) → Has v (versions ms) → group v)
      → All IsTimely ms
      → All (λ (m : ℤ × Version). group m.1 × IsAcceptable m.1 m.0 skew) ms
  heard-All group [] h t = tt
  heard-All group ((now, v) ∷ ms) h t =
      ((h v (inl refl), t.0), heard-All group ms (λ w i. h w (inr i)) t.1)

  receive_first : (now : ℤ) (v : Version) → IsAcceptable v now skew → receive none (now, v) ≡ some v
  unfolding receive resolve_existing applied
  receive_first now v a = rw (a.0, a.1) refl

  module _ (o : IsOrder) (open_ended : has_final_tombstone e ≡ false) where
    -- Two replicas that hear of the same versions of a profile, reaction or follow, in any orders
    -- and any numbers of times, hold versions with the same state hash, if every message is
    -- timely and valid when it comes, the versions are of one record by one author, equal hashes
    -- have equal revisions and deletions, and the comparison of hashes is a strict order.
    pub replicas_converge :
        (ms ns : List (ℤ × Version))
        → All IsTimely ms
        → All IsTimely ns
        → ((v : Version) → Has v (versions ms) → Has v (versions ns))
        → ((v : Version) → Has v (versions ns) → Has v (versions ms))
        → IsCoherent (λ v. Has v (versions ms))
        → hash_of hash (receive_all none ms) ≡ hash_of hash (receive_all none ns)
    unfolding receive_all
    replicas_converge [] [] t u p q c = refl
    replicas_converge [] ((now, v) ∷ ns) t u p q c = absurd (q v (inl refl))
    replicas_converge ((now, v) ∷ ms) [] t u p q c = absurd (p v (inl refl))
    replicas_converge ((now, v) ∷ ms) ((later, w) ∷ ns) t u p q c =
        let group = λ (x : Version). Has x (v ∷ versions ms) in
        let a =
          receive_all-Leader o group c open_ended v ms (inl refl)
            (heard-All group ms (λ x i. inr i) t.1) in
        let b =
          receive_all-Leader o group c open_ended w ns (q w (inl refl))
            (heard-All group ns (λ x i. q x (inr i)) u.1) in
        let over = led a.top b.top ((now, v) ∷ ms) (a.first, a.others) b.member in
        let under = led b.top a.top ((later, w) ∷ ns) (b.first, b.others) (p a.top a.member) in
        let same = leads_antisym o group c open_ended a.top b.top a.member b.member over under in
        ap (λ x. hash_of hash (receive_all x ms)) (receive_first now v t.0)
        ∙ ap (hash_of hash) a.reached
        ∙ ap (λ (h : String). some h) same
        ∙ sym (ap (hash_of hash) b.reached)
        ∙ sym (ap (λ x. hash_of hash (receive_all x ns)) (receive_first later w u.0))
