-- ===== src/Ledger/Balance.antt =====
-- On the balances and the supply of a ledger, and its entries.
use synpeer.Prelude.{
  ℕ, ◌+◌, ◌<◌, String, ◌≡◌, refl, sym, ap, ◌∙◌, List, [], ◌∷◌, ◌++◌, Bool, true, false, ◌==◌,
  eq_iff, arith, if◌then◌else◌,
}
use synpeer.Dict.{get, has, put, values}
use synpeer.Dict.Laws.{get-put, has-put, values-put_fresh}
use synpeer.Ledger.{
  Arithmetic, Entry, Ledger, Addition, Texts, Call, do_add, do_snapshot, do_clear_entries,
  do_clear_snapshots, new, or_zero, get_balance, add_entry, create_snapshot, clear_entries,
  clear_snapshots, perform, perform_all,
}

module _ {A : Type 0} (ar : Arithmetic A) where
  -- The amounts of a wallet's entries, added from the first to the last.
  abbrev pub pay_in : String → A → Entry A → A
  pay_in address z e = if e.wallet_address == address then ar.plus (ar.or_nought z) e.amount else z

  unfoldable pub credited_from : String → A → List (Entry A) → A
  credited_from address z [] = z
  credited_from address z (e ∷ es) = credited_from address (pay_in address z e) es

  credited_from-append :
      (address : String) (z : A) (es : List (Entry A)) (e : Entry A)
      → credited_from address z (es ++ e ∷ []) ≡ pay_in address (credited_from address z es) e
  unfolding credited_from
  credited_from-append address z [] e = refl
  credited_from-append address z (f ∷ es) e = credited_from-append address (pay_in address z f) es e

  unfoldable pub supplied_from : A → List (Entry A) → A
  supplied_from z [] = z
  supplied_from z (e ∷ es) = supplied_from (ar.plus z e.amount) es

  supplied_from-append :
      (z : A) (es : List (Entry A)) (e : Entry A)
      → supplied_from z (es ++ e ∷ []) ≡ ar.plus (supplied_from z es) e.amount
  unfolding supplied_from
  supplied_from-append z [] e = refl
  supplied_from-append z (f ∷ es) e = supplied_from-append (ar.plus z f.amount) es e

  -- What the entries of a wallet add up to, and what all of them add up to.
  abbrev pub credited : String → Ledger A → A
  credited a l = ar.or_nought (credited_from a ar.nought (values l.entries))

  abbrev pub supplied : Ledger A → A
  supplied l = supplied_from ar.nought (values l.entries)

-- Ids of different counters differ.
abbrev pub IsNumbered : Texts → Type 0
IsNumbered t = (s now c d : ℕ) → t.entry_id s c ≡ t.entry_id now d → c ≡ d

module _ {A : Type 0} (ar : Arithmetic A) (t : Texts) where
  pub record IsBalanced (l : Ledger A) : Type 0 where
    pub fresh : (now c : ℕ) → l.entry_counter < c → has l.entries (t.entry_id now c) ≡ false
    pub supply : l.total_supply ≡ supplied ar l
    pub balance : (a : String) → get_balance ar l a ≡ credited ar a l

  get_balance-put :
      (l : Ledger A) (k : String) (z : A) (a : String)
      → or_zero ar (get (put l.balances k z) a)
        ≡ (if k == a then ar.or_nought z else or_zero ar (get l.balances a))
  get_balance-put l k z a = ground (arith, get-put l.balances k z a)

  values-add_entry :
      (l : Ledger A) (id_time now : ℕ) (a : Addition A)
      → IsBalanced l
      → values (add_entry ar t l id_time now a).0.entries
        ≡ values l.entries ++ (add_entry ar t l id_time now a).1 ∷ []
  unfolding add_entry
  values-add_entry l id_time now a x =
      values-put_fresh l.entries (t.entry_id id_time (l.entry_counter + 1))
        (add_entry ar t l id_time now a).1 (x.fresh id_time (l.entry_counter + 1) (omega arith))

  balance-add_entry :
      (l : Ledger A) (id_time now : ℕ) (a : Addition A) (b : String)
      → IsBalanced l
      → or_zero ar
          (get (put l.balances a.address (ar.plus (get_balance ar l a.address) a.amount)) b)
        ≡ credited ar b (add_entry ar t l id_time now a).0
  unfolding add_entry
  balance-add_entry l id_time now a b x =
      let e = (add_entry ar t l id_time now a).1 in
      get_balance-put l a.address (ar.plus (get_balance ar l a.address) a.amount) b
      ∙ paid_in (a.address == b) refl
      ∙ ap ar.or_nought (
          sym (credited_from-append ar b ar.nought (values l.entries) e)
          ∙ ap (credited_from ar b ar.nought) (sym (values-add_entry l id_time now a x)))
    where
      paid_in :
          (c : Bool)
          → (a.address == b) ≡ c
          → (if c
              then ar.or_nought (ar.plus (get_balance ar l a.address) a.amount)
              else or_zero ar (get l.balances b))
            ≡ ar.or_nought (
                if c
                then ar.plus (credited ar b l) a.amount
                else credited_from ar b ar.nought (values l.entries))
      paid_in true h =
          ap (λ z. ar.or_nought (ar.plus z a.amount))
            (ap (get_balance ar l) ((eq_iff a.address b).0 h) ∙ x.balance b)
      paid_in false h = plain
        where
          plain : or_zero ar (get l.balances b) ≡ credited ar b l
          plain = x.balance b

  add_entry-IsBalanced :
      (l : Ledger A) (id_time now : ℕ) (a : Addition A)
      → IsNumbered t
      → IsBalanced l
      → IsBalanced (add_entry ar t l id_time now a).0
  unfolding add_entry get_balance
  add_entry-IsBalanced l id_time now a n x = record {
    fresh = λ at c h. ground (
      arith,
      has-put l.entries (t.entry_id id_time (l.entry_counter + 1))
          (add_entry ar t l id_time now a).1 (t.entry_id at c),
      x.fresh at c,
      n id_time at (l.entry_counter + 1) c,
      eq_iff (t.entry_id id_time (l.entry_counter + 1)) (t.entry_id at c),
      h,
    );
    supply =
        ap (λ z. ar.plus z a.amount) x.supply
        ∙ sym (
            supplied_from-append ar ar.nought (values l.entries) (add_entry ar t l id_time now a).1)
        ∙ ap (supplied_from ar ar.nought) (sym (values-add_entry l id_time now a x));
    balance = λ b. balance-add_entry l id_time now a b x;
  }

  clear_entries-IsBalanced : (l : Ledger A) → IsBalanced (clear_entries ar l)
  unfolding clear_entries get_balance credited_from supplied_from has get values
  clear_entries-IsBalanced l = record {
    fresh = λ at c h. refl;
    supply = refl;
    balance = λ a. sym ar.or_nought-nought;
  }

  new-IsBalanced : IsBalanced (new ar)
  unfolding new get_balance credited_from supplied_from has get values
  new-IsBalanced = record {
    fresh = λ at c h. refl;
    supply = refl;
    balance = λ a. sym ar.or_nought-nought;
  }

  perform-IsBalanced :
      (l : Ledger A) (c : Call A) → IsNumbered t → IsBalanced l → IsBalanced (perform ar t l c)
  unfolding perform create_snapshot clear_snapshots get_balance
  perform-IsBalanced l (do_add id_time now a) n x = add_entry-IsBalanced l id_time now a n x
  perform-IsBalanced l (do_snapshot id_time now) n x = record {
    fresh = x.fresh;
    supply = x.supply;
    balance = x.balance;
  }
  perform-IsBalanced l do_clear_entries n x = clear_entries-IsBalanced l
  perform-IsBalanced l do_clear_snapshots n x = record {
    fresh = x.fresh;
    supply = x.supply;
    balance = x.balance;
  }

  perform_all-IsBalanced :
      (l : Ledger A) (cs : List (Call A))
      → IsNumbered t
      → IsBalanced l
      → IsBalanced (perform_all ar t l cs)
  unfolding perform_all
  perform_all-IsBalanced l [] n x = x
  perform_all-IsBalanced l (c ∷ cs) n x =
      perform_all-IsBalanced (perform ar t l c) cs n (perform-IsBalanced l c n x)

  -- If the ids of different counters differ, then after any additions, snapshots and clearings on
  -- a new ledger every balance is the sum, from the first to the last, of the amounts of the
  -- entries of its wallet, a sum that is NaN counting as 0, and the total supply is the sum, from
  -- the first to the last, of the amounts of all entries, however sums are rounded.
  pub ledger_adds_up :
      (cs : List (Call A)) (a : String)
      → IsNumbered t
      → (get_balance ar (perform_all ar t (new ar) cs) a
          ≡ credited ar a (perform_all ar t (new ar) cs))
        × ((perform_all ar t (new ar) cs).total_supply ≡ supplied ar (perform_all ar t (new ar) cs))
  ledger_adds_up cs a n =
      let x = perform_all-IsBalanced (new ar) cs n new-IsBalanced in (x.balance a, x.supply)
