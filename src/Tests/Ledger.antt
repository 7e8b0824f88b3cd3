-- ===== src/Tests/Ledger.antt =====
-- The ledger at concrete inputs (src/economy/Ledger).
use synpeer.Prelude.{
  ℕ, suc, zero, String, ◌≡◌, refl, ap, none, List, [], ◌∷◌, true, false, ◌∙◌, sym, Bool, not, ◌&&◌,
  leb, if◌then◌else◌, ◌+◌, ◌*◌, ◌/◌,
}
use synpeer.Prelude.Int.{ℤ, pos, negsuc, ◌+ℤ◌, ltb_ℤ}
use Prim.Native.Char.{char}
use Prim.Native.String as Text
use synpeer.Dict.{get, put, values}
use synpeer.Dict.Entries.{put_all}
use synpeer.Wallet.Transaction.{TransactionType}
use synpeer.Ledger.{
  Arithmetic, Ledger, Addition, Texts, Call, do_add, do_snapshot, new, get_balance, perform,
  perform_all, verify_integrity, add_entry, export_ledger, import_ledger, put_entries,
  put_snapshots, sum_from,
}
use synpeer.Ledger.Balance.{credited, supplied, IsNumbered, ledger_adds_up}

-- A counter in unary.
strokes : ℕ → String
strokes zero = ""
strokes (suc n) = Text.◌∷◌ (char 73 tt) (strokes n)

count_strokes : String → ℕ
count_strokes Text.[] = 0
count_strokes (Text.◌∷◌ c s) = suc (count_strokes s)

counted : (n : ℕ) → count_strokes (strokes n) ≡ n
unfolding strokes count_strokes
counted zero = refl
counted (suc n) = ap (λ m. suc m) (counted n)

abbrev texts : Texts
unfolding strokes
texts = record {
  entry_id = λ now c. strokes c;
  snapshot_id = λ now c. strokes c;
  at_most = λ a b. true;
  hex = strokes;
}

texts-IsNumbered : IsNumbered texts
unfolding texts strokes
texts-IsNumbered s now c d h = sym (counted c) ∙ ap count_strokes h ∙ counted d

paid : {A : Type 0} → String → A → Addition A
paid address amount = record {
  address = address;
  amount = amount;
  type = TransactionType.reward;
  category = none;
  description = "";
}

abbrev beq_ℤ : ℤ → ℤ → Bool
beq_ℤ a b = not (ltb_ℤ a b) && not (ltb_ℤ b a)

-- Whole numbers.
abbrev whole : Arithmetic ℤ
whole = record {
  nought = pos 0;
  plus = ◌+ℤ◌;
  or_nought = λ z. z;
  is_same = beq_ℤ;
  or_nought-nought = refl;
}

-- Numbers of which only the first two digits are kept.
abbrev rounded : Arithmetic ℕ
rounded = record {
  nought = 0;
  plus = λ x y. if leb 100 (x + y) then (x + y) / 10 * 10 else x + y;
  or_nought = λ x. x;
  is_same = λ x y. leb x y && leb y x;
  or_nought-nought = refl;
}

abbrev calls : List (Call ℤ)
unfolding paid
calls =
    do_add 1 1 (paid "a" (pos 10))
    ∷ do_add 1 2 (paid "b" (pos 5))
    ∷ do_snapshot 3 3
    ∷ do_add 4 4 (paid "a" (negsuc 3))
    ∷ []

ledger_adds_up_example :
    (get_balance whole (perform_all whole texts (new whole) calls) "a"
      ≡ credited whole "a" (perform_all whole texts (new whole) calls))
    × ((perform_all whole texts (new whole) calls).total_supply
        ≡ supplied whole (perform_all whole texts (new whole) calls))
ledger_adds_up_example = ledger_adds_up whole texts calls "a" texts-IsNumbered

-- The supply stays at 100, to which 6 is added twice; the balances are 100 and 12.
rounded_calls : List (Call ℕ)
unfolding paid
rounded_calls = do_add 1 1 (paid "a" 100) ∷ do_add 2 2 (paid "b" 6) ∷ do_add 3 3 (paid "b" 6) ∷ []

rounded_not_verified :
    verify_integrity rounded (perform_all rounded texts (new rounded) rounded_calls) ≡ false
unfolding rounded_calls paid perform_all perform add_entry get_balance new verify_integrity sum_from
    get put values strokes
rounded_not_verified = refl

-- An import into a ledger that has a wallet of its own.
merged : Ledger ℤ
unfolding paid
merged =
    import_ledger (perform_all whole texts (new whole) (do_add 1 1 (paid "a" (pos 10)) ∷ []))
      (export_ledger (perform_all whole texts (new whole) (do_add 1 1 (paid "b" (pos 5)) ∷ [])))

merged_does_not_add_up : verify_integrity whole merged ≡ false
unfolding merged paid import_ledger export_ledger perform_all perform add_entry get_balance new
    verify_integrity sum_from get put values put_all put_entries put_snapshots strokes ◌+ℤ◌
merged_does_not_add_up = refl
