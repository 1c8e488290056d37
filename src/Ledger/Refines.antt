-- ===== src/Ledger/Refines.antt =====
-- The ledger of rows implements a book that has one number for each account and asset.
use counterparty_core.Prelude.{
  ℕ, ◌+◌, ◌-◌, ◌≡◌, arith, ◌||◌, not, List, [], ◌∷◌, String, ltb, min, if◌then◌else◌,
}
use counterparty_core.Prelude.Int.{pos}
use counterparty_core.Text.{Text}
use counterparty_core.Config.{max_int}
use counterparty_core.Env.{Env}
use counterparty_core.Ledger.Db.{Db}
use counterparty_core.Ledger.Balances.{get_balance, debit, credit}
use counterparty_core.Ledger.Owners.{same}
use counterparty_core.Ledger.Accounts.{refuses}
use counterparty_core.Ledger.Backed.{Backed, ledger_after_credit, ledger_after_debit}
use counterparty_core.Ledger.Effects.{get_balance-credit, get_balance-debit}

-- A call of `debit` or of `credit`: the account, the asset, the quantity and what is logged.
pub data Move : Type 0 where
  take give : Text → Text → ℕ → ℕ → String → Text → Move

-- What each account has of each asset.
abbrev pub Book : Type 0
Book = Text → Text → ℕ

module _ (env : Env) where
  -- The state that the calls leave, one after the other, whether they raise or not.
  unfoldable pub run_move : Move → Db → Db
  run_move (take a s q i action event) db = (debit env a s (pos q) i action event db).1
  run_move (give a s q i action event) db = (credit env a s (pos q) i action event db).1

  unfoldable pub run_moves : List Move → Db → Db
  run_moves [] db = db
  run_moves (m ∷ ms) db = run_moves ms (run_move m db)

  -- A refused move, and one of more than there is, leave the book; others change it at one place,
  -- and what is there stops at MAX_INT.
  unfoldable pub book_move : Move → Book → Book
  book_move (take a s q i action event) book b t =
      if refuses env a s q || ltb (book a s) q || not (same env a s b t)
      then book b t
      else book b t - q
  book_move (give a s q i action event) book b t =
      if refuses env a s q || not (same env a s b t) then book b t else min (book b t + q) max_int

  unfoldable pub book_moves : List Move → Book → Book
  book_moves [] book = book
  book_moves (m ∷ ms) book = book_moves ms (book_move m book)

  -- The book that the rows stand for.
  abbrev pub IsBookOf : Db → Book → Type 0
  IsBookOf db book = (b t : Text) → get_balance env b t db ≡ book b t

  step-IsBookOf :
      (m : Move) (book : Book) (db : Db)
      → Backed env db
      → IsBookOf db book
      → IsBookOf (run_move m db) (book_move m book)
  unfolding run_move book_move
  step-IsBookOf (take a s q i action event) book db h is b t =
      ground (arith, get_balance-debit env a s q i action event b t db h, is a s, is b t)
  step-IsBookOf (give a s q i action event) book db h is b t =
      ground (arith, get_balance-credit env a s q i action event b t db, is a s, is b t)

  step-Backed : (m : Move) (db : Db) → Backed env db → Backed env (run_move m db)
  unfolding run_move
  step-Backed (take a s q i action event) db h =
      ledger_after_debit env a s (pos q) i action event db h
  step-Backed (give a s q i action event) db h =
      ledger_after_credit env a s (pos q) i action event db h

  -- A sequence of debits and credits of quantities that are not negative, each run from what the
  -- one before left, whether it raised or not, does to the balances of the rows what it does to a
  -- book that has one number for each account and asset, if the balances are backed and are those
  -- of the book at first.
  pub moves_refine_book :
      (ms : List Move) (book : Book) (db : Db)
      → Backed env db
      → IsBookOf db book
      → IsBookOf (run_moves ms db) (book_moves ms book)
  unfolding run_moves book_moves
  moves_refine_book [] book db h is = is
  moves_refine_book (m ∷ ms) book db h is =
      moves_refine_book ms (book_move m book) (run_move m db) (step-Backed m db h)
        (step-IsBookOf m book db h is)
