-- ===== src/Accounting/Examples.antt =====
-- The theorem on goerp/internal/accounting at one entry.
use goshield.Prelude.{◌≡◌, false, [], ◌∷◌}
use goshield.Go.Float.Whole.{whole, exact, pos}
use goshield.Accounting.{JournalEntry, JournalLine, Accounting}
use goshield.Accounting.Refused.{create, serve, journal_refused}
use goshield.Samples.{calm}

abbrev rent : JournalLine whole
rent = record {
  id = "";
  entry_id = "";
  account_id = "600";
  description = "rent";
  debit = pos 900;
  credit = pos 0;
}

abbrev entry : JournalEntry whole
entry = record {
  id = "";
  tenant_id = "acme";
  entry_number = [];
  entry_date = "";
  description = "rent";
  reference = "";
  state = "";
  total_debit = pos 0;
  total_credit = pos 0;
  lines = rent ∷ record rent { account_id = "512"; debit = pos 0; credit = pos 900 } ∷ [];
  created_at = 0;
}

abbrev books : Accounting whole
books = record {
  store = record { accounts = []; entries = []; lines = [] };
  published = [];
  calls = 0;
}

journal_refused_example :
    ((serve exact calm (λ a. a) (λ e. e) (create entry) books).0 ≡ false)
    × ((serve exact calm (λ a. a) (λ e. e) (create entry) books).1.store ≡ books.store)
journal_refused_example = journal_refused exact calm (λ a. a) (λ e. e) (create entry) books
