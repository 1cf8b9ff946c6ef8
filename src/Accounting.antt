-- ===== src/Accounting.antt =====
-- goerp/internal/accounting: the chart of accounts and the journal, domain and repository; its use
-- case only passes the calls on. The time of a posting, which is never read, is left out.
pub mod Refused
mod Examples
use goshield.Prelude.{
  ℕ, ◌+◌, ◌-◌, ◌*◌, String, Bool, not, ◌&&◌, List, [], ◌∷◌, ◌++◌, map, ◌==◌, ltb, select, take,
  drop, length, update_where, if◌then◌else◌,
}
use goshield.Go.Errors.{Result, ok, err, errorf, refuse_if, or_zero}
use goshield.Go.Float.{Float64, Arithmetic, sum}
use goshield.Schema.{statement}
use goshield.Go.Text.{Text, codes, number}
use goshield.Go.World.{
  Env, World, Exec, ◌>>=◌, ◌>>◌, pure, lift, call, attempt, reads, writes, new_uuid, time_now,
}

pub record Account (F : Float64) : Type 0 where
  pub id : String
  pub tenant_id : String
  pub code : String
  pub name : String
  pub account_type : String
  pub parent_id : String
  pub is_active : Bool
  pub balance : F.Num
  pub created_at : ℕ

pub record JournalLine (F : Float64) : Type 0 where
  pub id : String
  pub entry_id : String
  pub account_id : String
  pub description : String
  pub debit : F.Num
  pub credit : F.Num

-- The rows of the table have no lines.
pub record JournalEntry (F : Float64) : Type 0 where
  pub id : String
  pub tenant_id : String
  pub entry_number : Text
  pub entry_date : String
  pub description : String
  pub reference : String
  pub state : String
  pub total_debit : F.Num
  pub total_credit : F.Num
  pub lines : List (JournalLine F)
  pub created_at : ℕ

pub record AccountingFilter : Type 0 where
  pub tenant_id : String
  pub state : String
  pub page : ℕ

pub record Books (F : Float64) : Type 0 where
  pub accounts : List (Account F)
  pub entries : List (JournalEntry F)
  pub lines : List (JournalLine F)

-- Nothing is published.
abbrev pub Accounting : Float64 → Type 0
Accounting F = World (Unit {0}) (Books F)

-- The columns that the statements name.
abbrev account_columns : List String
account_columns =
    "id" ∷ "tenant_id" ∷ "code" ∷ "name" ∷ "account_type" ∷ "parent_id" ∷ "is_active" ∷ "balance"
    ∷ "created_at" ∷ []

abbrev entry_columns : List String
entry_columns =
    "id" ∷ "tenant_id" ∷ "entry_number" ∷ "entry_date" ∷ "description" ∷ "reference" ∷ "state"
    ∷ "total_debit" ∷ "total_credit" ∷ "created_at" ∷ []

abbrev line_columns : List String
line_columns = "id" ∷ "journal_entry_id" ∷ "account_id" ∷ "description" ∷ "debit" ∷ "credit" ∷ []

abbrev post_columns : List String
post_columns = "state" ∷ "posted_at" ∷ "id" ∷ "tenant_id" ∷ []

module _ {F : Float64} (A : Arithmetic F) (env : Env) where
  -- `order` is `ORDER BY code`.
  unfoldable pub list_accounts :
      (List (Account F) → List (Account F)) → String → Exec (Accounting F) (List (Account F))
  list_accounts order tenant =
      statement env "chart_of_accounts" account_columns
        (reads (λ s. ok (order (select (λ a. a.tenant_id == tenant) s.accounts))))

  -- `order` is `ORDER BY created_at DESC`; the state of the filter is not looked at.
  unfoldable pub list_journal_entries :
      (List (JournalEntry F) → List (JournalEntry F))
      → AccountingFilter
      → Exec (Accounting F) (List (JournalEntry F) × ℕ)
  list_journal_entries order f = do
    let page = if ltb f.page 1 then 1 else f.page
    entries ← statement env "journal_entries" entry_columns (
        reads (λ s. ok (
          take 50
            (drop ((page - 1) * 50) (order (select (λ e. e.tenant_id == f.tenant_id) s.entries))))))
    total ← attempt (
        statement env "journal_entries" ("tenant_id" ∷ [])
          (reads (λ s. ok (length (select (λ e. e.tenant_id == f.tenant_id) s.entries)))))
    pure (entries, or_zero total)

  -- An INSERT whose error is ignored.
  unfoldable pub insert_line : String → JournalLine F → Exec (Accounting F) (Unit {0})
  insert_line entry l = do
    i ← new_uuid env
    _ ← attempt (
        statement env "journal_lines" line_columns (
          writes (λ s. record s { lines = s.lines ++ record l { id = i; entry_id = entry } ∷ [] })))
    pure tt

  unfoldable pub insert_lines : String → List (JournalLine F) → Exec (Accounting F) (Unit {0})
  insert_lines entry [] = pure tt
  insert_lines entry (l ∷ ls) = insert_line entry l >> insert_lines entry ls

  abbrev pub total_debit : List (JournalLine F) → F.Num
  total_debit ls = sum A (map (λ l. l.debit) ls)

  abbrev pub total_credit : List (JournalLine F) → F.Num
  total_credit ls = sum A (map (λ l. l.credit) ls)

  -- The number of the n-th entry of a tenant.
  unfoldable pub number_of_entry : ℕ → Text
  number_of_entry n = codes "JE-" ++ number 5 n

  unfoldable pub create_journal_entry : JournalEntry F → Exec (Accounting F) (JournalEntry F)
  create_journal_entry e = do
    i ← new_uuid env
    now ← time_now env
    counted ← attempt (
        statement env "journal_entries" ("tenant_id" ∷ [])
          (reads (λ s. ok (length (select (λ x. x.tenant_id == e.tenant_id) s.entries)))))
    lift (
        refuse_if (not (A.eq (total_debit e.lines) (total_credit e.lines)))
          "debit must equal credit")
    today ← time_now env
    let made = record e {
      id = i;
      created_at = now;
      state = if e.state == "" then "draft" else e.state;
      entry_number = number_of_entry (or_zero counted + 1);
      total_debit = total_debit e.lines;
      total_credit = total_credit e.lines;
    }
    statement env "journal_entries" entry_columns (
        writes (λ s. record s {
          entries =
              s.entries ++ record made { entry_date = env.format_date today; lines = [] } ∷ [];
        }))
    insert_lines i e.lines
    pure made

  abbrev pub is_draft_of : String → String → JournalEntry F → Bool
  is_draft_of i tenant e = e.id == i && e.tenant_id == tenant && e.state == "draft"

  unfoldable pub post_journal_entry : String → String → Exec (Accounting F) (Unit {0})
  post_journal_entry i tenant = statement env "journal_entries" post_columns (
      writes (λ s. record s {
        entries =
            update_where (is_draft_of i tenant) (λ e. record e { state = "posted" }) s.entries;
      }))
