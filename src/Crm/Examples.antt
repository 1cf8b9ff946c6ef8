-- ===== src/Crm/Examples.antt =====
-- The theorem on goerp/internal/crm at one lead.
use goshield.Prelude.{◌≡◌, false, [], ◌∷◌}
use goshield.Go.Float.{fixed_point}
use goshield.Crm.Domain.{Lead}
use goshield.Crm.Repository.{Crm}
use goshield.Crm.Refused.{updates_lead, serve, serve_refused}
use goshield.Samples.{calm}

abbrev bo : Lead
bo = record {
  id = "l-1";
  tenant_id = "acme";
  name = "Bo";
  email = "bo@x";
  phone = "";
  company = "X";
  source = "website";
  status = "new";
  assigned_to = "ann";
  notes = "";
  tags = [];
  created_by = "ann";
  created_at = 1;
  updated_at = 1;
}

abbrev crm : Crm fixed_point
crm = record {
  store = record { leads = bo ∷ []; opportunities = []; activities = [] };
  published = [];
  calls = 0;
}

serve_refused_example :
    let r =
      updates_lead "l-1"
        (record {
          name = "Bob";
          email = "";
          phone = "";
          company = "";
          source = "";
          status = "contacted";
          assigned_to = "";
          notes = "";
          tags = [];
        })
        "acme" in
    ((serve calm (λ t. t) (λ l. l) (λ o. o) (λ a. a) r crm).0 ≡ false)
    × ((serve calm (λ t. t) (λ l. l) (λ o. o) (λ a. a) r crm).1.store ≡ crm.store)
serve_refused_example = serve_refused calm (λ t. t) (λ l. l) (λ o. o) (λ a. a) _ crm
