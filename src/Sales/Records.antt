-- ===== src/Sales/Records.antt =====
-- argus/modules/sales/companies/company.py, contacts/contact.py, campaigns/campaign.py and
-- leads/lead.py: the records that an import builds. Of each record the fields that an import sets
-- are kept; the others have their defaults, and the statuses of campaigns and leads are new.
use argus_os.Prelude.{String}

pub record Company : Type 0 where
  pub company_id : String
  pub name : String
  pub industry : String
  pub website : String
  pub territory : String

pub record Contact : Type 0 where
  pub contact_id : String
  pub company_id : String
  pub first_name : String
  pub last_name : String
  pub email : String
  pub phone : String
  pub title : String

pub record Campaign : Type 0 where
  pub campaign_id : String
  pub name : String

pub record Lead : Type 0 where
  pub lead_id : String
  pub company_id : String
  pub contact_id : String
  pub campaign_id : String
  pub territory : String
  pub source : String
  pub dynamics_record_id : String
  pub notes : String
