-- ===== src/Service/Inputs.antt =====
-- backend/app/service/commands.py: what a request carries.

use recurring_service_platfo.Base.{ℕ, Option}
use recurring_service_platfo.Core.Date.{Date}
use recurring_service_platfo.Core.Text.{Text}
use recurring_service_platfo.Core.Money.{PyValue}
use recurring_service_platfo.Models.{ServiceKind, Source, InputMethod}

pub record RecordServiceInput : Type 0 where
  pub customer_id : ℕ
  pub kind : ServiceKind
  pub quantity : Option PyValue
  pub service_date : Option Date
  pub input_method : InputMethod
  pub source : Source

pub record CorrectServiceInput : Type 0 where
  pub quantity : Option PyValue
  pub reason : Option Text
  pub kind : ServiceKind
  pub input_method : InputMethod
  pub source : Source

pub record VoidServiceInput : Type 0 where
  pub reason : Option Text
  pub source : Source
