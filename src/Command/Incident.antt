-- ===== src/Command/Incident.antt =====
-- `WorkflowOperationalIncidentService.record`
-- (backend/app/services/workflow_operational_incident_service.py): one row for each category and
-- identity, counted and opened again when it recurs.
use filum_reforge.Base.{ℕ, suc, String, Bool, true, ◌&&◌, List, [], ◌∷◌, ◌==◌, if◌then◌else◌}
use filum_reforge.Value.{merge_fields, Fields}

pub record Incident : Type 0 where
  pub category : String
  pub fingerprint : String
  pub is_open : Bool
  pub severity : String
  pub occurrence_count : ℕ
  pub first_seen_at : ℕ
  pub last_seen_at : ℕ
  pub details : Fields

unfoldable pub reopen : String → ℕ → Fields → Incident → Incident
reopen severity now details incident = record incident {
  is_open = true;
  last_seen_at = now;
  occurrence_count = suc incident.occurrence_count;
  severity = severity;
  details = merge_fields incident.details details;
}

-- The row of this category and fingerprint is reopened, or a new one is added.
unfoldable pub record_incident :
    String → String → String → ℕ → Fields → List Incident → List Incident
record_incident category fingerprint severity now details [] =
    record {
      category = category;
      fingerprint = fingerprint;
      is_open = true;
      severity = severity;
      occurrence_count = 1;
      first_seen_at = now;
      last_seen_at = now;
      details = details;
    }
    ∷ []
record_incident category fingerprint severity now details (incident ∷ incidents) =
    if incident.category == category && incident.fingerprint == fingerprint
    then reopen severity now details incident ∷ incidents
    else incident ∷ record_incident category fingerprint severity now details incidents
