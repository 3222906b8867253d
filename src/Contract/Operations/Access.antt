-- ===== src/Contract/Operations/Access.antt =====
-- web/src/api/schema.ts, `operations`: access, the session, health and the reports on inspections.
use mooring_line_management.Base.{none, some, [], ◌∷◌}
use mooring_line_management.Contract.Shape.{
  Operation, text, number, one_of, named, array_or_null, required, optional,
}

abbrev pub put_access_grant : Operation
put_access_grant = record {
  id = "put-access-grant";
  query = [];
  path = required "groupId" text ∷ [];
  request_body = some (named "Put-access-grantRequest");
  success = 200;
  headers = [];
  answer = some (named "GroupAccess");
  error = named "ErrorModel";
}

abbrev pub delete_access_grant : Operation
delete_access_grant = record {
  id = "delete-access-grant";
  query = [];
  path = required "groupId" text ∷ [];
  request_body = none;
  success = 204;
  headers = [];
  answer = none;
  error = named "ErrorModel";
}

abbrev pub list_access_groups : Operation
list_access_groups = record {
  id = "list-access-groups";
  query = [];
  path = [];
  request_body = none;
  success = 200;
  headers = [];
  answer = some (named "List-access-groupsResponse");
  error = named "ErrorModel";
}

abbrev pub auth_session : Operation
auth_session = record {
  id = "auth-session";
  query = [];
  path = [];
  request_body = none;
  success = 200;
  headers = [];
  answer = some (named "SessionOutputBody");
  error = named "ErrorModel";
}

abbrev pub health : Operation
health = record {
  id = "health";
  query = [];
  path = [];
  request_body = none;
  success = 200;
  headers = [];
  answer = some (named "HealthOutputBody");
  error = named "ErrorModel";
}

abbrev pub insp_ingest : Operation
insp_ingest = record {
  id = "insp-ingest";
  query = [];
  path = [];
  request_body = some (named "InspIngestBody");
  success = 200;
  headers = [];
  answer = some (named "Insp-ingestResponse");
  error = named "ErrorModel";
}

abbrev pub insp_logbook : Operation
insp_logbook = record {
  id = "insp-logbook";
  query = optional "vessel_id" text ∷ optional "limit" number ∷ [];
  path = [];
  request_body = none;
  success = 200;
  headers = [];
  answer = some (array_or_null (named "InspLogbookEntry"));
  error = named "ErrorModel";
}

abbrev pub insp_report : Operation
insp_report = record {
  id = "insp-report";
  query = optional "vessel_id" text ∷ optional "format" (one_of ("pdf" ∷ "csv" ∷ [])) ∷ [];
  path = [];
  request_body = none;
  success = 200;
  headers = optional "Content-Disposition" text ∷ optional "Content-Type" text ∷ [];
  answer = some text;
  error = named "ErrorModel";
}
