-- ===== src/Contract/Operations/Lines.antt =====
-- web/src/api/schema.ts, `operations`: one line and its files.
use mooring_line_management.Base.{none, some, [], ◌∷◌}
use mooring_line_management.Contract.Shape.{Operation, text, named, array_or_null, required}

abbrev pub get_line : Operation
get_line = record {
  id = "get-line";
  query = [];
  path = required "id" text ∷ [];
  request_body = none;
  success = 200;
  headers = [];
  answer = some (named "Line");
  error = named "ErrorModel";
}

abbrev pub file_add_cert : Operation
file_add_cert = record {
  id = "file-add-cert";
  query = [];
  path = required "id" text ∷ [];
  request_body = some (named "File-add-certRequest");
  success = 201;
  headers = [];
  answer = some (named "FileDoc");
  error = named "ErrorModel";
}

abbrev pub add_component : Operation
add_component = record {
  id = "add-component";
  query = [];
  path = required "id" text ∷ [];
  request_body = some (named "LineBody");
  success = 201;
  headers = [];
  answer = some (named "Line");
  error = named "ErrorModel";
}

abbrev pub file_list : Operation
file_list = record {
  id = "file-list";
  query = [];
  path = required "id" text ∷ [];
  request_body = none;
  success = 200;
  headers = [];
  answer = some (array_or_null (named "FileDoc"));
  error = named "ErrorModel";
}

abbrev pub insp_list : Operation
insp_list = record {
  id = "insp-list";
  query = [];
  path = required "id" text ∷ [];
  request_body = none;
  success = 200;
  headers = [];
  answer = some (array_or_null (named "Inspection"));
  error = named "ErrorModel";
}

abbrev pub insp_log : Operation
insp_log = record {
  id = "insp-log";
  query = [];
  path = required "id" text ∷ [];
  request_body = some (named "InspLogBody");
  success = 201;
  headers = [];
  answer = some (named "Inspection");
  error = named "ErrorModel";
}

abbrev pub move_line : Operation
move_line = record {
  id = "move-line";
  query = [];
  path = required "id" text ∷ [];
  request_body = some (named "Move-lineRequest");
  success = 200;
  headers = [];
  answer = some (named "Line");
  error = named "ErrorModel";
}

abbrev pub file_list_photos : Operation
file_list_photos = record {
  id = "file-list-photos";
  query = [];
  path = required "id" text ∷ [];
  request_body = none;
  success = 200;
  headers = [];
  answer = some (array_or_null (named "FilePhoto"));
  error = named "ErrorModel";
}

abbrev pub file_add_photo : Operation
file_add_photo = record {
  id = "file-add-photo";
  query = [];
  path = required "id" text ∷ [];
  request_body = some (named "File-add-photoRequest");
  success = 201;
  headers = [];
  answer = some (named "FilePhoto");
  error = named "ErrorModel";
}

abbrev pub turn_line : Operation
turn_line = record {
  id = "turn-line";
  query = [];
  path = required "id" text ∷ [];
  request_body = some (named "TurnBody");
  success = 200;
  headers = [];
  answer = some (named "Line");
  error = named "ErrorModel";
}

abbrev pub file_del_photo : Operation
file_del_photo = record {
  id = "file-del-photo";
  query = [];
  path = required "id" text ∷ [];
  request_body = none;
  success = 204;
  headers = [];
  answer = none;
  error = named "ErrorModel";
}
