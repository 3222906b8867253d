-- ===== src/Contract/Operations/Fleet.antt =====
-- web/src/api/schema.ts, `operations`: the catalogue and the vessels.
use mooring_line_management.Base.{none, some, [], ◌∷◌}
use mooring_line_management.Contract.Shape.{
  Operation, text, number, one_of, named, array_or_null, required, optional,
}

abbrev pub list_line_types : Operation
list_line_types = record {
  id = "list-line-types";
  query = [];
  path = [];
  request_body = none;
  success = 200;
  headers = [];
  answer = some (array_or_null (named "LineType"));
  error = named "ErrorModel";
}

abbrev pub create_line_type : Operation
create_line_type = record {
  id = "create-line-type";
  query = [];
  path = [];
  request_body = some (named "Create-line-typeRequest");
  success = 201;
  headers = [];
  answer = some (named "LineType");
  error = named "ErrorModel";
}

abbrev pub list_makers : Operation
list_makers = record {
  id = "list-makers";
  query = [];
  path = [];
  request_body = none;
  success = 200;
  headers = [];
  answer = some (array_or_null (named "Maker"));
  error = named "ErrorModel";
}

abbrev pub create_maker : Operation
create_maker = record {
  id = "create-maker";
  query = [];
  path = [];
  request_body = some (named "Create-makerRequest");
  success = 201;
  headers = [];
  answer = some (named "Maker");
  error = named "ErrorModel";
}

abbrev pub list_products : Operation
list_products = record {
  id = "list-products";
  query = optional "maker_id" text ∷ optional "line_type_id" text ∷ [];
  path = [];
  request_body = none;
  success = 200;
  headers = [];
  answer = some (array_or_null (named "Product"));
  error = named "ErrorModel";
}

abbrev pub create_product : Operation
create_product = record {
  id = "create-product";
  query = [];
  path = [];
  request_body = some (named "Create-productRequest");
  success = 201;
  headers = [];
  answer = some (named "Product");
  error = named "ErrorModel";
}

abbrev pub get_product : Operation
get_product = record {
  id = "get-product";
  query = [];
  path = required "id" text ∷ [];
  request_body = none;
  success = 200;
  headers = [];
  answer = some (named "Product");
  error = named "ErrorModel";
}

abbrev pub list_vessels : Operation
list_vessels = record {
  id = "list-vessels";
  query = [];
  path = [];
  request_body = none;
  success = 200;
  headers = [];
  answer = some (array_or_null (named "Vessel"));
  error = named "ErrorModel";
}

abbrev pub create_vessel : Operation
create_vessel = record {
  id = "create-vessel";
  query = [];
  path = [];
  request_body = some (named "Create-vesselRequest");
  success = 201;
  headers = [];
  answer = some (named "Vessel");
  error = named "ErrorModel";
}

abbrev pub get_vessel : Operation
get_vessel = record {
  id = "get-vessel";
  query = [];
  path = required "vessel_id" text ∷ [];
  request_body = none;
  success = 200;
  headers = [];
  answer = some (named "Vessel");
  error = named "ErrorModel";
}

abbrev pub get_layout : Operation
get_layout = record {
  id = "get-layout";
  query = [];
  path = required "vessel_id" text ∷ [];
  request_body = none;
  success = 200;
  headers = [];
  answer = some (named "Layout");
  error = named "ErrorModel";
}

abbrev pub save_layout : Operation
save_layout = record {
  id = "save-layout";
  query = [];
  path = required "vessel_id" text ∷ [];
  request_body = some (named "Save-layoutRequest");
  success = 200;
  headers = [];
  answer = some (named "Layout");
  error = named "ErrorModel";
}

abbrev pub list_lines : Operation
list_lines = record {
  id = "list-lines";
  query =
      optional "line_type_id" text
      ∷ optional "condition" (one_of ("Good" ∷ "Monitor" ∷ "Action" ∷ []))
      ∷ optional "placement" (one_of ("installed" ∷ "spare" ∷ []))
      ∷ optional "q" text
      ∷ optional "limit" number
      ∷ optional "offset" number
      ∷ [];
  path = required "vessel_id" text ∷ [];
  request_body = none;
  success = 200;
  headers = [];
  answer = some (named "List-linesResponse");
  error = named "ErrorModel";
}

abbrev pub register_line : Operation
register_line = record {
  id = "register-line";
  query = [];
  path = required "vessel_id" text ∷ [];
  request_body = some (named "LineBody");
  success = 201;
  headers = [];
  answer = some (named "Line");
  error = named "ErrorModel";
}

abbrev pub over_get : Operation
over_get = record {
  id = "over-get";
  query = [];
  path = required "vessel_id" text ∷ [];
  request_body = none;
  success = 200;
  headers = [];
  answer = some (named "Overview");
  error = named "ErrorModel";
}
