-- ===== src/Tests/Catalogue.antt =====
-- The catalogue's forms on concrete texts.
use mooring_line_management.Base.{◌≡◌, refl, String, true, some, none, truthy, trim}
use mooring_line_management.Catalogue.{NameForm, ProductForm, ProductBody, product_request}
use mooring_line_management.Catalogue.Bodies.{IsTidy, IsTidyOption, product_request-IsTidy}

abbrev typed : NameForm
typed = record { name = " Samson "; more = "  " }

abbrev typed_product : ProductForm
typed_product = record {
  maker_id = "m";
  line_type_id = "t";
  product_name = "AmSteel ";
  construction_type = "";
  default_length = "220";
  can_be_turned = true;
  manufacturer_manual_ref = "";
  notes = " strong";
}

abbrev sent_product : ProductBody String
sent_product = record {
  maker_id = "m";
  line_type_id = "t";
  product_name = "AmSteel";
  construction_type = none;
  default_length = some "220";
  can_be_turned = true;
  manufacturer_manual_ref = none;
  notes = some "strong";
}

product_request-IsTidy_example :
    (truthy "m" ≡ true)
    × (truthy "t" ≡ true)
    × IsTidy "AmSteel"
    × IsTidyOption none
    × IsTidyOption none
    × IsTidyOption (some "strong")
unfolding product_request trim
product_request-IsTidy_example = product_request-IsTidy (λ s. s) typed_product sent_product refl
