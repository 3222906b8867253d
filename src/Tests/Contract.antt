-- ===== src/Tests/Contract.antt =====
-- The contract with the API on concrete requests.
use mooring_line_management.Base.{ℕ, ◌≡◌, refl, String, none, some, All}
use mooring_line_management.Deck.Session.{run, initial}
use mooring_line_management.Deck.Save.{winch_body, save_request}
use mooring_line_management.Api.Http.{resolved}
use mooring_line_management.Register.Add.{submit}
use mooring_line_management.Files.{PhotoForm, PhotoBody, photo_request}
use mooring_line_management.Contract.Requests.{Request, file_request, FileRequest}
use mooring_line_management.Contract.HttpCalls.{call, raw, file_call}
use mooring_line_management.Contract.Calls.{IsDeclared}
use mooring_line_management.Contract.Saves.{SaveConforms, run-SaveConforms}
use mooring_line_management.Contract.Submissions.{
  request_of, submit-IsDeclared, photo_request-IsDeclared,
}
use mooring_line_management.Tests.Thousandths.{thousandths}
use mooring_line_management.Tests.Deck.{editing}
use mooring_line_management.Tests.Register.{metres, filled, occupied_drum}

abbrev as_it_is : String → String
as_it_is s = s

abbrev port_photo : PhotoBody
port_photo = record {
  file_base64 = "AAAA";
  content_type = some "image/png";
  taken_at = none;
  side = some "A";
  condition_at_capture = some "Good";
}

abbrev upload : Request ℕ
upload = file_request (FileRequest.upload_photo "l1" port_photo)

address-file_call-upload :
    (file_call {N = ℕ} (FileRequest.upload_photo "l1" port_photo)).address
    ≡ raw "/api/lines/l1/photos"
unfolding file_call
address-file_call-upload = refl

run-SaveConforms_example : SaveConforms (save_request (run editing initial))
unfolding winch_body
run-SaveConforms_example = run-SaveConforms editing (
  (
    (
      record { station = refl; drive_type = refl; orientation = refl },
      (record { station = refl; drive_type = refl; orientation = refl }, tt),
    ),
    (refl, tt),
  ),
  (tt, (tt, (tt, (tt, (tt, tt))))),
)

submit-IsDeclared_example :
    All
      (λ c. IsDeclared (call as_it_is (request_of "v" c)))
      (submit metres (some "d1") filled (resolved "l9") occupied_drum).calls
submit-IsDeclared_example =
    submit-IsDeclared as_it_is "v" metres (some "d1") filled (resolved "l9") occupied_drum

abbrev photo_form : PhotoForm
photo_form = record {
  file = some (record { name = "p.png"; content_type = "image/png"; read = resolved "data:,AAAA" });
  side = "A";
  condition = "Good";
  taken_at = "";
}

photo_request-IsDeclared_example :
    IsDeclared {N = ℕ} (call as_it_is (file_request (FileRequest.upload_photo "l1" port_photo)))
unfolding photo_request
photo_request-IsDeclared_example =
    photo_request-IsDeclared ℕ as_it_is "l1" photo_form port_photo refl refl refl
