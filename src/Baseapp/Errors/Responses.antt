-- ===== src/Baseapp/Errors/Responses.antt =====
-- What the client of a failed request gets.
use go_baseapp.Prelude.{ℕ, ◌≡◌, refl, ◌↔◌, inl, Option, none, some, List, [], ◌∷◌}
use go_baseapp.Text.{Text}
use go_baseapp.Baseapp.Errors.{
  Encoding, Object, WriterCall, write_header, write_json, handle_route_error, ContextErr, canceled,
  no_error, deadline_exceeded, debug,
}

-- The statuses of the headers that the calls write.
pub statuses : List WriterCall → List ℕ
statuses [] = []
statuses (write_header code ∷ calls) = code ∷ statuses calls
statuses (_ ∷ calls) = statuses calls

-- The status of the response to a failed request, if what is written can be marshalled.
unfoldable pub expected_status : ContextErr → Option ℕ → ℕ
expected_status canceled _ = 499
expected_status no_error none = 500
expected_status no_error (some code) = code
expected_status deadline_exceeded none = 500
expected_status deadline_exceeded (some code) = code

write_json-statuses :
    (enc : Encoding) (status : ℕ) (obj : Object)
    → (b : Text) × (enc.marshal obj ≡ inl b)
    → statuses (write_json enc status obj) ≡ status ∷ []
unfolding statuses write_json
write_json-statuses enc status obj (b, e) = rw e refl

-- If every object can be marshalled, the handler writes exactly one header: 499 if the request was
-- canceled, and else the status code of the error's cause, or 500 if it has none. Only a canceled
-- request is logged at debug level: one whose deadline has passed is an error like any other.
pub handle_route_error-statuses :
    (enc : Encoding) (cerr : ContextErr) (cause_status : Option ℕ) (rid : Text)
    → ((obj : Object) → (b : Text) × (enc.marshal obj ≡ inl b))
    → (statuses (handle_route_error enc cerr cause_status rid).0
        ≡ expected_status cerr cause_status ∷ [])
      × (((handle_route_error enc cerr cause_status rid).1 ≡ debug) ↔ (cerr ≡ canceled))
unfolding handle_route_error expected_status
handle_route_error-statuses enc canceled none rid good =
    (write_json-statuses enc _ _ (good _), (λ _. refl, λ _. refl))
handle_route_error-statuses enc canceled (some code) rid good =
    (write_json-statuses enc _ _ (good _), (λ _. refl, λ _. refl))
handle_route_error-statuses enc no_error none rid good =
    (write_json-statuses enc _ _ (good _), (λ h. cc, λ h. cc))
handle_route_error-statuses enc no_error (some code) rid good =
    (write_json-statuses enc _ _ (good _), (λ h. cc, λ h. cc))
handle_route_error-statuses enc deadline_exceeded none rid good =
    (write_json-statuses enc _ _ (good _), (λ h. cc, λ h. cc))
handle_route_error-statuses enc deadline_exceeded (some code) rid good =
    (write_json-statuses enc _ _ (good _), (λ h. cc, λ h. cc))
