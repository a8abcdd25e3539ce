-- ===== src/NetHelper/Responses.antt =====
-- What every response carries.
use denim.Prelude.{
  ℕ, ◌≡◌, refl, true, Option, none, some, List, [], ◌∷◌, ◌++◌, arith, Returns, Bool-cases, inl, inr,
}
use denim.Text.{Text, starts_with, codes, decimal}
use denim.NetHelper.{WebSocketMessage, has_content_length, body_length, create_response}

has_content_length-snoc :
    (hs : List Text) (h : Text)
    → starts_with h (codes "Content-Length") ≡ true
    → has_content_length (hs ++ h ∷ []) ≡ true
has_content_length-snoc [] h e = rw e
has_content_length-snoc (x ∷ hs) h e = ground (arith, has_content_length-snoc hs h e)

abbrev pub response_headers : WebSocketMessage → List Text
response_headers m = elim m.response [ none ↦ [] | some r ↦ r.headers ]

-- A response to a status with a canonical reason is always made, and it tells the length of its
-- content, whether or not the given headers do.
pub create_response-has_content_length :
    (canonical_reason : ℕ → Option Text) (id status_code : ℕ) (headers : List Text)
    (body : Option (List ℕ)) (reason : Text)
    → canonical_reason status_code ≡ some reason
    → Returns
        (create_response canonical_reason id status_code headers body)
        λ m. has_content_length (response_headers m) ≡ true
unfolding create_response starts_with
create_response-has_content_length canonical_reason id status_code headers body reason known =
    elim (Bool-cases (has_content_length headers)) [
      | inl given ↦ rw (known, given) given
      | inr missing ↦
          rw (known, missing)
            (has_content_length-snoc headers
              (codes "Content-Length: " ++ decimal (body_length body)) refl)
    ]
