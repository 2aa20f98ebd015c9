-- ===== src/Client/Rejecting.antt =====
-- With what a request settles.
use network_topology_map.Prelude.{
  ◌≡◌, ◌≢◌, ◌⊎◌, refl, true, false, none, some, [], Bool-cases, Option-cases, inl, inr, arith,
  is_empty, ◌==◌, ==_iff,
}
use network_topology_map.Json.{Json}
use network_topology_map.Errors.{api_error_info}
use network_topology_map.Errors.Messages.{server_message, server_detail, api_error_info_message}
use network_topology_map.Client.Outcome.{
  ApiError, Response, answered, Outcome, resolved, refused, no_json, api_error, settle_response,
  settle_reply,
}

-- The error has the status of the answer, and a message that is not empty, unless the server's own
-- text is.
abbrev pub Explains : Response → ApiError → Type 0
Explains r error =
    (error.status ≡ r.status)
    × ((is_empty error.message ≡ false)
        ⊎ (server_message r.json ≡ some [])
        ⊎ (server_detail r.json ≡ some []))

module _ {C : Type 0} where
  abbrev pub IsRefused : Response → Outcome C → Type 0
  IsRefused r o = (r.ok ≡ false) × ((error : ApiError) × (o ≡ refused error) × Explains r error)

  abbrev pub IsEmptied : Response → Outcome C → Type 0
  IsEmptied r o = (r.ok ≡ true) × (r.status ≡ 204) × (o ≡ resolved none)

  abbrev pub IsRead : Response → Outcome C → Type 0
  IsRead r o =
      (r.ok ≡ true)
      × (r.status ≢ 204)
      × (((value : Json) × (r.json ≡ some value) × (o ≡ resolved (some value)))
          ⊎ ((r.json ≡ none) × (o ≡ no_json)))

-- An answer that is not ok settles a request with an ApiError, which has the answer's status and a
-- message that is not empty, unless the server's own text is, whether the body is JSON or not. An
-- answer that is ok never does: with the status 204 there is no value, and otherwise the value is
-- the body, and a body that is not JSON is an error of its own.
pub settle_reply_lem :
    (C : Type 0) (r : Response)
    → let o : Outcome C = settle_reply (answered r) in IsRefused r o ⊎ IsEmptied r o ⊎ IsRead r o
unfolding settle_reply settle_response
settle_reply_lem C r = elim (Bool-cases r.ok) [
  | inr e ↦ inl (
    e,
    (
      api_error r.status (api_error_info r.json r.status),
      rw e refl,
      (refl, api_error_info_message r.json r.status),
    ),
  )
  | inl e ↦ elim (Bool-cases (r.status == 204)) [
    | inl f ↦ inr (inl (e, (==_iff r.status 204).0 f, rw (e, f) refl))
    | inr f ↦ inr (
        inr (
          e,
          ground (arith, f),
          elim (Option-cases r.json) [
            | inl no_body ↦ inr (no_body, rw (e, f, no_body) refl)
            | inr (value, g) ↦ inl (value, g, rw (e, f, g) refl)
          ],
        ))
  ]
]
