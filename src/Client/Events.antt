-- ===== src/Client/Events.antt =====
-- The address of the event stream.
use network_topology_map.Prelude.{
  ℕ, ◌≡◌, refl, sym, ◌∙◌, true, false, some, [], ◌∷◌, ◌++◌, Text, codes, every, All, HasNo,
  first_separator, cancel_front, Option-cases, inl, inr, ◌==◌, arith,
}
use network_topology_map.Monitor.Parse.{is_digit}
use network_topology_map.Monitor.Decimal.{to_string, to_string-digits, to_string-injective}
use network_topology_map.Client.Uri.{encode_uri_component, is_unreserved}
use network_topology_map.Client.Utf8.{IsUnit}
use network_topology_map.Client.Decoding.{
  decode-encode_uri_component, IsComponentUnit, encode_uri_component-units,
}
use network_topology_map.Client.Endpoints.{events_url, slash}

unreserved-ne-slash : (c : ℕ) → IsComponentUnit c → (c == slash) ≡ false
unfolding is_unreserved
unreserved-ne-slash c (inl h) = ground arith
unreserved-ne-slash c (inr h) = ground arith

units-HasNo : (t : Text) → All IsComponentUnit t → HasNo slash t
units-HasNo [] h = refl
units-HasNo (c ∷ t) (hc, h) = ground (arith, unreserved-ne-slash c hc, units-HasNo t h)

digits-IsUnit : (s : Text) → every is_digit s ≡ true → All IsUnit s
unfolding is_digit
digits-IsUnit [] h = tt
digits-IsUnit (c ∷ s) h = (ground arith, digits-IsUnit s (ground arith))

encode-injective :
    (s s' t : Text)
    → All IsUnit s
    → All IsUnit s'
    → encode_uri_component s ≡ some t
    → encode_uri_component s' ≡ some t
    → s ≡ s'
encode-injective s s' t u u' e e' =
    sym (decode-encode_uri_component s t u e) ∙ decode-encode_uri_component s' t u' e'

-- The two components of an address.
record Parts (base : Text) (map_id : Text) (after : ℕ) (url : Text) : Type 0 where
  map : Text
  revision : Text
  of_map : encode_uri_component map_id ≡ some map
  of_revision : encode_uri_component (to_string after) ≡ some revision
  address : url ≡ base ++ (codes "/maps/" ++ (map ++ (codes "/events?after=" ++ revision)))

url-Parts :
    (base map_id : Text) (after : ℕ) (url : Text)
    → events_url base map_id after ≡ some url
    → Parts base map_id after url
unfolding events_url
url-Parts base map_id after url h = elim (Option-cases (encode_uri_component map_id)) [
  | inl lone ↦ absurd (ground arith)
  | inr (m, e) ↦ elim (Option-cases (encode_uri_component (to_string after))) [
    | inl lone ↦ absurd (ground arith)
    | inr (r, f) ↦ record {
      map = m;
      revision = r;
      of_map = e;
      of_revision = f;
      address = ground (arith, e, f);
    }
  ]
]

-- Two addresses of event streams are equal only if the maps and the revisions are, whatever UTF-16
-- units the identifiers have.
pub events_url-injective :
    (base id id' : Text) (after after' : ℕ) (url : Text)
    → All IsUnit id
    → All IsUnit id'
    → events_url base id after ≡ some url
    → events_url base id' after' ≡ some url
    → (id ≡ id') × (after ≡ after')
events_url-injective base id id' after after' url u u' h h' =
    let p = url-Parts base id after url h in
    let q = url-Parts base id' after' url h' in
    let tails =
      cancel_front (codes "/maps/") _ _ (cancel_front base _ _ (sym p.address ∙ q.address)) in
    let (maps, rest) =
      first_separator slash p.map q.map _ _
        (units-HasNo p.map (encode_uri_component-units id p.map u p.of_map))
        (units-HasNo q.map (encode_uri_component-units id' q.map u' q.of_map)) tails in
    let revisions = cancel_front (codes "events?after=") p.revision q.revision rest in
    let digits = λ (n : ℕ). digits-IsUnit (to_string n) (to_string-digits n) in
    (
      encode-injective id id' q.map u u' (rw maps at p.of_map) q.of_map,
      to_string-injective after after' (
          encode-injective (to_string after) (to_string after') q.revision (digits after)
            (digits after') (rw revisions at p.of_revision) q.of_revision),
    )
