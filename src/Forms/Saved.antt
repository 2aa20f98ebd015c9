-- ===== src/Forms/Saved.antt =====
-- What a node's form saves, and what its picker offers.
use network_topology_map.Prelude.{
  ℕ, zero, suc, ◌≡◌, ◌≤◌, ◌⊎◌, refl, true, false, Option, none, some, List, [], ◌∷◌, Text, codes,
  text_eq_iff, trim, trim_idem, is_empty, Bool-cases, Option-cases, inl, inr, arith, All, take,
  length,
}
use network_topology_map.Types.{NodePayload}
use network_topology_map.Icon.{matching_icons, is_supported_icon_id}
use network_topology_map.Icon.Lookup.{matching_icons-supported}
use network_topology_map.Forms.{trimmed}
use network_topology_map.Forms.Node.{
  ParsedUrl, is_web_address, port_or_null, is_valid_hyperlink, saved_node, can_save_node,
  icon_matches,
}

-- A text without spaces around it that is not empty.
abbrev pub IsTidy : Text → Type 0
IsTidy text = (trim text ≡ text) × (is_empty text ≡ false)

abbrev pub IsTidyOrNone : Option Text → Type 0
IsTidyOrNone none = Unit
IsTidyOrNone (some text) = IsTidy text

-- An address of the web without credentials.
pub record IsWeb (parse : Text → Option ParsedUrl) (address : Text) : Type 0 where
  pub url : ParsedUrl
  pub parsed : parse address ≡ some url
  pub protocol : (url.protocol ≡ codes "http:") ⊎ (url.protocol ≡ codes "https:")
  pub hostname : is_empty url.hostname ≡ false
  pub username : is_empty url.username ≡ true
  pub password : is_empty url.password ≡ true

abbrev pub IsWebOrNone : (Text → Option ParsedUrl) → Option Text → Type 0
IsWebOrNone parse none = Unit
IsWebOrNone parse (some address) = IsWeb parse address

trimmed-IsTidyOrNone : (o : Option Text) → IsTidyOrNone (trimmed o)
trimmed-IsTidyOrNone none = tt
trimmed-IsTidyOrNone (some text) = elim (Bool-cases (is_empty (trim text))) [
  | inl e ↦ rw e tt
  | inr e ↦ rw e (trim_idem text, e)
]

trimmed_idem : (o : Option Text) → trimmed (trimmed o) ≡ trimmed o
trimmed_idem none = refl
trimmed_idem (some text) = elim (Bool-cases (is_empty (trim text))) [
  | inl e ↦ rw e refl
  | inr e ↦ rw (e, trim_idem text, e) refl
]

web :
    (parse : Text → Option ParsedUrl) (address : Text) (u : ParsedUrl)
    → parse address ≡ some u
    → is_web_address (some u) ≡ true
    → IsWeb parse address
web parse address u f h = record {
  url = u;
  parsed = f;
  protocol =
      ground
        (arith, text_eq_iff u.protocol (codes "http:"), text_eq_iff u.protocol (codes "https:"));
  hostname = ground arith;
  username = ground arith;
  password = ground arith;
}

port_idem : (port : Option ℕ) → port_or_null (port_or_null port) ≡ port_or_null port
port_idem none = refl
port_idem (some port) = ground arith

valid-IsWebOrNone :
    (parse : Text → Option ParsedUrl) (o : Option Text)
    → is_valid_hyperlink parse o ≡ true
    → IsWebOrNone parse (trimmed o)
unfolding is_valid_hyperlink
valid-IsWebOrNone parse none h = tt
valid-IsWebOrNone parse (some text) h = elim (Bool-cases (is_empty (trim text))) [
  | inl e ↦ rw e tt
  | inr e ↦ rw e (elim (Option-cases (parse (trim text))) [
    | inl refused ↦ absurd (ground (arith, e, refused))
    | inr (u, f) ↦ web parse (trim text) u f (ground (arith, e, f))
  ])
]

valid_idem :
    (parse : Text → Option ParsedUrl) (o : Option Text)
    → is_valid_hyperlink parse o ≡ true
    → is_valid_hyperlink parse (trimmed o) ≡ true
unfolding is_valid_hyperlink
valid_idem parse none h = refl
valid_idem parse (some text) h = elim (Bool-cases (is_empty (trim text))) [
  | inl e ↦ rw e refl
  | inr e ↦ rw (e, trim_idem text, e) (ground (arith, e))
]

-- Where the form lets a node be saved, the payload has a name without spaces around it that is not
-- empty, an icon that is supported, and for the address in the network and the link nothing or a text
-- without spaces around it; the link is then an address of the web with a host and no credentials.
-- A draft with these fields can be saved again, and saves them unchanged.
pub can_save_node_lem :
    {N : Type 0} (parse : Text → Option ParsedUrl) (base : Text) (draft : NodePayload N)
    → can_save_node parse base false draft ≡ true
    → let p = saved_node draft in
      IsTidy p.name
      × (is_supported_icon_id base p.icon_id ≡ true)
      × IsTidyOrNone p.ipv4
      × IsTidyOrNone p.hyperlink
      × IsWebOrNone parse p.hyperlink
      × (can_save_node parse base false p ≡ true)
      × (saved_node p ≡ p)
unfolding can_save_node saved_node
can_save_node_lem parse base draft h = (
  (trim_idem draft.name, ground arith),
  ground arith,
  trimmed-IsTidyOrNone draft.ipv4,
  trimmed-IsTidyOrNone draft.hyperlink,
  valid-IsWebOrNone parse draft.hyperlink (ground arith),
  rw (trim_idem draft.name) (ground (arith, valid_idem parse draft.hyperlink)),
  rw
      (
        trim_idem draft.name,
        trimmed_idem draft.hyperlink,
        trimmed_idem draft.ipv4,
        port_idem draft.display_port,
      )
      refl,
)

length-take_le : {A : Type 0} (n : ℕ) (xs : List A) → length (take n xs) ≤ n
length-take_le zero xs = ground arith
length-take_le (suc n) [] = ground arith
length-take_le (suc n) (x ∷ xs) = ground (arith, length-take_le n xs)

take-All : {A : Type 0} (P : A → Type 0) (n : ℕ) (xs : List A) → All P xs → All P (take n xs)
take-All P zero xs h = tt
take-All P (suc n) [] h = tt
take-All P (suc n) (x ∷ xs) (h, hs) = (h, take-All P n xs hs)

-- The picker offers six icons at most, whatever is typed, and each of them is supported.
pub icon_matches_lem :
    {N : Type 0} (lower : Text → Text) (base : Text) (draft : NodePayload N)
    → (length (icon_matches lower base draft) ≤ 6)
      × All (λ icon. is_supported_icon_id base icon.id ≡ true) (icon_matches lower base draft)
unfolding icon_matches
icon_matches_lem lower base draft = (
  length-take_le 6 (matching_icons base lower draft.icon_id),
  take-All _ 6 _ (matching_icons-supported base lower draft.icon_id),
)
