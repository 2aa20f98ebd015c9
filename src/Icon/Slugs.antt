-- ===== src/Icon/Slugs.antt =====
-- The identifiers that the two patterns accept, and the addresses they stand for.
use network_topology_map.Prelude.{
  ℕ, ◌≡◌, ◌↔◌, refl, ap, sym, ◌∙◌, Bool, true, false, not, none, some, [], ◌∷◌, ◌++◌, Text, codes,
  arith, All, drop, length, starts_with, if◌then◌else◌, Bool-cases, inl, inr, ◌⊎◌,
}
use network_topology_map.Icon.{
  is_word_unit, is_slug_from, matches, mdi, si, is_remote_mdi_icon_id, is_remote_si_icon_id,
  remote_mdi_asset_url, remote_si_asset_url,
}

abbrev pub IsWordUnit : ℕ → Type 0
IsWordUnit c = is_word_unit c ≡ true

-- Words of the units a-z and 0-9, none empty, joined by single dashes.
pub data Slug : Text → Type 0 where
  word : (c : ℕ) → IsWordUnit c → Slug (c ∷ [])
  longer : (c : ℕ) {s : Text} → IsWordUnit c → Slug s → Slug (c ∷ s)
  joined : (c : ℕ) {s : Text} → IsWordUnit c → Slug s → Slug (c ∷ b'-' ∷ s)

dash_unit : is_word_unit b'-' ≡ false
unfolding is_word_unit
dash_unit = refl

slug_complete : {s : Text} → Slug s → (fresh : Bool) → is_slug_from fresh s ≡ true
unfolding is_slug_from
slug_complete (word c w) fresh = rw w
slug_complete (longer c w s) fresh = rw w (slug_complete s false)
slug_complete (joined c w s) fresh = rw (w, dash_unit) (slug_complete s true)

dashed : (c d : ℕ) (s : Text) → d ≡ b'-' → Slug (c ∷ b'-' ∷ s) → Slug (c ∷ d ∷ s)
dashed c d s e h = rw e h

mutual
  unfolding is_slug_from

  slug_sound : (s : Text) → is_slug_from true s ≡ true → Slug s
  slug_sound [] h = absurd (cc)
  slug_sound (c ∷ s) h = elim (Bool-cases (is_word_unit c)) [
    | inl w ↦ slug_after c s w (ground arith)
    | inr n ↦ absurd (ground arith)
  ]

  slug_after : (c : ℕ) (s : Text) → IsWordUnit c → is_slug_from false s ≡ true → Slug (c ∷ s)
  slug_after c [] w h = word c w
  slug_after c (d ∷ s) w h = elim (Bool-cases (is_word_unit d)) [
    | inl v ↦ longer c w (slug_after d s v (ground arith))
    | inr n ↦ dashed c d s (ground arith) (joined c w (slug_sound s (ground arith)))
  ]

split_prefix : (p s : Text) → starts_with p s ≡ true → p ++ drop (length p) s ≡ s
unfolding starts_with
split_prefix [] s h = refl
split_prefix (c ∷ p) [] h = absurd (cc)
split_prefix (c ∷ p) (d ∷ s) h = ground (arith, split_prefix p s)

starts_with-append : (p s : Text) → starts_with p (p ++ s) ≡ true
unfolding starts_with
starts_with-append [] s = refl
starts_with-append (c ∷ p) s = ground (arith, starts_with-append p s)

drop-append : (p s : Text) → drop (length p) (p ++ s) ≡ s
drop-append [] s = refl
drop-append (c ∷ p) s = drop-append p s

matches_sound : (p id : Text) → matches p id ≡ true → (s : Text) × (id ≡ p ++ s) × Slug s
unfolding matches
matches_sound p id h = (
  drop (length p) id,
  sym (split_prefix p id (ground arith)),
  slug_sound (drop (length p) id) (ground arith),
)

matches_complete : (p s : Text) → Slug s → matches p (p ++ s) ≡ true
unfolding matches
matches_complete p s h = rw (starts_with-append p s, drop-append p s) (slug_complete h true)

-- The two patterns accept exactly their prefix with a slug behind it: words of a-z and 0-9, none
-- empty, joined by single dashes.
pub is_remote_icon_id_iff :
    (id : Text)
    → ((is_remote_mdi_icon_id id ≡ true) ↔ ((s : Text) × (id ≡ mdi ++ s) × Slug s))
      × ((is_remote_si_icon_id id ≡ true) ↔ ((s : Text) × (id ≡ si ++ s) × Slug s))
unfolding is_remote_mdi_icon_id is_remote_si_icon_id
is_remote_icon_id_iff id = (
  (matches_sound mdi id, λ t. rw t.1 (matches_complete mdi t.0 t.2)),
  (matches_sound si id, λ t. rw t.1 (matches_complete si t.0 t.2)),
)

-- a-z, 0-9 or a dash
abbrev pub IsSlugUnit : ℕ → Type 0
IsSlugUnit c = IsWordUnit c ⊎ (c ≡ b'-')

slug_units : {s : Text} → Slug s → All IsSlugUnit s
slug_units (word c w) = (inl w, tt)
slug_units (longer c w s) = (inl w, slug_units s)
slug_units (joined c w s) = (inl w, (inr refl, slug_units s))

-- The trusted address: the fixed host and collection, a slug, and the fixed colour.
pub record IsTrusted (collection prefix id url : Text) : Type 0 where
  pub slug : Text
  pub of_id : id ≡ prefix ++ slug
  pub units : All IsSlugUnit slug
  pub address : url ≡ collection ++ (slug ++ codes ".svg?color=%2379cde3")

of_some : (a b : Text) → some a ≡ some b → b ≡ a
of_some a b e = cc

url-IsTrusted :
    (collection p id url : Text)
    → (if not (matches p id)
        then none
        else some (collection ++ (drop (length p) id ++ codes ".svg?color=%2379cde3")))
      ≡ some url
    → IsTrusted collection p id url
url-IsTrusted collection p id url h = elim (Bool-cases (matches p id)) [
  | inr bad ↦ absurd (ground arith)
  | inl good ↦
      let (s, e, slug) = matches_sound p id good in
      record {
        slug = s;
        of_id = e;
        units = slug_units slug;
        address =
            of_some _ _ (rw good at h)
            ∙ ap (λ (t : Text). collection ++ (t ++ codes ".svg?color=%2379cde3"))
                (ap (drop (length p)) e ∙ drop-append p s);
      }
]

-- An identifier that has a remote address has the trusted one: whatever was saved, it contributes
-- only a slug of a-z, 0-9 and dashes, and so cannot change the host, the path or the query.
pub remote_asset_url-IsTrusted :
    (id url : Text)
    → (remote_mdi_asset_url id ≡ some url
        → IsTrusted (codes "https://api.iconify.design/mdi/") mdi id url)
      × (remote_si_asset_url id ≡ some url
          → IsTrusted (codes "https://api.iconify.design/simple-icons/") si id url)
unfolding remote_mdi_asset_url remote_si_asset_url is_remote_mdi_icon_id is_remote_si_icon_id
remote_asset_url-IsTrusted id url = (
  url-IsTrusted (codes "https://api.iconify.design/mdi/") mdi id url,
  url-IsTrusted (codes "https://api.iconify.design/simple-icons/") si id url,
)
