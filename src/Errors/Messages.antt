-- ===== src/Errors/Messages.antt =====
-- What the message of a failed request can be.
use network_topology_map.Prelude.{
  ℕ, ◌≡◌, ◌⊎◌, inl, inr, refl, false, Option, none, some, List, [], ◌∷◌, ◌++◌, Text, codes, get_or,
  take, is_empty, arith, Option-cases, All, Bool-cases,
}
use network_topology_map.Json.{Json, get, as_string}
use network_topology_map.Errors.{
  ApiErrorInfo, is_record, as_array, or_else, filled, join, location_of, detail_message,
  detail_messages, with_location, located, joined, message_of, on_error, on_detail, from_text,
  validation_message, details_message, error_branch, api_error_info,
}

-- A text that is not empty.
abbrev Filled : Text → Type 0
Filled t = is_empty t ≡ false

Filled-append : (s t : Text) → Filled t → Filled (s ++ t)
Filled-append [] t h = h
Filled-append (c ∷ s) t h = refl

append-Filled : (s t : Text) → Filled s → Filled (s ++ t)
append-Filled [] t h = cc
append-Filled (c ∷ s) t h = refl

of_some : (a b : Text) → some a ≡ some b → a ≡ b
of_some a b e = cc

with_location-Filled : (l m : Text) → Filled m → Filled (with_location l m)
with_location-Filled [] m h = h
with_location-Filled (c ∷ l) m h = refl

located-Filled : (v : Json) (o : Option Text) (t : Text) → located v (filled o) ≡ some t → Filled t
located-Filled v none t h = cc
located-Filled v (some []) t h = cc
located-Filled v (some (c ∷ m)) t h =
    rw (← of_some (with_location l (c ∷ m)) t h) (with_location-Filled l (c ∷ m) refl)
  where
    l : Text
    l = location_of (as_array (get (codes "loc") v))

detail_message-Filled : (v : Json) (t : Text) → detail_message v ≡ some t → Filled t
unfolding detail_message
detail_message-Filled v t h = elim (Bool-cases (is_record v)) [
  | inl yes_record ↦ located-Filled v (message_of v) t (rw (yes_record, detail_message) at h)
  | inr no_record ↦ absurd (cc (rw (no_record, detail_message) at h))
]

detail_messages-Filled : (vs : List Json) → All Filled (detail_messages vs)
unfolding detail_messages
detail_messages-Filled [] = tt
detail_messages-Filled (v ∷ vs) = elim (Option-cases (detail_message v)) [
  | inl e ↦ rw (e, detail_messages) (detail_messages-Filled vs)
  | inr (t, e) ↦ rw (e, detail_messages) (detail_message-Filled v t e, detail_messages-Filled vs)
]

join-Filled : (sep t : Text) (ts : List Text) → Filled t → Filled (join sep (t ∷ ts))
unfolding join
join-Filled sep t [] h = h
join-Filled sep t (u ∷ ts) h = append-Filled t (sep ++ join sep (u ∷ ts)) h

joined-Filled : (ts : List Text) (m : Text) → All Filled ts → joined ts ≡ some m → Filled m
joined-Filled [] m h e = cc
joined-Filled (t ∷ ts) m h e =
    rw (← of_some (join (codes "; ") (t ∷ ts)) m e) (join-Filled (codes "; ") t ts h.0)

-- A validation message is never empty.
validation_message-Filled : (vs : List Json) (m : Text) → validation_message vs ≡ some m → Filled m
unfolding validation_message
validation_message-Filled vs m =
    joined-Filled (detail_messages (take 3 vs)) m (detail_messages-Filled (take 3 vs))

filled-Filled : (o : Option Text) (m : Text) → filled o ≡ some m → Filled m
filled-Filled none m h = cc
filled-Filled (some t) m h = ground arith

details_message-Filled : (o : Option Json) (m : Text) → details_message o ≡ some m → Filled m
details_message-Filled o m h = elim (Option-cases (as_array o)) [
  | inl e ↦ absurd (ground arith)
  | inr (vs, e) ↦ filled-Filled (validation_message vs) m (rw (e, details_message) at h)
]

-- A result that is not there, is filled, or is the text that was given.
abbrev Explained : Option ApiErrorInfo → Option Text → Type 0
Explained none given = Unit
Explained (some i) given = Filled i.message ⊎ (given ≡ some [])

from_text-Filled :
    (code : Text) (o given : Option Text)
    → ((m : Text) → o ≡ some m → Filled m)
    → Explained (from_text code o) given
from_text-Filled code none given h = tt
from_text-Filled code (some m) given h = inl (h m refl)

from_text-given : (code : Text) (o : Option Text) → Explained (from_text code o) o
from_text-given code none = tt
from_text-given code (some []) = inr refl
from_text-given code (some (c ∷ m)) = inl refl

or_else-Explained :
    (a b : Option ApiErrorInfo) (given : Option Text)
    → Explained a given
    → Explained b given
    → Explained (or_else a b) given
or_else-Explained none b given p q = q
or_else-Explained (some i) b given p q = p

error_branch-Explained :
    (e : Json) → Explained (error_branch e) (as_string (get (codes "message") e))
unfolding error_branch
error_branch-Explained e = elim (Bool-cases (is_record e)) [
  | inr no_record ↦ rw (no_record, error_branch) tt
  | inl yes_record ↦
      rw (yes_record, error_branch)
        (or_else-Explained _ _ (as_string (get (codes "message") e))
          (from_text-Filled _ (details_message (get (codes "details") e)) _
            (details_message-Filled (get (codes "details") e)))
          (from_text-given _ (as_string (get (codes "message") e))))
]

on_detail-Explained : (d : Option Json) → Explained (on_detail d) (as_string d)
on_detail-Explained d =
    or_else-Explained _ _ (as_string d) (from_text-given _ (as_string d))
      (from_text-Filled _ (details_message d) _ (details_message-Filled d))

-- `o.k`, where `o` may be absent
abbrev pub field_of : Option Json → Text → Option Json
field_of none k = none
field_of (some v) k = get k v

-- The texts that the server itself gives as the message.
abbrev pub server_message : Option Json → Option Text
server_message payload = as_string (field_of (field_of payload (codes "error")) (codes "message"))

abbrev pub server_detail : Option Json → Option Text
server_detail payload = as_string (field_of payload (codes "detail"))

on_error-Explained :
    (e : Option Json) → Explained (on_error e) (as_string (field_of e (codes "message")))
on_error-Explained none = tt
on_error-Explained (some e) = error_branch-Explained e

explain :
    (a b : Option ApiErrorInfo) (g d : Option Text) (fallback : ApiErrorInfo)
    → Filled fallback.message
    → Explained a g
    → Explained b d
    → Filled (get_or (or_else a b) fallback).message ⊎ (g ≡ some []) ⊎ (d ≡ some [])
explain none none g d fallback f p q = inl f
explain none (some i) g d fallback f p (inl q) = inl q
explain none (some i) g d fallback f p (inr q) = inr (inr q)
explain (some i) b g d fallback f (inl p) q = inl p
explain (some i) b g d fallback f (inr p) q = inr (inl p)

-- Whatever the body of a failed request is, JSON or not, the message to show is not empty, unless
-- the server's own `error.message` or `detail` is the empty text.
pub api_error_info_message :
    (payload : Option Json) (status : ℕ)
    → (is_empty (api_error_info payload status).message ≡ false)
      ⊎ (server_message payload ≡ some [])
      ⊎ (server_detail payload ≡ some [])
unfolding api_error_info
api_error_info_message none status = inl refl
api_error_info_message (some v) status = elim (Bool-cases (is_record v)) [
  | inr no_record ↦ inl (rw (no_record, api_error_info))
  | inl yes_record ↦
      rw (yes_record, api_error_info)
        (explain (on_error (get (codes "error") v)) (on_detail (get (codes "detail") v)) _ _ _ refl
          (on_error-Explained (get (codes "error") v))
          (on_detail-Explained (get (codes "detail") v)))
]
