-- ===== src/Forms/Submitting.antt =====
-- What the editor of a monitor submits.
use network_topology_map.Prelude.{
  ◌≡◌, ◌⊎◌, refl, Bool, true, false, not, ◌&&◌, ◌||◌, Option, none, some, List, [], ◌∷◌, Text,
  text_eq, is_some, Bool-cases, inl, inr, arith, All,
}
use network_topology_map.Types.{MonitorRecord, MonitorPayload, icmp, tcp, http}
use network_topology_map.Monitor.Draft.{MonitorDraft, monitor_draft_for, draft_for_monitor_kind}
use network_topology_map.Monitor.Validate.{
  is_http, is_https, validate_monitor_draft, errors_of, has_errors, payload_of,
}
use network_topology_map.Monitor.Sound.{
  IsAcceptable, validate_monitor_draft_sound, validate_clean, validate_dirty,
}
use network_topology_map.Forms.Check.{
  CheckForm, CheckField, chosen_monitor_kind, checked_enabled, typed_target, typed_port,
  chosen_scheme, typed_path, typed_host_header, checked_verify_tls, typed_interval, typed_timeout,
  CheckStep, check_typed, submitted_form, submit_rejected, check_rendered, is_plain, is_enabled,
  assign_check, type_check, save_check, save_rejected, open_check, render_check, check_step,
  check_run, no_errors,
}

-- Certificates are left unverified only by an HTTP check that is not over plain http, and only an
-- HTTP check has a scheme.
abbrev is_coherent : MonitorDraft → Bool
is_coherent d =
    (d.verify_tls || (is_http d.kind && not (is_plain d.scheme)))
    && (is_http d.kind || not (is_some d.scheme))

-- So is a saved monitor.
abbrev pub IsCoherent : {N : Type 0} → Option (MonitorRecord N) → Type 0
IsCoherent none = Unit
IsCoherent (some m) =
    ((m.verify_tls || (is_http m.kind && is_https m.scheme))
      && (is_http m.kind || not (is_some m.scheme)))
    ≡ true

abbrev pub IsCoherentStep : {N : Type 0} → CheckStep N → Type 0
IsCoherentStep (check_rendered monitor ipv4 key) = IsCoherent monitor
IsCoherentStep step = Unit

monitor_draft_for-coherent :
    {N : Type 0} (monitor : Option (MonitorRecord N)) (ipv4 : Option Text)
    → IsCoherent monitor
    → is_coherent (monitor_draft_for monitor ipv4) ≡ true
unfolding monitor_draft_for
monitor_draft_for-coherent none ipv4 h = refl
monitor_draft_for-coherent (some m) ipv4 h = ground arith

assign_check-coherent :
    (field : CheckField) (d : MonitorDraft)
    → is_enabled d field ≡ true
    → is_coherent d ≡ true
    → is_coherent (assign_check field d) ≡ true
unfolding assign_check draft_for_monitor_kind
assign_check-coherent (chosen_monitor_kind icmp) d e h = refl
assign_check-coherent (chosen_monitor_kind tcp) d e h = refl
assign_check-coherent (chosen_monitor_kind http) d e h = ground arith
assign_check-coherent (checked_enabled on) d e h = h
assign_check-coherent (typed_target text) d e h = h
assign_check-coherent (typed_port text) d e h = h
assign_check-coherent (chosen_scheme scheme) d e h = ground arith
assign_check-coherent (typed_path text) d e h = h
assign_check-coherent (typed_host_header text) d e h = h
assign_check-coherent (checked_verify_tls on) d e h = ground arith
assign_check-coherent (typed_interval text) d e h = h
assign_check-coherent (typed_timeout text) d e h = h

type_check-coherent :
    (field : CheckField) (f : CheckForm)
    → is_coherent f.form.draft ≡ true
    → is_coherent (type_check field f).form.draft ≡ true
unfolding type_check
type_check-coherent field f h = elim (Bool-cases (is_enabled f.form.draft field)) [
  | inl e ↦ rw e (assign_check-coherent field f.form.draft e h)
  | inr e ↦ rw e h
]

save_check-draft : (f : CheckForm) → (save_check f).form.draft ≡ f.form.draft
unfolding save_check validate_monitor_draft
save_check-draft f = elim (Bool-cases (has_errors (errors_of f.form.draft))) [
  | inl e ↦ rw e refl
  | inr e ↦ rw e refl
]

check_step-coherent :
    {N : Type 0} (step : CheckStep N) (f : CheckForm)
    → IsCoherentStep step
    → is_coherent f.form.draft ≡ true
    → is_coherent (check_step step f).form.draft ≡ true
unfolding check_step save_rejected render_check
check_step-coherent (check_typed field) f c h = type_check-coherent field f h
check_step-coherent submitted_form f c h = rw (save_check-draft f) h
check_step-coherent (submit_rejected cause) f c h = h
check_step-coherent (check_rendered monitor ipv4 key) f c h =
    elim (Bool-cases (text_eq key f.form.reset_key)) [
      | inl e ↦ rw e h
      | inr e ↦ rw e (monitor_draft_for-coherent monitor ipv4 c)
    ]

check_run-coherent :
    {N : Type 0} (steps : List (CheckStep N)) (f : CheckForm)
    → All IsCoherentStep steps
    → is_coherent f.form.draft ≡ true
    → is_coherent (check_run steps f).form.draft ≡ true
unfolding check_run
check_run-coherent [] f c h = h
check_run-coherent (step ∷ steps) f (c, cs) h =
    check_run-coherent steps (check_step step f) cs (check_step-coherent step f c h)

-- The payload has what the form shows.
pub record Shows (d : MonitorDraft) (p : MonitorPayload) : Type 0 where
  pub kind : p.kind ≡ d.kind
  pub enabled : p.enabled ≡ d.enabled
  pub scheme : p.scheme ≡ d.scheme
  pub verify_tls : p.verify_tls ≡ d.verify_tls

coherent-Shows :
    (d : MonitorDraft)
    → is_coherent d ≡ true
    → has_errors (errors_of d) ≡ false
    → Shows d (payload_of d)
unfolding payload_of errors_of
coherent-Shows d h e = record {
  kind = refl;
  enabled = refl;
  scheme = ground arith;
  verify_tls = ground arith;
}

-- `save` only shows messages, and there is one.
abbrev pub IsHeld : CheckForm → Type 0
IsHeld f =
    (has_errors (errors_of f.form.draft) ≡ true)
    × (save_check f
        ≡ record f { errors = record { by_field = errors_of f.form.draft; form = none } })

-- `save` submits an acceptable payload that has what the form shows.
abbrev pub IsSubmitted : CheckForm → Type 0
IsSubmitted f =
    (p : MonitorPayload) × IsAcceptable p
    × Shows f.form.draft p
    × (save_check f ≡ record f { errors = no_errors; submitted = p ∷ f.submitted })

-- The editor of a monitor, opened on none or on a saved one and then after any typing, saves,
-- rejections and renders, in any order, where only HTTP checks of the saved monitors have a scheme
-- and only https leaves certificates unverified: a save hands over an acceptable payload with the
-- kind, the scheme, the activation and the verification of certificates that the form shows, and
-- clears the messages; or it hands over nothing and shows at least one message.
pub check_run-save_check :
    {N : Type 0} (steps : List (CheckStep N)) (monitor : Option (MonitorRecord N))
    (ipv4 : Option Text) (key : Text)
    → IsCoherent monitor
    → All IsCoherentStep steps
    → let f = check_run steps (open_check monitor ipv4 key) in IsHeld f ⊎ IsSubmitted f
unfolding open_check save_check
check_run-save_check steps monitor ipv4 key h hs =
    let f = check_run steps (open_check monitor ipv4 key) in
    let d = f.form.draft in
    let coherent =
      check_run-coherent steps (open_check monitor ipv4 key) hs
        (monitor_draft_for-coherent monitor ipv4 h) in
    elim (Bool-cases (has_errors (errors_of d))) [
      | inl e ↦ inl (e, rw (validate_dirty d e) refl)
      | inr e ↦
          let v = validate_clean d e in
          inr (
            payload_of d,
            validate_monitor_draft_sound d (payload_of d) v,
            coherent-Shows d coherent e,
            rw v refl,
          )
    ]
