-- ===== src/Forms/Check.antt =====
-- frontend/src/components/MonitorPanel.tsx: the form MonitorEditor. A select or an input that is not
-- shown, or is disabled, does nothing.
use network_topology_map.Prelude.{
  Bool, true, false, not, ◌&&◌, Option, none, some, List, [], ◌∷◌, Text, text_eq, if◌then◌else◌,
}
use network_topology_map.Types.{
  MonitorKind, icmp, tcp, http, HttpScheme, plain_http, MonitorRecord, MonitorPayload,
}
use network_topology_map.Monitor.Draft.{MonitorDraft, monitor_draft_for, draft_for_monitor_kind}
use network_topology_map.Monitor.Validate.{
  MonitorValidationErrors, valid, invalid, MonitorValidation, is_icmp, is_http, is_https,
  validate_monitor_draft,
}
use network_topology_map.Panel.{cause_message}
use network_topology_map.Forms.{Form, mount, update}

-- The messages by field, and the one of the whole form.
pub record CheckErrors : Type 0 where
  pub by_field : MonitorValidationErrors
  pub form : Option Text

-- The editor, beside the payloads that it has handed to `onSubmit`, newest first.
pub record CheckForm : Type 0 where
  pub form : Form MonitorDraft
  pub errors : CheckErrors
  pub submitted : List MonitorPayload

pub data CheckField : Type 0 where
  chosen_monitor_kind : MonitorKind → CheckField
  checked_enabled : Bool → CheckField
  typed_target : Text → CheckField
  typed_port : Text → CheckField
  -- `none` is the option "Choose scheme"
  chosen_scheme : Option HttpScheme → CheckField
  typed_path : Text → CheckField
  typed_host_header : Text → CheckField
  checked_verify_tls : Bool → CheckField
  typed_interval : Text → CheckField
  typed_timeout : Text → CheckField

pub data CheckStep (N : Type 0) : Type 0 where
  check_typed : CheckField → CheckStep N
  submitted_form : CheckStep N
  -- `onSubmit` rejects
  submit_rejected : Option Text → CheckStep N
  -- a render with the props `monitor` and `resetKey`, and the node's address
  check_rendered : Option (MonitorRecord N) → Option Text → Text → CheckStep N

abbrev pub no_field_errors : MonitorValidationErrors
no_field_errors = record {
  target_ipv4 = none;
  interval_seconds = none;
  timeout_seconds = none;
  port = none;
  scheme = none;
  path = none;
  host_header = none;
}

abbrev pub no_errors : CheckErrors
no_errors = record { by_field = no_field_errors; form = none }

abbrev pub is_plain : Option HttpScheme → Bool
is_plain (some plain_http) = true
is_plain _ = false

abbrev pub same_kind : MonitorKind → MonitorKind → Bool
same_kind icmp icmp = true
same_kind tcp tcp = true
same_kind http http = true
same_kind _ _ = false

-- The field is shown and not disabled: `needsPort`, `showHttpFields` and `tlsCanBeDisabled`. A select
-- reports another option than the one it has.
abbrev pub is_enabled : MonitorDraft → CheckField → Bool
is_enabled d (chosen_monitor_kind kind) = not (same_kind d.kind kind)
is_enabled d (typed_port text) = not (is_icmp d.kind)
is_enabled d (chosen_scheme scheme) = is_http d.kind
is_enabled d (typed_path text) = is_http d.kind
is_enabled d (typed_host_header text) = is_http d.kind
is_enabled d (checked_verify_tls on) = is_http d.kind && is_https d.scheme
is_enabled d _ = true

-- what a field does to the draft
unfoldable pub assign_check : CheckField → MonitorDraft → MonitorDraft
assign_check (chosen_monitor_kind kind) d = draft_for_monitor_kind d kind
assign_check (checked_enabled on) d = record d { enabled = on }
assign_check (typed_target text) d = record d { target_ipv4 = text }
assign_check (typed_port text) d = record d { port = text }
assign_check (chosen_scheme scheme) d = record d {
  scheme = scheme;
  verify_tls = if is_plain scheme then true else d.verify_tls;
}
assign_check (typed_path text) d = record d { path = text }
assign_check (typed_host_header text) d = record d { host_header = text }
assign_check (checked_verify_tls on) d = record d { verify_tls = on }
assign_check (typed_interval text) d = record d { interval_seconds = text }
assign_check (typed_timeout text) d = record d { timeout_seconds = text }

-- the messages without the field's
abbrev without : CheckField → MonitorValidationErrors → MonitorValidationErrors
without (chosen_monitor_kind kind) e = no_field_errors
without (checked_enabled on) e = e
without (typed_target text) e = record e { target_ipv4 = none }
without (typed_port text) e = record e { port = none }
without (chosen_scheme scheme) e = record e { scheme = none }
without (typed_path text) e = record e { path = none }
without (typed_host_header text) e = record e { host_header = none }
without (checked_verify_tls on) e = e
without (typed_interval text) e = record e { interval_seconds = none }
without (typed_timeout text) e = record e { timeout_seconds = none }

-- `update`, `changeKind`, and the handler of the scheme
unfoldable pub type_check : CheckField → CheckForm → CheckForm
type_check field f =
    if is_enabled f.form.draft field
    then record f {
      form = update (assign_check field) f.form;
      errors = record { by_field = without field f.errors.by_field; form = none };
    }
    else f

abbrev pub on_validation : MonitorValidation → CheckForm → CheckForm
on_validation (invalid errors) f = record f { errors = record { by_field = errors; form = none } }
on_validation (valid payload) f = record f { errors = no_errors; submitted = payload ∷ f.submitted }

-- `save`, up to its `await`
unfoldable pub save_check : CheckForm → CheckForm
save_check f = on_validation (validate_monitor_draft f.form.draft) f

-- `save`: catch
unfoldable pub save_rejected : Option Text → CheckForm → CheckForm
save_rejected cause f = record f {
  errors = record { by_field = no_field_errors; form = some (cause_message cause) };
}

module _ {N : Type 0} where
  unfoldable pub open_check : Option (MonitorRecord N) → Option Text → Text → CheckForm
  open_check monitor ipv4 key = record {
    form = mount key (monitor_draft_for monitor ipv4);
    errors = no_errors;
    submitted = [];
  }

  -- the effect on `resetKey`
  unfoldable pub render_check :
      Option (MonitorRecord N) → Option Text → Text → CheckForm → CheckForm
  render_check monitor ipv4 key f =
      if text_eq key f.form.reset_key
      then f
      else record f { form = mount key (monitor_draft_for monitor ipv4); errors = no_errors }

  unfoldable pub check_step : CheckStep N → CheckForm → CheckForm
  check_step (check_typed field) f = type_check field f
  check_step submitted_form f = save_check f
  check_step (submit_rejected cause) f = save_rejected cause f
  check_step (check_rendered monitor ipv4 key) f = render_check monitor ipv4 key f

  unfoldable pub check_run : List (CheckStep N) → CheckForm → CheckForm
  check_run [] f = f
  check_run (step ∷ steps) f = check_run steps (check_step step f)
