-- ===== src/ToolCalls/Mrtr.antt =====
-- src/vyuu_gateway/mcp/mrtr.py: which input-required rounds of an upstream are let through. `str.lower`,
-- `repr` and the host name that `urlparse` finds are parameters.
use vyuu_mcp_gateway.Prelude.{
  ◌≡◌, ◌≢◌, ◌↔◌, ◌⊎◌, refl, ap, ◌∙◌, inl, inr, Bool, true, false, not, ◌&&◌, ◌||◌, String, str_eq,
  str_eq_iff, Option, none, some, is_some, List, [], ◌∷◌, map, any, any_sound, any_complete, all,
  Memᴰ, arith, if◌then◌else◌, Bool-cases, Option-cases,
}
use vyuu_mcp_gateway.Prelude.Text.{
  strip, lstrip_dots, ends_with, ends_with_sound, ends_with_complete,
}
use Prim.Native.String.{◌++◌ as append}
use vyuu_mcp_gateway.ToolCalls.{MrtrDecision}

pub data InputRequestKind : Type 0 where
  sampling roots elicit_form elicit_url unrecognised : InputRequestKind

abbrev kind_value : InputRequestKind → String
kind_value sampling = "sampling"
kind_value roots = "roots"
kind_value elicit_form = "elicit_form"
kind_value elicit_url = "elicit_url"
kind_value unrecognised = "unknown"

abbrev pub same_kind : InputRequestKind → InputRequestKind → Bool
same_kind sampling sampling = true
same_kind roots roots = true
same_kind elicit_form elicit_form = true
same_kind elicit_url elicit_url = true
same_kind unrecognised unrecognised = true
same_kind _ _ = false

-- An entry of the request map: the texts that are read of it.
pub record InputRequest : Type 0 where
  pub request_id : String
  pub method : Option String
  pub mode : Option String
  pub url : Option String

pub record ClassifiedInputRequest : Type 0 where
  pub request_id : String
  pub kind : InputRequestKind
  pub url : Option String

pub record MrtrPolicy : Type 0 where
  pub allowed_kinds : List InputRequestKind
  pub allowed_elicit_url_hosts : List String

abbrev is_text : String → Option String → Bool
is_text t none = false
is_text t (some s) = str_eq s t

-- `_METHOD_TO_KIND.get(method, UNKNOWN)`, and the split of the elicitations by their mode.
pub kind_of : Option String → Option String → InputRequestKind
kind_of method mode =
    if is_text "sampling/createMessage" method
    then sampling
    else if is_text "roots/list" method
    then roots
    else if is_text "elicitation/create" method
    then (if is_text "url" mode then elicit_url else elicit_form)
    else unrecognised

abbrev pub classify : InputRequest → ClassifiedInputRequest
classify r =
    let kind = kind_of r.method r.mode in
    record {
      request_id = r.request_id;
      kind = kind;
      url = if same_kind kind elicit_url then r.url else none;
    }

unfoldable pub classify_input_requests : List InputRequest → List ClassifiedInputRequest
classify_input_requests requests = map classify requests

abbrev is_nil : List String → Bool
is_nil [] = true
is_nil (_ ∷ _) = false

abbrev or_empty : Option String → String
or_empty none = ""
or_empty (some s) = s

abbrev none_if_empty : String → Option String
none_if_empty s = if str_eq s "" then none else some s

module _ (lower repr : String → String) (hostname : String → Option String) where
  -- The property `url_host`.
  abbrev pub url_host : ClassifiedInputRequest → Option String
  url_host r =
      if str_eq (or_empty r.url) ""
      then none
      else none_if_empty (lower (or_empty (hostname (or_empty r.url))))

  -- `entry.strip().lower().lstrip(".")`
  abbrev pub candidate : String → String
  candidate entry = lstrip_dots (lower (strip entry))

  abbrev pub matches : String → String → Bool
  matches host entry =
      not (str_eq (candidate entry) "")
      && (str_eq host (candidate entry) || ends_with host (append "." (candidate entry)))

  unfoldable pub _host_allowed : String → List String → Bool
  _host_allowed host entries = any (matches host) entries

  host_refused : MrtrPolicy → Option String → Option String
  host_refused policy none = some "url elicitation with no parseable host"
  host_refused policy (some host) =
      if _host_allowed host policy.allowed_elicit_url_hosts
      then none
      else some (append "url elicitation host " (append (repr host) " is not allowed"))

  -- `permits`: the reason, if it denies.
  unfoldable pub permits : MrtrPolicy → ClassifiedInputRequest → Option String
  unfolding host_refused
  permits policy r =
      if same_kind r.kind unrecognised
      then some "unrecognised input-request method"
      else if not (any (same_kind r.kind) policy.allowed_kinds)
      then some (append (kind_value r.kind) " input requests are not enabled")
      else if same_kind r.kind elicit_url && not (is_nil policy.allowed_elicit_url_hosts)
      then host_refused policy (url_host r)
      else none

  unfoldable pub reasons : MrtrPolicy → List ClassifiedInputRequest → List String
  reasons policy [] = []
  reasons policy (r ∷ rs) =
      let rest = reasons policy rs in
      elim (permits policy r) [
        | none ↦ rest
        | some reason ↦ append r.request_id (append ": " reason) ∷ rest
      ]

  abbrev ruled : MrtrPolicy → List ClassifiedInputRequest → MrtrDecision
  ruled policy [] = record {
    allowed = false;
    denied_reasons = "input-required round carried no input requests" ∷ [];
    kinds = [];
  }
  ruled policy (r ∷ rs) = record {
    allowed = is_nil (reasons policy (r ∷ rs));
    denied_reasons = reasons policy (r ∷ rs);
    kinds = map (λ q. kind_value q.kind) (r ∷ rs);
  }

  unfoldable pub evaluate_input_requests : MrtrPolicy → List InputRequest → MrtrDecision
  unfolding classify_input_requests
  evaluate_input_requests policy requests = ruled policy (classify_input_requests requests)

  -- The entry stands for this host: it is not blank, and the host is its name or a name below it.
  abbrev pub Covers : String → String → Type 0
  Covers host entry =
      (candidate entry ≢ "")
      × ((host ≡ candidate entry)
          ⊎ ((label : String) × (host ≡ append label (append "." (candidate entry)))))

  matches_sound : (host entry : String) → matches host entry ≡ true → Covers host entry
  matches_sound host entry h =
      let name = candidate entry in
      (
        λ blank. ground (arith, (str_eq_iff name "").1 blank),
        elim (Bool-cases (str_eq host name)) [
          | inl e ↦ inl ((str_eq_iff host name).0 e)
          | inr e ↦ inr (ends_with_sound host (append "." name) (ground arith))
        ],
      )

  not_blank : (s : String) → s ≢ "" → str_eq s "" ≡ false
  not_blank s h = elim (Bool-cases (str_eq s "")) [
    | inl e ↦ absurd (h ((str_eq_iff s "").0 e))
    | inr e ↦ e
  ]

  matches_complete : (host entry : String) → Covers host entry → matches host entry ≡ true
  matches_complete host entry (named, inl same) =
      ground (arith, not_blank (candidate entry) named, (str_eq_iff host (candidate entry)).1 same)
  matches_complete host entry (named, inr (label, below)) =
      let ends = ends_with_complete label (append "." (candidate entry)) in
      ground (
        arith,
        not_blank (candidate entry) named,
        ap (λ h. ends_with h (append "." (candidate entry))) below ∙ ends,
      )

  -- A host is allowed exactly if some entry of the list, once its spaces, case and leading dots are
  -- dropped, is not blank and is the host itself or the host's end after a dot.
  pub host_allowed_exact :
      (host : String) (entries : List String)
      → (_host_allowed host entries ≡ true)
        ↔ ((entry : String) × Memᴰ entry entries × Covers host entry)
  unfolding _host_allowed
  host_allowed_exact host entries = (
    λ allowed.
        let (entry, m, hit) = any_sound (matches host) entries allowed in
        (entry, m, matches_sound host entry hit),
    λ covered.
        let (entry, m, covers) = covered in
        any_complete (matches host) entries m (matches_complete host entry covers),
  )

  reasons_none :
      (policy : MrtrPolicy) (rs : List ClassifiedInputRequest)
      → (is_nil (reasons policy rs) ≡ true)
        ↔ (all (λ r. not (is_some (permits policy r))) rs ≡ true)
  unfolding reasons
  reasons_none policy [] = ground arith
  reasons_none policy (r ∷ rs) = elim (Option-cases (permits policy r)) [
    | inl e ↦ rw e (ground (arith, reasons_none policy rs))
    | inr (reason, e) ↦ rw e (ground arith)
  ]

  -- An input-required round is allowed exactly if it carries a request and the policy permits every one.
  pub round_allowed_exact :
      (policy : MrtrPolicy) (requests : List InputRequest)
      → ((evaluate_input_requests policy requests).allowed ≡ true) ↔ (
          (requests ≢ [])
          × (all (λ r. not (is_some (permits policy r))) (classify_input_requests requests) ≡ true))
  unfolding evaluate_input_requests classify_input_requests
  round_allowed_exact policy [] = ground arith
  round_allowed_exact policy (r ∷ rs) = ground (arith, reasons_none policy (map classify (r ∷ rs)))

-- The default policy allows no input-required round.
pub default_denies :
    (lower repr : String → String) (hostname : String → Option String)
    (requests : List InputRequest)
    → (evaluate_input_requests lower repr hostname
        (record { allowed_kinds = []; allowed_elicit_url_hosts = [] })
        requests).allowed
      ≡ false
unfolding evaluate_input_requests classify_input_requests reasons permits
default_denies lower repr hostname [] = refl
default_denies lower repr hostname (r ∷ rs) = ground arith
