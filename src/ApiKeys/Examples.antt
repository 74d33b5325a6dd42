-- ===== src/ApiKeys/Examples.antt =====
-- A tenant with a ceiling of an hour, and groups with longer ones.
use vyuu_mcp_gateway.Prelude.{
  ℕ, ◌+◌, ◌≤◌, ◌<◌, Bool, true, false, ◌&&◌, ◌==◌, map, Option, none, some, List, [], ◌∷◌, Memᴰ, ok,
  ◌≡◌, refl, ap, arith,
}
use vyuu_mcp_gateway.Audit.Lines.{Text}
use vyuu_mcp_gateway.ApiKeys.Format.{ParsedApiKey, parse_bearer, issue_new_key, verify_secret}
use vyuu_mcp_gateway.ApiKeys.Format.RoundTrip.{ascii_upper, issued_key_verifies}
use vyuu_mcp_gateway.Dict.{get}
use vyuu_mcp_gateway.Tables.{UserGroupMembership, by_system, seconds}
use vyuu_mcp_gateway.ApiKeys.{
  ApiKeyPrincipalKind, tenant_kind, group_kind, ApiKeyPolicy, UserApiKey, KeyTables,
}
use vyuu_mcp_gateway.ApiKeys.Ttl.{
  ResolvedTtl, resolve_max_ttl, scopes_into, enforce_requested_expiry,
}
use vyuu_mcp_gateway.ApiKeys.Ttl.Joining.{join, joining_tightens, joining_replaces}
use vyuu_mcp_gateway.ApiKeys.Ttl.Expiry.{enforce_bounds}
use vyuu_mcp_gateway.ApiKeys.Policies.{apply_to_existing_keys}
use vyuu_mcp_gateway.ApiKeys.Policies.Conform.{DistinctKeys, apply_conforms}

abbrev policy : ApiKeyPrincipalKind → ℕ → ℕ → ApiKeyPolicy
policy kind id ttl = record {
  id = 90 + id;
  tenant_id = 1;
  principal_kind = kind;
  principal_id = id;
  max_ttl_seconds = ttl;
  note = none;
  created_by = 4;
  updated_at = 0;
}

abbrev key : ℕ → Option ℕ → UserApiKey
key id expires = record {
  id = id;
  tenant_id = 1;
  user_id = 8;
  label = "laptop";
  expires_at = expires;
  revoked_at = none;
}

abbrev tables : List UserGroupMembership → KeyTables
tables memberships = record {
  base = record {
    vservers = [];
    memberships = memberships;
    grants = [];
    tool_grants = [];
    requests = [];
    users = [];
    audit = [];
  };
  policies =
      policy tenant_kind 1 3600 ∷ policy group_kind 20 86400 ∷ policy group_kind 21 7200 ∷ [];
  keys = key 50 none ∷ key 51 (some 7) ∷ [];
  groups = record { id = 20; tenant_id = 1 } ∷ record { id = 21; tenant_id = 1 } ∷ [];
}

abbrev in_one : KeyTables
in_one = tables (record { user_id = 8; group_id = 20 } ∷ [])

joining_tightens_example :
    (m : ℕ) × ((resolve_max_ttl 1 8 (join 8 21 in_one)).max_ttl_seconds ≡ some m) × (m ≤ 86400)
unfolding resolve_max_ttl
joining_tightens_example = joining_tightens 1 8 21 in_one 86400 refl refl

joining_replaces_example :
    (resolve_max_ttl 1 8 (join 8 20 (tables []))).max_ttl_seconds ≡ some 86400
unfolding resolve_max_ttl scopes_into get
joining_replaces_example =
    joining_replaces 1 8 20 (tables []) (policy group_kind 20 86400) refl refl refl

-- From an hour to a day.
before_joining : (resolve_max_ttl 1 8 (tables [])).max_ttl_seconds ≡ some 3600
unfolding resolve_max_ttl
before_joining = refl

abbrev an_hour : ResolvedTtl
an_hour = record { max_ttl_seconds = some 3600; source_kind = some tenant_kind; source_id = some 1 }

enforce_bounds_example :
    (t : ℕ) × (◌≡◌ {A = Option ℕ} (some 3600500000) (some t))
    × (0 ≤ t)
    × (t < 0 + seconds (3600 + 1))
unfolding enforce_requested_expiry
enforce_bounds_example = enforce_bounds an_hour (some 3600500000) 0 3600 refl refl

two_keys : DistinctKeys (tables []).keys
two_keys = (((λ same. absurd (omega (arith, same))), tt), (tt, tt))

abbrev cut : KeyTables × ℕ
cut = apply_to_existing_keys (λ n. "k") 1 (by_system "console") 1000 (tables [])

-- The key had no expiry.
key_was_cut : Memᴰ (key 50 (some (1000 + seconds 3600))) cut.0.keys
unfolding apply_to_existing_keys
key_was_cut = Memᴰ.head refl

still_an_hour : (resolve_max_ttl 1 8 cut.0).max_ttl_seconds ≡ some 3600
unfolding apply_to_existing_keys resolve_max_ttl
still_an_hour = refl

apply_conforms_example :
    (t : ℕ) × ((key 50 (some (1000 + seconds 3600))).expires_at ≡ some t)
    × (t ≤ 1000 + seconds 3600)
apply_conforms_example =
    apply_conforms (λ n. "k") 1 (by_system "console") 1000 (tables [])
      (key 50 (some (1000 + seconds 3600))) 3600 two_keys key_was_cut refl refl still_an_hour

one_was_updated : (apply_to_existing_keys (λ n. "k") 1 (by_system "console") 1000 (tables [])).1 ≡ 1
unfolding apply_to_existing_keys
one_was_updated = refl

-- A hash that puts a `$` before the secret.
abbrev hash_secret : Text → Text
hash_secret secret = 36 ∷ secret

abbrev same_text : Text → Text → Bool
same_text [] [] = true
same_text [] (d ∷ ds) = false
same_text (c ∷ cs) [] = false
same_text (c ∷ cs) (d ∷ ds) = c == d && same_text cs ds

abbrev checkpw : Text → Text → Option Bool
checkpw secret [] = none
checkpw secret (c ∷ cs) = some (same_text secret cs)

same_text_refl : (cs : Text) → same_text cs cs ≡ true
same_text_refl [] = refl
same_text_refl (c ∷ cs) = ground (arith, same_text_refl cs)

issued_key_verifies_example :
    (p : ParsedApiKey) × (parse_bearer
        (map ascii_upper)
        (issue_new_key hash_secret 77 (65 ∷ 95 ∷ [])).plaintext
      ≡ ok p)
    × (p.key_id ≡ 77)
    × (verify_secret checkpw p.secret (issue_new_key hash_secret 77 (65 ∷ 95 ∷ [])).key_hash ≡ true)
issued_key_verifies_example =
    issued_key_verifies (map ascii_upper) (λ s h. refl) hash_secret checkpw
      (λ secret. ap some (same_text_refl secret)) (λ secret. refl) 77 (65 ∷ 95 ∷ []) (omega arith)
      refl
