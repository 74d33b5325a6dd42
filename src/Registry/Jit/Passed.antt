-- ===== src/Registry/Jit/Passed.antt =====
-- What a request for just-in-time access has been checked for when it returns.
use vyuu_mcp_gateway.Prelude.{
  ℕ, ◌≤◌, ◌<◌, ◌≡◌, ℤ, pos, bind-ok, raise_if-ok, raise_if, not, String, true, false, Option, none,
  some, ok, ◌>>=◌, arith, if◌then◌else◌,
}
use vyuu_mcp_gateway.Tables.{VirtualServer, is_public, Db}
use vyuu_mcp_gateway.Access.{user_has_active_grant}
use vyuu_mcp_gateway.Registry.Errors.{
  _load_vserver, _validate_duration, _validate_justification, vserver_is_public, jit_not_enabled,
  user_already_has_access, select_vserver, max_jit_duration_seconds,
}
use vyuu_mcp_gateway.Registry.Issue.{Surroundings, JitElevation, issue_jit_grant}
use vyuu_mcp_gateway.Registry.Requests.{insert_pending, pending_request}
use vyuu_mcp_gateway.Registry.Jit.{auto_approved, queued, request_jit_access}

pub _validate_duration-bounds :
    (d : ℤ) (v : VirtualServer) {n : ℕ}
    → _validate_duration d v ≡ ok n
    → (d ≡ pos n) × (0 < n) × (n ≤ v.jit_max_duration_seconds) × (n ≤ max_jit_duration_seconds)
unfolding _validate_duration
_validate_duration-bounds d v h = ground arith

select_vserver-ok :
    (tenant vserver_id : ℕ) (db : Db) {v : VirtualServer}
    → _load_vserver tenant vserver_id db ≡ ok v
    → select_vserver tenant vserver_id db ≡ some v
unfolding _load_vserver
select_vserver-ok tenant vserver_id db h = ground arith

-- What `request_jit_access` has checked when it returns, and how it ends.
pub record Passed (env : Surroundings) (tenant uid vserver_id : ℕ) (d : ℤ) (why : Option String)
    (db : Db) (r : Db × JitElevation) : Type 0 where
  pub vserver : VirtualServer
  pub duration : ℕ
  pub reason : Option String
  pub selected : select_vserver tenant vserver_id db ≡ some vserver
  pub is_private : is_public vserver.visibility ≡ false
  pub enabled : vserver.jit_enabled ≡ true
  pub valid_duration : _validate_duration d vserver ≡ ok duration
  pub valid_reason : _validate_justification why vserver ≡ ok reason
  pub no_access_yet : user_has_active_grant tenant vserver_id uid env.checked_at db ≡ false
  pub ending :
      (if vserver.jit_auto_approve
        then ok (issue_jit_grant env tenant uid vserver duration reason auto_approved db)
        else (insert_pending
              (pending_request env.fresh_id tenant uid vserver_id reason (some duration) none)
              db
            >>= λ q. ok (queued q)))
      ≡ ok r

pub request_jit_access-Passed :
    (env : Surroundings) (tenant uid vserver_id : ℕ) (d : ℤ) (why : Option String) (db : Db)
    {r : Db × JitElevation}
    → request_jit_access env tenant uid vserver_id d why db ≡ ok r
    → Passed env tenant uid vserver_id d why db r
unfolding request_jit_access
request_jit_access-Passed env tenant uid vserver_id d why db h0 =
    let (v, loaded, h1) = bind-ok (_load_vserver tenant vserver_id db) _ h0 in
    let (_, p, h2) = bind-ok (raise_if (is_public v.visibility) vserver_is_public) _ h1 in
    let (_, q, h3) = bind-ok (raise_if (not v.jit_enabled) jit_not_enabled) _ h2 in
    let (n, vd, h4) = bind-ok (_validate_duration d v) _ h3 in
    let (reason, vr, h5) = bind-ok (_validate_justification why v) _ h4 in
    let (_, a, h6) =
      bind-ok
        (raise_if (user_has_active_grant tenant vserver_id uid env.checked_at db)
          user_already_has_access)
        _ h5 in
    record {
      vserver = v;
      duration = n;
      reason = reason;
      selected = select_vserver-ok tenant vserver_id db loaded;
      is_private = raise_if-ok _ _ p;
      enabled = ground (arith, raise_if-ok (not v.jit_enabled) jit_not_enabled q);
      valid_duration = vd;
      valid_reason = vr;
      no_access_yet = raise_if-ok _ _ a;
      ending = h6;
    }
