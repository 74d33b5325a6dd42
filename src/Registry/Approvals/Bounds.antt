-- ===== src/Registry/Approvals/Bounds.antt =====
-- What an approval issues: how long, to whom, and what it does not check.
use vyuu_mcp_gateway.Prelude.{
  ℕ, ◌+◌, ◌≤◌, ◌<◌, ◌≡◌, refl, ap, sym, ◌∙◌, ◌⊎◌, inl, inr, ℤ, pos, String, true, Option, none,
  some, List, ◌∷◌, ok, ◌>>=◌, bind-ok, ok-state, arith, Bool-cases, subst,
}
use vyuu_mcp_gateway.Dict.{Dict}
use vyuu_mcp_gateway.Tables.{
  VirtualServer, VirtualServerGrant, AccessRequest, AdminAuditActor, DetailValue, jit_approved, Db,
  seconds, record_admin_action,
}
use vyuu_mcp_gateway.Access.{user_has_active_grant}
use vyuu_mcp_gateway.Registry.Errors.{select_vserver}
use vyuu_mcp_gateway.Registry.Issue.{Surroundings}
use vyuu_mcp_gateway.Registry.Requests.{update_request, _load_pending}
use vyuu_mcp_gateway.Registry.Approvals.{
  audit_if, approved_grant, create_grant, approve_vserver, approve_loaded, approve_access_request,
  _approved_expiry,
}

-- A time-boxed grant: at most what was asked for, and at most the virtual server's ceiling.
pub record Bounded (env : Surroundings) (requested : ℕ) (vserver : VirtualServer)
    (expiry : Option ℕ) : Type 0 where
  pub duration : ℕ
  pub positive : 0 < duration
  pub within_request : duration ≤ requested
  pub within_ceiling : duration ≤ vserver.jit_max_duration_seconds
  pub is_expiry : expiry ≡ some (env.issued_at + seconds duration)

expiry-Bounded :
    (env : Surroundings) (tenant requested : ℕ) (q : AccessRequest) (d : Option ℤ)
    (v : VirtualServer) (db : Db) (expiry : Option ℕ)
    → select_vserver tenant q.vserver_id db ≡ some v
    → q.requested_duration_seconds ≡ some requested
    → _approved_expiry env tenant q d db ≡ ok expiry
    → Bounded env requested v expiry
unfolding _approved_expiry
expiry-Bounded env tenant requested q none v db expiry found asked h = record {
  duration = requested;
  positive = ground arith;
  within_request = ground arith;
  within_ceiling = ground arith;
  is_expiry = ground arith;
}
expiry-Bounded env tenant requested q (some (pos n)) v db expiry found asked h = record {
  duration = n;
  positive = ground arith;
  within_request = ground arith;
  within_ceiling = ground arith;
  is_expiry = ground arith;
}
expiry-Bounded env tenant requested q (some (ℤ.negsuc n)) v db expiry found asked h =
    absurd (ground arith)

audit_if-grants :
    (tenant : ℕ) (actor : Option AdminAuditActor) (action : String) (q : AccessRequest)
    (detail : Dict String DetailValue) (db : Db)
    → (audit_if tenant actor action q detail db).grants ≡ db.grants
unfolding audit_if record_admin_action
audit_if-grants tenant none action q detail db = refl
audit_if-grants tenant (some a) action q detail db = refl

-- How `create_grant` may end for a request with a duration.
abbrev CreatedOrHeld :
    Surroundings → ℕ → ℕ → ℕ → AccessRequest → VirtualServer → Db → List VirtualServerGrant → Type 0
CreatedOrHeld env tenant op requested q v db grants =
    ((user_has_active_grant tenant q.vserver_id q.user_id env.checked_at db ≡ true)
      × (grants ≡ db.grants))
    ⊎ ((g : VirtualServerGrant) × (grants ≡ g ∷ db.grants)
        × Bounded env requested v g.expires_at
        × (g.granted_via ≡ jit_approved)
        × (g.granted_by ≡ some op)
        × (g.principal_id ≡ q.user_id)
        × (g.vserver_id ≡ q.vserver_id))

approved_grant-granted_via :
    (env : Surroundings) (tenant op requested : ℕ) (q : AccessRequest) (v : VirtualServer)
    (expiry : Option ℕ)
    → Bounded env requested v expiry
    → (approved_grant env tenant op q expiry).granted_via ≡ jit_approved
unfolding approved_grant
approved_grant-granted_via env tenant op requested q v expiry b = rw b.is_expiry

create_grant-Bounded :
    (env : Surroundings) (tenant op requested : ℕ) (d : Option ℤ) (q : AccessRequest)
    (v : VirtualServer) (db : Db) (created : Db × Option ℕ)
    → select_vserver tenant q.vserver_id db ≡ some v
    → q.requested_duration_seconds ≡ some requested
    → create_grant env tenant op d q db ≡ ok created
    → CreatedOrHeld env tenant op requested q v db created.0.grants
unfolding create_grant approved_grant
create_grant-Bounded env tenant op requested d q v db created found asked h =
    elim (Bool-cases (user_has_active_grant tenant q.vserver_id q.user_id env.checked_at db)) [
      | inl had ↦ inl (had, ground arith)
      | inr lacks ↦
          let h0 : (_approved_expiry env tenant q d db >>= λ t.
          ok (
            record db { grants = approved_grant env tenant op q t ∷ db.grants },
            some env.fresh_id,
          ))
              ≡ ok created =
            rw lacks at h in
          let (expiry, e, h1) = bind-ok (_approved_expiry env tenant q d db) _ h0 in
          let bounded = expiry-Bounded env tenant requested q d v db expiry found asked e in
          inr (
            approved_grant env tenant op q expiry,
            ap (λ (x : Db). x.grants) (sym (ok-state h1)),
            bounded,
            approved_grant-granted_via env tenant op requested q v expiry bounded,
            refl,
            refl,
            refl,
          )
    ]

approve_loaded-grants :
    (env : Surroundings) (tenant op : ℕ) (d : Option ℤ) (actor : Option AdminAuditActor)
    (q : AccessRequest) (db : Db) {out : Db × AccessRequest}
    → approve_loaded env tenant op d actor q none db ≡ ok out
    → (created : Db × Option ℕ) × (create_grant env tenant op d q db ≡ ok created)
      × (out.0.grants ≡ created.0.grants)
unfolding approve_loaded approve_vserver update_request
approve_loaded-grants env tenant op d actor q db h =
    let (created, e, h1) = bind-ok (create_grant env tenant op d q db) _ h in
    (
      created,
      e,
      ap (λ (x : Db). x.grants) (sym (ok-state h1)) ∙ audit_if-grants tenant actor _ q _ _,
    )

-- When an approval of a request for a whole virtual server, with a requested duration, returns,
-- then either the user had access already and no grant is added, or exactly one grant is added: to
-- that user, approved by that operator, for a positive time that is at most what was asked for and at most
-- the virtual server's ceiling.
pub approval-Bounded :
    (env : Surroundings) (tenant request_id op requested : ℕ) (d : Option ℤ)
    (actor : Option AdminAuditActor) (db : Db) (q : AccessRequest) (v : VirtualServer)
    → _load_pending tenant request_id db ≡ ok q
    → q.exposed_tool_name ≡ none
    → q.requested_duration_seconds ≡ some requested
    → select_vserver tenant q.vserver_id db ≡ some v
    → {out : Db × AccessRequest}
    → approve_access_request env tenant request_id op d actor db ≡ ok out
    → ((user_has_active_grant tenant q.vserver_id q.user_id env.checked_at db ≡ true)
        × (out.0.grants ≡ db.grants))
      ⊎ ((g : VirtualServerGrant) × (out.0.grants ≡ g ∷ db.grants)
          × Bounded env requested v g.expires_at
          × (g.granted_via ≡ jit_approved)
          × (g.granted_by ≡ some op)
          × (g.principal_id ≡ q.user_id)
          × (g.vserver_id ≡ q.vserver_id))
unfolding approve_access_request
approval-Bounded env tenant request_id op requested d actor db q v loaded no_tool asked found {out}
      h =
    let h1 : approve_loaded env tenant op d actor q q.exposed_tool_name db ≡ ok out =
      rw loaded at h in
    let h2 : approve_loaded env tenant op d actor q none db ≡ ok out =
      subst (λ x. approve_loaded env tenant op d actor q x db ≡ ok out) no_tool h1 in
    let (created, e, same) = approve_loaded-grants env tenant op d actor q db h2 in
    elim (create_grant-Bounded env tenant op requested d q v db created found asked e) [
      | inl (had, kept) ↦ inl (had, same ∙ kept)
      | inr (g, added, bounded, via, by, who, where_to) ↦
          inr (g, same ∙ added, bounded, via, by, who, where_to)
    ]
