-- ===== src/Registry/Run/Invariants.antt =====
-- Pending requests, the expiry of grants and decided requests, through sequences of calls.
use vyuu_mcp_gateway.Prelude.{
  ℕ, String, Option, none, head_or_tail, ◌≡◌, ◌⊎◌, refl, ap, sym, ◌∙◌, subst, inl, inr, true, false,
  List, [], ◌∷◌, map, any, All, Memᴰ, map_complete, ◌==◌, Result, ok, raise, arith, Bool-cases,
}
use vyuu_mcp_gateway.Tables.{VirtualServerGrant, AccessRequest, is_pending, Db}
use vyuu_mcp_gateway.Registry.Errors.{RegistryError}
use vyuu_mcp_gateway.Registry.Effects.{
  Effect, RequestsStep, filed, decided, GrantsStep, issued, Asked, blocks, rewritten, no-Effect,
}
use vyuu_mcp_gateway.Registry.Requests.Effects.{
  submit_access_request-Effect, withdraw_access_request-Effect,
}
use vyuu_mcp_gateway.Registry.Approvals.Effects.{
  approve_access_request-Effect, decline_access_request-Effect,
}
use vyuu_mcp_gateway.Registry.Jit.Effects.{
  request_jit_access-Effect, request_tool_elevation-Effect, configure_vserver_jit-Effect,
  configure_vserver_jit_tools-Effect,
}
use vyuu_mcp_gateway.Registry.Run.{
  Call, submit, withdraw, approve, decline, jit_access, tool_elevation, configure_jit,
  configure_jit_tools, after, perform, run,
}

after-Effect :
    {A : Type 0} (db : Db) (r : Result RegistryError (Db × A))
    → ((out : Db × A) → r ≡ ok out → Effect db out.0)
    → Effect db (after db r)
after-Effect db (ok out) f = f out refl
after-Effect db (raise e) f = no-Effect db

perform-Effect : (db : Db) (call : Call) → Effect db (perform db call)
unfolding perform
perform-Effect db (submit env t u v note) =
    after-Effect db _ (λ out. submit_access_request-Effect env t u v note db)
perform-Effect db (withdraw t u r) =
    after-Effect db _ (λ out. withdraw_access_request-Effect t u r db)
perform-Effect db (approve env t r op d actor) =
    after-Effect db _ (λ out. approve_access_request-Effect env t r op d actor db)
perform-Effect db (decline env t r op note actor) =
    after-Effect db _ (λ out. decline_access_request-Effect env t r op note actor db)
perform-Effect db (jit_access env t u v d why) =
    after-Effect db _ (λ out. request_jit_access-Effect env t u v d why db)
perform-Effect db (tool_elevation env t u v tool d why) =
    after-Effect db _ (λ out. request_tool_elevation-Effect env t u v tool d why db)
perform-Effect db (configure_jit t v enabled d auto why actor) =
    after-Effect db _ (λ out. configure_vserver_jit-Effect t v enabled d auto why actor db)
perform-Effect db (configure_jit_tools t v limits actor) =
    after-Effect db _ (λ out. configure_vserver_jit_tools-Effect t v limits actor db)

-- No two rows are pending for one user, virtual server and tool, where none at all counts as a tool.
abbrev pub OnePending : List AccessRequest → Type 0
OnePending [] = Unit
OnePending (q ∷ qs) =
    (is_pending q.status ≡ true
      → any (blocks q.user_id q.vserver_id q.exposed_tool_name) qs ≡ false)
    × OnePending qs

any-rewritten :
    (uid vserver_id : ℕ) (tool : Option String) (row : AccessRequest) (qs : List AccessRequest)
    → is_pending row.status ≡ false
    → any (blocks uid vserver_id tool) qs ≡ false
    → any (blocks uid vserver_id tool) (map (rewritten row) qs) ≡ false
any-rewritten uid vserver_id tool row [] f h = refl
any-rewritten uid vserver_id tool row (q ∷ qs) f h =
    ground (arith, any-rewritten uid vserver_id tool row qs f)

OnePending-rewritten :
    (row : AccessRequest) (qs : List AccessRequest)
    → is_pending row.status ≡ false
    → OnePending qs
    → OnePending (map (rewritten row) qs)
OnePending-rewritten row [] f h = tt
OnePending-rewritten row (q ∷ qs) f h = (
  λ p. ground (arith, h.0, any-rewritten q.user_id q.vserver_id q.exposed_tool_name row qs f),
  OnePending-rewritten row qs f h.1,
)

OnePending-step :
    {before now : List AccessRequest} → RequestsStep before now → OnePending before → OnePending now
OnePending-step (RequestsStep.kept e) h = rw e h
OnePending-step (filed r p free e) h = rw e (λ _. free, h)
OnePending-step {before} (decided old row i p same f e) h =
    rw e (OnePending-rewritten row before f h)

-- Whatever calls are made, whether they return or raise: if no two requests are pending for the
-- same user, virtual server and tool (one for all of the virtual server counts as one for the tool
-- with the empty name), that stays so.
pub run-OnePending :
    (db : Db) (calls : List Call) → OnePending db.requests → OnePending (run db calls).requests
unfolding run
run-OnePending db [] h = h
run-OnePending db (call ∷ calls) h =
    run-OnePending (perform db call) calls (OnePending-step (perform-Effect db call).requests h)

-- Some call of the sequence approved a request for the grant that asked for no duration.
abbrev pub AskedDuring : Db → List Call → VirtualServerGrant → Type 0
AskedDuring db [] g = ⊥
AskedDuring db (call ∷ calls) g =
    Asked db.requests (perform db call).requests g ⊎ AskedDuring (perform db call) calls g

grant_origin :
    {g : VirtualServerGrant} {asking asked : List AccessRequest}
    {before after : List VirtualServerGrant}
    → GrantsStep asking asked before after
    → g.expires_at ≡ none
    → Memᴰ g after
    → Memᴰ g before ⊎ Asked asking asked g
grant_origin (GrantsStep.kept e) forever m = inl (rw e at m)
grant_origin {g} {asking} {asked} (issued f standing e) forever m =
    elim (head_or_tail (rw e at m)) [
      | inl is_f ↦ inr (
          subst (Asked asking asked) (sym is_f)
            (standing (ap (λ (x : VirtualServerGrant). x.expires_at) (sym is_f) ∙ forever)))
      | inr earlier ↦ inl earlier
    ]

-- Whatever calls are made, whether they return or raise: a grant without an expiry that is there
-- afterwards was there before, or an operator approved, during the calls, a pending request of that
-- user for all of that virtual server that asked for no duration, and the approved row names the
-- grant and the operator.
pub standing_was_asked :
    (db : Db) (calls : List Call) (g : VirtualServerGrant)
    → Memᴰ g (run db calls).grants
    → g.expires_at ≡ none
    → Memᴰ g db.grants ⊎ AskedDuring db calls g
unfolding run
standing_was_asked db [] g m forever = inl m
standing_was_asked db (call ∷ calls) g m forever =
    elim (standing_was_asked (perform db call) calls g m forever) [
      | inr later ↦ inr (inr later)
      | inl now ↦ elim (grant_origin (perform-Effect db call).grants forever now) [
        | inl before ↦ inl before
        | inr asked ↦ inr (inl asked)
      ]
    ]

-- The row is the only one with its id.
abbrev pub OnlyOne : AccessRequest → List AccessRequest → Type 0
OnlyOne q qs = All (λ p. p.id ≡ q.id → p ≡ q) qs

only_row :
    (q : AccessRequest) {p : AccessRequest} (qs : List AccessRequest)
    → OnlyOne q qs
    → Memᴰ p qs
    → p.id ≡ q.id
    → p ≡ q
only_row q [] h m e = elim m [ ]
only_row q (x ∷ qs) h (Memᴰ.head s) e = s ∙ h.0 (ap (λ (r : AccessRequest). r.id) (sym s) ∙ e)
only_row q (x ∷ qs) h (Memᴰ.tail m) e = only_row q qs h.1 m e

unchanged :
    (q old row : AccessRequest)
    → is_pending q.status ≡ false
    → is_pending old.status ≡ true
    → row.id ≡ old.id
    → (old.id ≡ q.id → old ≡ q)
    → rewritten row q ≡ q
unchanged q old row f p e only = elim (Bool-cases (q.id == row.id)) [
  | inl hit ↦ absurd (pending_clash (ground arith))
  | inr miss ↦ rw miss
]
  where
    pending_clash : q.id ≡ old.id → ⊥
    pending_clash s = let same = only (sym s) in ground arith

final-step :
    (q : AccessRequest) {before now : List AccessRequest}
    → RequestsStep before now
    → is_pending q.status ≡ false
    → OnlyOne q before
    → Memᴰ q before
    → Memᴰ q now
final-step q (RequestsStep.kept e) f only m = rw e m
final-step q (filed r p free e) f only m = rw e (Memᴰ.tail m)
final-step q {before} (decided old row i p same g e) f only m = rw e (
    subst (λ x. Memᴰ x (map (rewritten row) before))
      (unchanged q old row f p same (only_row q before only i))
      (map_complete (rewritten row) before m))

-- A request that is no longer pending, and whose id is that of one row only, keeps its row,
-- decision included, through any next call.
pub decision_is_final :
    (db : Db) (call : Call) (q : AccessRequest)
    → is_pending q.status ≡ false
    → OnlyOne q db.requests
    → Memᴰ q db.requests
    → Memᴰ q (perform db call).requests
decision_is_final db call q f only m = final-step q (perform-Effect db call).requests f only m
