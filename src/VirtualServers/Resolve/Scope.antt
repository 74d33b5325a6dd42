-- ===== src/VirtualServers/Resolve/Scope.antt =====
-- Where the resolved tools of a virtual server come from.
use vyuu_mcp_gateway.Prelude.{
  ℕ, String, str_eq_iff, true, false, ◌&&◌, Option, some, List, [], ◌∷◌, map, keep, keep_sound,
  find_sound, map_sound, map_complete, append_sound, Memᴰ, Result, ok, raise, ◌≡◌, refl, sym, ap,
  subst, arith, inl, inr, Bool-cases, Option-cases, if◌then◌else◌, not,
}
use vyuu_mcp_gateway.Tables.{VirtualServer}
use vyuu_mcp_gateway.ToolCalls.{
  ResolvedTool, ResolvedToolsList, ResolveError, virtual_server_not_found,
}
use vyuu_mcp_gateway.VirtualServers.{
  VirtualServerToolCapability, McpServer, McpCapability, VirtualServerTool, Catalogue,
}
use vyuu_mcp_gateway.VirtualServers.Synthesis.Distinct.{
  DistinctTexts, names_of, target_of, source_of, synthesize_tools_distinct,
}
use vyuu_mcp_gateway.VirtualServers.Resolve.{
  is_tool, select_by_name, mapped, serves, describes, capability_row, rows_of_mapping,
  rows_of_servers, is_nil, distinct, of_vserver, not_synced, capabilities_of, resolve_in,
  resolve_tools,
}

-- A mapping row of the virtual server, and a capability that is in use, both of the tenant, for the
-- upstream tool with these names.
pub record Backed (tenant vserver_id server_id : ℕ) (tool_name : String) (db : Catalogue)
    : Type 0 where
  pub row : VirtualServerTool
  pub mapped_here : Memᴰ row db.tools
  pub row_tenant : row.tenant_id ≡ tenant
  pub row_vserver : row.vserver_id ≡ vserver_id
  pub row_server : row.server_id ≡ server_id
  pub row_tool : row.tool_name ≡ tool_name
  pub capability : McpCapability
  pub synced : Memᴰ capability db.capabilities
  pub capability_tenant : capability.tenant_id ≡ tenant
  pub capability_server : capability.server_id ≡ server_id
  pub capability_name : capability.name ≡ tool_name
  pub is_a_tool : is_tool capability.kind ≡ true
  pub in_use : capability.deprecated ≡ false

abbrev From : ℕ → ℕ → Catalogue → VirtualServerToolCapability → Type 0
From tenant vserver_id db c = Backed tenant vserver_id c.server_id c.tool_name db

module _ (tenant vserver_id : ℕ) (db : Catalogue) where
  joined :
      (s : McpServer) (t : VirtualServerTool) (c : McpCapability)
      → Memᴰ t (mapped tenant vserver_id db)
      → serves t s ≡ true
      → Memᴰ c db.capabilities
      → describes t c ≡ true
      → From tenant vserver_id db (capability_row s t c)
  joined s t c m on cm d =
      let (here, own) = keep_sound _ db.tools m in
      record {
        row = t;
        mapped_here = here;
        row_tenant = ground (arith, own);
        row_vserver = ground (arith, own);
        row_server = ground (arith, on);
        row_tool = refl;
        capability = c;
        synced = cm;
        capability_tenant = ground (arith, own, d);
        capability_server = ground (arith, on, d);
        capability_name = (str_eq_iff c.name t.tool_name).0 (ground (arith, d));
        is_a_tool = ground (arith, d);
        in_use = ground (arith, d);
      }

  rows_of_mapping_sound :
      (s : McpServer) (ts : List VirtualServerTool)
      → ((t : VirtualServerTool) → Memᴰ t ts → Memᴰ t (mapped tenant vserver_id db))
      → (c : VirtualServerToolCapability) → Memᴰ c (rows_of_mapping db s ts)
      → From tenant vserver_id db c
  rows_of_mapping_sound s [] within c m = elim m [ ]
  rows_of_mapping_sound s (t ∷ ts) within c m =
      elim (append_sound
        (map (capability_row s t) (keep (describes t) (if serves t s then db.capabilities else [])))
        _ m) [
          | inl here ↦
              let (k, km, same) = map_sound (capability_row s t) _ here in
              let (listed, d) = keep_sound (describes t) _ km in
              elim (Bool-cases (serves t s)) [
                | inl on ↦
                    subst (From tenant vserver_id db) (sym same)
                      (joined s t k (within t (Memᴰ.head refl)) on (rw on at listed) d)
                | inr off ↦ elim (rw off at listed) [ ]
              ]
          | inr later ↦ rows_of_mapping_sound s ts (λ u um. within u (Memᴰ.tail um)) c later
        ]

  rows_of_servers_sound :
      (ss : List McpServer) (c : VirtualServerToolCapability)
      → Memᴰ c (rows_of_servers db (mapped tenant vserver_id db) ss)
      → From tenant vserver_id db c
  rows_of_servers_sound [] c m = elim m [ ]
  rows_of_servers_sound (s ∷ ss) c m =
      elim (append_sound (rows_of_mapping db s (mapped tenant vserver_id db)) _ m) [
        | inl here ↦ rows_of_mapping_sound s _ (λ u um. um) c here
        | inr later ↦ rows_of_servers_sound ss c later
      ]

ok-tools :
    {list list' : ResolvedToolsList}
    → ◌≡◌ {A = Option (Result ResolveError ResolvedToolsList)} (some (ok list)) (some (ok list'))
    → list ≡ list'
ok-tools {list} h = ap inner h
  where
    inner : Option (Result ResolveError ResolvedToolsList) → ResolvedToolsList
    inner (some (ok l)) = l
    inner _ = list

-- What a resolved list has of the virtual server and the catalogue.
pub record ResolvedFrom (tenant : ℕ) (vserver_name : String) (db : Catalogue)
    (list : ResolvedToolsList) : Type 0 where
  pub vserver : VirtualServer
  pub known : Memᴰ vserver db.virtual_servers
  pub own : vserver.tenant_id ≡ tenant
  pub named : vserver.name ≡ vserver_name
  pub identified : list.vserver_id ≡ some vserver.id
  pub gates :
      (list.required_scopes ≡ vserver.required_scopes) × (list.jit_tools ≡ vserver.jit_tools)
  pub distinct_names : DistinctTexts (names_of list.tools)
  pub backed :
      (t : ResolvedTool)
      → Memᴰ t list.tools
      → Backed tenant vserver.id t.upstream_server_id t.upstream_tool_name db

module _ (uuid_text : ℕ → String) (lower : String → String)
    (order : List VirtualServerToolCapability → List VirtualServerToolCapability)
    (order_sound : (c : VirtualServerToolCapability) (cs : List VirtualServerToolCapability)
      → Memᴰ c (order cs)
      → Memᴰ c cs) where
  tools-Backed :
      (tenant vserver_id : ℕ) (db : Catalogue) (tools : List ResolvedTool)
      → map target_of tools
        ≡ map source_of (capabilities_of uuid_text lower order tenant vserver_id db)
      → (t : ResolvedTool) → Memᴰ t tools
      → Backed tenant vserver_id t.upstream_server_id t.upstream_tool_name db
  unfolding capabilities_of
  tools-Backed tenant vserver_id db tools same t m =
      let (c, cm, e) =
        map_sound source_of _
          (subst (λ ps. Memᴰ (target_of t) ps) same (map_complete target_of tools m)) in
      subst (λ p. Backed tenant vserver_id p.0 p.1 db) (sym e)
        (rows_of_servers_sound tenant vserver_id db db.servers c (order_sound c _ cm))

  resolve_in_sound :
      (tenant : ℕ) (vserver_name : String) (db : Catalogue) (v : VirtualServer)
      {list : ResolvedToolsList}
      → Memᴰ v db.virtual_servers
      → v.tenant_id ≡ tenant
      → v.name ≡ vserver_name
      → resolve_in uuid_text lower order tenant db v ≡ some (ok list)
      → ResolvedFrom tenant vserver_name db list
  unfolding resolve_in
  resolve_in_sound tenant vserver_name db v known own named h =
      let (resolved, found, distinct_names, same) =
        synthesize_tools_distinct uuid_text lower v.rename_map
          (capabilities_of uuid_text lower order tenant v.id db) in
      elim (Bool-cases (
        is_nil (capabilities_of uuid_text lower order tenant v.id db)
        && not (
            is_nil
              (distinct (map (λ (t : VirtualServerTool). t.server_id) (mapped tenant v.id db)))))) [
                | inl unsynced ↦ absurd (ground (arith, h, unsynced))
                | inr synced ↦
                    subst (ResolvedFrom tenant vserver_name db)
                      (ok-tools (rw found at (rw synced at h)))
                      (record {
                        vserver = v;
                        known = known;
                        own = own;
                        named = named;
                        identified = refl;
                        gates = (refl, refl);
                        distinct_names = distinct_names;
                        backed = tools-Backed tenant v.id db resolved.tools same;
                      })
              ]

  -- Where resolve_tools returns a list, it is that of a virtual server of the tenant with the name,
  -- with the server's gates; the tools have different names, and each has a mapping row of this
  -- server and a capability that is in use, both of the tenant.
  pub resolve_tools_scoped :
      (tenant : ℕ) (vserver_name : String) (db : Catalogue) {list : ResolvedToolsList}
      → resolve_tools uuid_text lower order tenant vserver_name db ≡ some (ok list)
      → ResolvedFrom tenant vserver_name db list
  unfolding resolve_tools select_by_name
  resolve_tools_scoped tenant vserver_name db h =
      elim (Option-cases (select_by_name tenant vserver_name db)) [
        | inl missing ↦ absurd (ground (arith, h, missing))
        | inr (v, found) ↦
            let (known, here) = find_sound _ db.virtual_servers found in
            resolve_in_sound tenant vserver_name db v known (ground (arith, here))
              ((str_eq_iff v.name vserver_name).0 (ground (arith, here))) (rw found at h)
      ]

  -- resolve_tools ends, with a list or an error.
  pub resolve_tools_total :
      (tenant : ℕ) (vserver_name : String) (db : Catalogue)
      → (r : Result ResolveError ResolvedToolsList) × (resolve_tools uuid_text lower order tenant
            vserver_name db
          ≡ some r)
  unfolding resolve_tools select_by_name resolve_in
  resolve_tools_total tenant vserver_name db =
      elim (Option-cases (select_by_name tenant vserver_name db)) [
        | inl missing ↦ (raise virtual_server_not_found, rw missing refl)
        | inr (v, found) ↦ rw found (resolve_in_total v)
      ]
    where
      resolve_in_total :
          (v : VirtualServer)
          → (r : Result ResolveError ResolvedToolsList) × (resolve_in uuid_text lower order tenant
                db v
              ≡ some r)
      resolve_in_total v =
          let capabilities = capabilities_of uuid_text lower order tenant v.id db in
          let (resolved, done, _, _) =
            synthesize_tools_distinct uuid_text lower v.rename_map capabilities in
          let ids =
            distinct (map (λ (t : VirtualServerTool). t.server_id) (mapped tenant v.id db)) in
          elim (Bool-cases (is_nil capabilities && not (is_nil ids))) [
            | inl unsynced ↦ (raise (not_synced uuid_text v.id ids), rw unsynced refl)
            | inr synced ↦ (
              ok (record resolved {
                required_scopes = v.required_scopes;
                jit_tools = v.jit_tools;
                vserver_id = some v.id;
              }),
              rw synced (ap (of_vserver v) done),
            )
          ]
