-- ===== src/Access/Rows.antt =====
-- The rows that the queries of virtual_servers/access.py collect: joined group grants, lists of ids, and the
-- primary key.
use vyuu_mcp_gateway.Prelude.{
  ℕ, ◌≡◌, inl, inr, refl, sym, ◌≢◌, ap, ◌∙◌, Bool, true, false, List, [], ◌∷◌, ◌==◌, ==_iff, keep,
  Memᴰ, All, any_sound, any_complete, keep_sound, keep_complete, append_left, append_right,
  append_sound, map_sound, map_complete,
}
use vyuu_mcp_gateway.Tables.{VirtualServerGrant, UserGroupMembership, member}
use vyuu_mcp_gateway.Access.{joined_ids, group_ids, is_empty}

-- The primary key of `virtual_server_grants`.
abbrev pub DistinctIds : List VirtualServerGrant → Type 0
DistinctIds [] = Unit
DistinctIds (g ∷ gs) = All (λ h. h.id ≢ g.id) gs × DistinctIds gs

Memᴰ-All :
    (P : VirtualServerGrant → Type 0) {g : VirtualServerGrant} (gs : List VirtualServerGrant)
    → All P gs
    → Memᴰ g gs
    → P g
Memᴰ-All P [] a m = elim m [ ]
Memᴰ-All P (h ∷ gs) a (Memᴰ.head e) = rw e a.0
Memᴰ-All P (h ∷ gs) a (Memᴰ.tail m) = Memᴰ-All P gs a.1 m

pub same_row :
    {g h : VirtualServerGrant} (gs : List VirtualServerGrant)
    → DistinctIds gs
    → Memᴰ g gs
    → Memᴰ h gs
    → g.id ≡ h.id
    → g ≡ h
same_row [] d m n e = elim m [ ]
same_row (x ∷ gs) d (Memᴰ.head p) (Memᴰ.head q) e = p ∙ sym q
same_row (x ∷ gs) d (Memᴰ.head p) (Memᴰ.tail n) e =
    absurd (Memᴰ-All _ gs d.0 n (sym e ∙ ap (λ (r : VirtualServerGrant). r.id) p))
same_row (x ∷ gs) d (Memᴰ.tail m) (Memᴰ.head q) e =
    absurd (Memᴰ-All _ gs d.0 m (e ∙ ap (λ (r : VirtualServerGrant). r.id) q))
same_row (x ∷ gs) d (Memᴰ.tail m) (Memᴰ.tail n) e = same_row gs d.1 m n e

pub member_sound : (a : ℕ) (ids : List ℕ) → member a ids ≡ true → Memᴰ a ids
member_sound a ids h =
    let (x, m, e) = any_sound (λ x. x == a) ids h in rw (sym ((==_iff x a).0 e)) m

pub member_complete : (a : ℕ) (ids : List ℕ) → Memᴰ a ids → member a ids ≡ true
member_complete a ids m = any_complete (λ x. x == a) ids m ((==_iff a a).1 refl)

pub nonempty : {a : ℕ} (ids : List ℕ) → Memᴰ a ids → is_empty ids ≡ false
nonempty [] m = elim m [ ]
nonempty (x ∷ ids) m = refl

pub group_ids_sound :
    (p : VirtualServerGrant → UserGroupMembership → Bool) (ms : List UserGroupMembership) {a : ℕ}
    (gs : List VirtualServerGrant)
    → Memᴰ a (group_ids p ms gs)
    → (g : VirtualServerGrant) × Memᴰ g gs
      × (a ≡ g.id)
      × ((m : UserGroupMembership) × Memᴰ m ms × (p g m ≡ true))
unfolding group_ids
group_ids_sound p ms [] h = elim h [ ]
group_ids_sound p ms (g ∷ gs) h = elim (append_sound (joined_ids p ms g) (group_ids p ms gs) h) [
  | inl l ↦
      let (m, i, e) = map_sound (λ (x : UserGroupMembership). g.id) (keep (p g) ms) l in
      let (j, q) = keep_sound (p g) ms i in (g, Memᴰ.head refl, e, (m, j, q))
  | inr r ↦ let (x, i, e, w) = group_ids_sound p ms gs r in (x, Memᴰ.tail i, e, w)
]

pub group_ids_complete :
    (p : VirtualServerGrant → UserGroupMembership → Bool) (ms : List UserGroupMembership)
    {g : VirtualServerGrant} {m : UserGroupMembership} (gs : List VirtualServerGrant)
    → Memᴰ g gs
    → Memᴰ m ms
    → p g m ≡ true
    → Memᴰ g.id (group_ids p ms gs)
unfolding group_ids
group_ids_complete p ms [] i j h = elim i [ ]
group_ids_complete p ms {g} (x ∷ gs) (Memᴰ.head e) j h =
    append_left (joined_ids p ms x) (group_ids p ms gs) (
      rw e (
        map_complete (λ (y : UserGroupMembership). x.id) (keep (p x) ms)
          (keep_complete (p x) ms j (rw e at h))))
group_ids_complete p ms (x ∷ gs) (Memᴰ.tail i) j h =
    append_right (joined_ids p ms x) (group_ids p ms gs) (group_ids_complete p ms gs i j h)
