-- ===== src/ApiKeys/Policies/Conform.antt =====
-- What `apply_to_existing_keys` does to the keys.
use vyuu_mcp_gateway.Prelude.{
  ℕ, ◌+◌, String, true, false, Option, none, some, List, [], ◌∷◌, map, keep, keep_sound,
  keep_complete, map_sound, All, Memᴰ, head_or_tail, ◌==◌, ==_iff, ◌≡◌, ◌≢◌, ◌≤◌, refl, sym, ap,
  ◌∙◌, subst, arith, ◌⊎◌, inl, inr, Bool-cases, Option-cases,
}
use vyuu_mcp_gateway.Tables.{AdminAuditActor, seconds, record_action}
use vyuu_mcp_gateway.ApiKeys.{UserApiKey, KeyTables}
use vyuu_mcp_gateway.ApiKeys.Ttl.{resolve_max_ttl}
use vyuu_mcp_gateway.ApiKeys.Policies.{
  NonConformingKey, outlasts, check_key, check_keys, is_live, find_nonconforming_keys, shorten,
  shorten_all, applied, apply_to_existing_keys,
}

-- `user_api_keys.id` is the primary key.
abbrev pub DistinctKeys : List UserApiKey → Type 0
DistinctKeys [] = Unit
DistinctKeys (k ∷ ks) = All (λ j. j.id ≢ k.id) ks × DistinctKeys ks

All_lookup : {A : Type 0} (P : A → Type 0) {x : A} (xs : List A) → All P xs → Memᴰ x xs → P x
All_lookup P [] h m = elim m [ ]
All_lookup P (y ∷ xs) (p, h) (Memᴰ.head e) = subst P (sym e) p
All_lookup P (y ∷ xs) (p, h) (Memᴰ.tail m) = All_lookup P xs h m

same_key :
    (ks : List UserApiKey) {j k : UserApiKey}
    → DistinctKeys ks
    → Memᴰ j ks
    → Memᴰ k ks
    → j.id ≡ k.id
    → j ≡ k
same_key [] d mj mk e = elim mj [ ]
same_key (x ∷ ks) (other, d) (Memᴰ.head p) (Memᴰ.head q) e = p ∙ sym q
same_key (x ∷ ks) (other, d) (Memᴰ.head p) (Memᴰ.tail mk) e =
    absurd (All_lookup _ ks other mk (sym e ∙ ap (λ (z : UserApiKey). z.id) p))
same_key (x ∷ ks) (other, d) (Memᴰ.tail mj) (Memᴰ.head q) e =
    absurd (All_lookup _ ks other mj (e ∙ ap (λ (z : UserApiKey). z.id) q))
same_key (x ∷ ks) (other, d) (Memᴰ.tail mj) (Memᴰ.tail mk) e = same_key ks d mj mk e

-- One key through all the items.
abbrev shortened : List NonConformingKey → UserApiKey → UserApiKey
shortened [] k = k
shortened (i ∷ is) k = shortened is (shorten i k)

shorten_all-map :
    (items : List NonConformingKey) (ks : List UserApiKey)
    → shorten_all items ks ≡ map (shortened items) ks
unfolding shorten_all
shorten_all-map [] [] = refl
shorten_all-map [] (k ∷ ks) = ap (◌∷◌ k) (shorten_all-map [] ks)
shorten_all-map (i ∷ is) ks = shorten_all-map is (map (shorten i) ks) ∙ fused ks
  where
    fused :
        (ks : List UserApiKey)
        → map (shortened is) (map (shorten i) ks) ≡ map (shortened (i ∷ is)) ks
    fused [] = refl
    fused (k ∷ ks) = ap (◌∷◌ (shortened is (shorten i k))) (fused ks)

shorten-row :
    (i : NonConformingKey) (k : UserApiKey) (t : Option ℕ)
    → ◌≡◌ {A = UserApiKey} (record (shorten i k) { expires_at = t }) (record k { expires_at = t })
shorten-row i k t = elim (Bool-cases (k.id == i.key_id)) [
  | inl same ↦ rw same refl
  | inr other ↦ rw other refl
]

shorten-id : (i : NonConformingKey) (k : UserApiKey) → (shorten i k).id ≡ k.id
shorten-id i k = ap (λ (z : UserApiKey). z.id) (shorten-row i k none)

-- Only the expiry of a key changes.
shortened-row :
    (items : List NonConformingKey) (k : UserApiKey)
    → shortened items k ≡ record k { expires_at = (shortened items k).expires_at }
shortened-row [] k = refl
shortened-row (i ∷ is) k = shortened-row is (shorten i k) ∙ shorten-row i k _

-- No item is about the key and it stays as it is, or it gets the expiry of an item about it.
shortened-cases :
    (items : List NonConformingKey) (k : UserApiKey)
    → (All (λ i. i.key_id ≢ k.id) items × (shortened items k ≡ k))
      ⊎ ((i : NonConformingKey) × Memᴰ i items
          × (i.key_id ≡ k.id)
          × ((shortened items k).expires_at ≡ some i.allowed_expires_at))
shortened-cases [] k = inl (tt, refl)
shortened-cases (i ∷ is) k = elim (shortened-cases is (shorten i k)) [
  | inr (j, m, e, x) ↦ inr (j, Memᴰ.tail m, e ∙ shorten-id i k, x)
  | inl (none_later, kept) ↦ elim (Bool-cases (k.id == i.key_id)) [
    | inl same ↦ inr (
      i,
      Memᴰ.head refl,
      sym ((==_iff k.id i.key_id).0 same),
      ap (λ (z : UserApiKey). z.expires_at) kept ∙ given same,
    )
    | inr other ↦ inl (
      (ground (arith, other), subst (λ n. All (λ j. j.key_id ≢ n) is) (shorten-id i k) none_later),
      kept ∙ left other,
    )
  ]
]
  where
    given : (k.id == i.key_id) ≡ true → (shorten i k).expires_at ≡ some i.allowed_expires_at
    given same = rw same refl

    left : (k.id == i.key_id) ≡ false → shorten i k ≡ k
    left other = rw other refl

module _ (moment : ℕ) (ceiling : ℕ → Option ℕ) where
  -- What an item says of the key it is about.
  record Item (ks : List UserApiKey) (i : NonConformingKey) : Type 0 where
    pub key : UserApiKey
    pub listed : Memᴰ key ks
    pub about : i.key_id ≡ key.id
    pub ttl : ℕ
    pub under : ceiling key.user_id ≡ some ttl
    pub allowed : i.allowed_expires_at ≡ moment + seconds ttl
    pub too_long : outlasts (moment + seconds ttl) key.expires_at ≡ true

  later_Item :
      (k : UserApiKey) (ks : List UserApiKey) (i : NonConformingKey) → Item ks i → Item (k ∷ ks) i
  later_Item k ks i t = record {
    key = t.key;
    listed = Memᴰ.tail t.listed;
    about = t.about;
    ttl = t.ttl;
    under = t.under;
    allowed = t.allowed;
    too_long = t.too_long;
  }

  check_keys_sound :
      (ks : List UserApiKey) (i : NonConformingKey)
      → Memᴰ i (check_keys moment ceiling ks)
      → Item ks i
  unfolding check_keys
  check_keys_sound [] i m = elim m [ ]
  check_keys_sound (k ∷ ks) i m = elim (Option-cases (ceiling k.user_id)) [
    | inl free ↦ later_Item k ks i (check_keys_sound ks i (rw free at m))
    | inr (ttl, under) ↦ elim (Bool-cases (outlasts (moment + seconds ttl) k.expires_at)) [
      | inr short ↦ later_Item k ks i (check_keys_sound ks i (rw (under, short) at m))
      | inl long ↦ elim (head_or_tail (rw (under, long) at m)) [
        | inr later ↦ later_Item k ks i (check_keys_sound ks i later)
        | inl e ↦ record {
          key = k;
          listed = Memᴰ.head refl;
          about = ap (λ (z : NonConformingKey). z.key_id) e;
          ttl = ttl;
          under = under;
          allowed = ap (λ (z : NonConformingKey). z.allowed_expires_at) e;
          too_long = long;
        }
      ]
    ]
  ]

  check_key_tail :
      (k : UserApiKey) (c : Option ℕ) {i : NonConformingKey} {out : List NonConformingKey}
      → Memᴰ i out
      → Memᴰ i (check_key moment k c out)
  check_key_tail k none m = m
  check_key_tail k (some ttl) m = elim (Bool-cases (outlasts (moment + seconds ttl) k.expires_at)) [
    | inl long ↦ rw long (Memᴰ.tail m)
    | inr short ↦ rw short m
  ]

  check_keys_complete :
      (ks : List UserApiKey) (k : UserApiKey) (ttl : ℕ)
      → Memᴰ k ks
      → ceiling k.user_id ≡ some ttl
      → outlasts (moment + seconds ttl) k.expires_at ≡ true
      → (i : NonConformingKey) × Memᴰ i (check_keys moment ceiling ks) × (i.key_id ≡ k.id)
  unfolding check_keys
  check_keys_complete [] k ttl m under long = elim m [ ]
  check_keys_complete (x ∷ ks) k ttl (Memᴰ.head e) under long =
      let under_x = subst (λ (z : UserApiKey). ceiling z.user_id ≡ some ttl) e under in
      let long_x =
        subst (λ (z : UserApiKey). outlasts (moment + seconds ttl) z.expires_at ≡ true) e long in
      rw (under_x, long_x) (_, Memᴰ.head refl, ap (λ (z : UserApiKey). z.id) (sym e))
  check_keys_complete (x ∷ ks) k ttl (Memᴰ.tail m) under long =
      let (i, listed, about) = check_keys_complete ks k ttl m under long in
      (i, check_key_tail x (ceiling x.user_id) listed, about)

none_listed : {A : Type 0} (xs : List A) → ((x : A) → ¬ Memᴰ x xs) → xs ≡ []
none_listed [] h = refl
none_listed (x ∷ xs) h = absurd (h x (Memᴰ.head refl))

module _ (tenant moment : ℕ) (ceiling : ℕ → Option ℕ) (keys : List UserApiKey)
    (distinct : DistinctKeys keys) where
  abbrev items : List NonConformingKey
  items = check_keys moment ceiling (keep (is_live tenant) keys)

  -- A live key, after all the items, is under the ceiling of its user.
  conforms :
      (k : UserApiKey) (ttl : ℕ)
      → Memᴰ k keys
      → is_live tenant k ≡ true
      → ceiling k.user_id ≡ some ttl
      → outlasts (moment + seconds ttl) (shortened items k).expires_at ≡ false
  conforms k ttl m live under = elim (shortened-cases items k) [
    | inl (no_item, kept) ↦ elim (Bool-cases (outlasts (moment + seconds ttl) k.expires_at)) [
      | inr short ↦ rw kept short
      | inl long ↦
          let (i, listed, about) =
            check_keys_complete moment ceiling (keep (is_live tenant) keys) k ttl
              (keep_complete (is_live tenant) keys m live) under long in
          absurd (All_lookup _ items no_item listed about)
    ]
    | inr (i, listed, about, given) ↦
        let item = check_keys_sound moment ceiling (keep (is_live tenant) keys) i listed in
        let (key_listed, _) = keep_sound (is_live tenant) keys item.listed in
        let same = same_key keys distinct key_listed m (sym item.about ∙ about) in
        let same_ttl : some item.ttl ≡ some ttl =
          sym item.under ∙ ap (λ (z : UserApiKey). ceiling z.user_id) same ∙ under in
        rw given (ground (arith, item.allowed, same_ttl))
  ]

  nothing_left : check_keys moment ceiling (keep (is_live tenant) (map (shortened items) keys)) ≡ []
  nothing_left = none_listed _ λ i listed.
      let item =
        check_keys_sound moment ceiling (keep (is_live tenant) (map (shortened items) keys)) i
          listed in
      let (mapped, live) = keep_sound (is_live tenant) (map (shortened items) keys) item.listed in
      let (k, m, is_k) = map_sound (shortened items) keys mapped in
      let row = is_k ∙ shortened-row items k in
      let short =
        conforms k item.ttl m (sym (ap (is_live tenant) row) ∙ live)
          (sym (ap (λ (z : UserApiKey). ceiling z.user_id) row) ∙ item.under) in
      ground (arith, short, item.too_long, ap (λ (z : UserApiKey). z.expires_at) is_k)

applied-conforms :
    (uuid_text : ℕ → String) (tenant : ℕ) (actor : AdminAuditActor) (moment : ℕ) (db : KeyTables)
    → DistinctKeys db.keys
    → (items : List NonConformingKey) → find_nonconforming_keys tenant moment db ≡ items
    → find_nonconforming_keys tenant moment (applied uuid_text tenant actor db items).0 ≡ []
unfolding find_nonconforming_keys applied record_action resolve_max_ttl
applied-conforms uuid_text tenant actor moment db distinct [] found = found
applied-conforms uuid_text tenant actor moment db distinct (item ∷ items) found =
    ap (λ ks. check_keys moment ceiling (keep (is_live tenant) ks))
      (shorten_all-map (item ∷ items) db.keys)
    ∙ subst
        (λ is. check_keys moment ceiling (keep (is_live tenant) (map (shortened is) db.keys)) ≡ [])
        found (nothing_left tenant moment ceiling db.keys distinct)
  where
    ceiling : ℕ → Option ℕ
    ceiling uid = (resolve_max_ttl tenant uid db).max_ttl_seconds

nothing_found :
    (uuid_text : ℕ → String) (tenant : ℕ) (actor : AdminAuditActor) (moment : ℕ) (db : KeyTables)
    → DistinctKeys db.keys
    → find_nonconforming_keys tenant moment
        (apply_to_existing_keys uuid_text tenant actor moment db).0
      ≡ []
unfolding apply_to_existing_keys
nothing_found uuid_text tenant actor moment db distinct =
    applied-conforms uuid_text tenant actor moment db distinct _ refl

-- An expiry that does not outlast a moment is there, and not after it.
within :
    (allowed : ℕ) (expiry : Option ℕ)
    → outlasts allowed expiry ≡ false
    → (t : ℕ) × (expiry ≡ some t) × (t ≤ allowed)
within allowed none h = absurd (ground arith)
within allowed (some t) h = (t, refl, ground arith)

conforming :
    (tenant moment : ℕ) (db : KeyTables) (k : UserApiKey) (ttl : ℕ)
    → find_nonconforming_keys tenant moment db ≡ []
    → Memᴰ k db.keys
    → is_live tenant k ≡ true
    → (resolve_max_ttl tenant k.user_id db).max_ttl_seconds ≡ some ttl
    → outlasts (moment + seconds ttl) k.expires_at ≡ false
unfolding find_nonconforming_keys
conforming tenant moment db k ttl nothing m live under =
    elim (Bool-cases (outlasts (moment + seconds ttl) k.expires_at)) [
      | inr short ↦ short
      | inl long ↦
          let (i, listed, _) =
            check_keys_complete moment (λ uid. (resolve_max_ttl tenant uid db).max_ttl_seconds)
              (keep (is_live tenant) db.keys) k ttl (keep_complete (is_live tenant) db.keys m live)
              under long in
          absurd (none_in (rw nothing at listed))
    ]
  where
    none_in : {i : NonConformingKey} → Memᴰ i [] → ⊥
    none_in n = elim n [ ]

-- After apply_to_existing_keys, where key ids are distinct: each key of the tenant that is not revoked, and
-- whose user then has a ceiling, has an expiry, which is at most the ceiling after the moment of the check.
pub apply_conforms :
    (uuid_text : ℕ → String) (tenant : ℕ) (actor : AdminAuditActor) (moment : ℕ) (db : KeyTables)
    (k : UserApiKey) (ttl : ℕ)
    → DistinctKeys db.keys
    → Memᴰ k (apply_to_existing_keys uuid_text tenant actor moment db).0.keys
    → k.tenant_id ≡ tenant
    → k.revoked_at ≡ none
    → (resolve_max_ttl tenant k.user_id
        (apply_to_existing_keys uuid_text tenant actor moment db).0).max_ttl_seconds
      ≡ some ttl
    → (t : ℕ) × (k.expires_at ≡ some t) × (t ≤ moment + seconds ttl)
apply_conforms uuid_text tenant actor moment db k ttl distinct m same live under = within _ _ (
    conforming tenant moment (apply_to_existing_keys uuid_text tenant actor moment db).0 k ttl
      (nothing_found uuid_text tenant actor moment db distinct) m (ground arith) under)
