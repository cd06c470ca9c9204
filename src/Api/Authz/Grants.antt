-- ===== src/Api/Authz/Grants.antt =====
-- Which grants let a caller pass.
use kmsqr.Base.{
  Bool, Bool-cases, IsIn, IsIn-select, List, Option, Option-cases, Result, String, [], arith,
  both_true, eq_of_str_eq, err, false, find_row, find_row-IsIn, find_row_sound, http, if◌then◌else◌,
  inl, inr, none, not, ok, one_true, refl, select_rows, some, str_eq, true, ◌||◌, ◌∷◌, ◌≡◌, ◌⊎◌,
}
use kmsqr.Api.Texts.{Text, has}
use kmsqr.Api.Auth.{Caller, is_admin}
use kmsqr.Api.Authz.{
  Entry, allows, authorize_key_op, collect, entry_for, grant_ops, granted_on, principal_ops, put,
  strict,
}
use kmsqr.Storage.Schema.{Db, GrantRow}
use kmsqr.Storage.Repository.Keys.{get_key_namespace}
use kmsqr.Storage.Repository.Grants.{get_grants_for_principal}

abbrev entry_of : GrantRow → Entry
entry_of g = record {
  resource_type = g.resource_type;
  resource_id = g.resource_id;
  ops = grant_ops g;
}

put-IsIn : (e x : Entry) (xs : List Entry) → IsIn x (put e xs) → (x ≡ e) ⊎ IsIn x xs
put-IsIn e x [] (inl q) = inl q
put-IsIn e x [] (inr q) = absurd q
put-IsIn e x (y ∷ ys) h =
    at (Bool-cases (entry_for e.resource_type e.resource_id y)) (put-IsIn e x ys)
  where
    at :
        (c : (entry_for e.resource_type e.resource_id y ≡ true)
          ⊎ (entry_for e.resource_type e.resource_id y ≡ false))
        → (IsIn x (put e ys) → (x ≡ e) ⊎ IsIn x ys)
        → (x ≡ e) ⊎ IsIn x (y ∷ ys)
    at (inl hit) rest = elim (rw hit at h) [ inl q ↦ inl q | inr q ↦ inr (inr q) ]
    at (inr miss) rest = elim (rw miss at h) [
      | inl q ↦ inr (inl q)
      | inr q ↦ elim (rest q) [ inl a ↦ inl a | inr b ↦ inr (inr b) ]
    ]

-- an entry of the dictionary comes from a grant
collect-IsIn :
    (x : Entry) (out : List Entry) (gs : List GrantRow)
    → IsIn x (collect out gs)
    → IsIn x out ⊎ ((g : GrantRow) × IsIn g gs × (x ≡ entry_of g))
collect-IsIn x out [] h = inl h
collect-IsIn x out (g ∷ gs) h = elim (collect-IsIn x (put (entry_of g) out) gs h) [
  | inr (a, i, e) ↦ inr (a, inr i, e)
  | inl i ↦ elim (put-IsIn (entry_of g) x out i) [ inl e ↦ inr (g, inl refl, e) | inr j ↦ inl j ]
]

granted_on-entry :
    (rtype rid : String) (op : Text) (entries : List Entry)
    → granted_on rtype rid op entries ≡ true
    → (e : Entry) × IsIn e entries × (entry_for rtype rid e ≡ true) × (has op e.ops ≡ true)
granted_on-entry rtype rid op entries h =
    elim (Option-cases (find_row (entry_for rtype rid) entries)) [
      | inl missing ↦ absurd (no_entry (rw (granted_on, missing) at h))
      | inr (e, found) ↦ (
        e,
        find_row-IsIn (entry_for rtype rid) e entries found,
        find_row_sound (entry_for rtype rid) entries e found,
        rw (granted_on, found) at h,
      )
    ]
  where
    no_entry : false ≡ true → ⊥
    no_entry e = ground arith

-- A grant of the principal on a target, for an operation.
pub record IsGranted (pid rtype rid : String) (op : Text) (db : Db) : Type 0 where
  pub grant : GrantRow
  pub is_in : IsIn grant db.grants
  pub to_principal : grant.principal_id ≡ pid
  pub of_type : grant.resource_type ≡ rtype
  pub on_resource : grant.resource_id ≡ rid
  pub covers : has op (grant_ops grant) ≡ true

granted_on-IsGranted :
    (pid rtype rid : String) (op : Text) (db : Db)
    → granted_on rtype rid op (principal_ops (some pid) db) ≡ true
    → IsGranted pid rtype rid op db
unfolding principal_ops get_grants_for_principal
granted_on-IsGranted pid rtype rid op db h = elim (Bool-cases (str_eq pid "")) [
  | inl empty ↦ absurd (no_entry (rw empty at h))
  | inr named ↦ from_entry (rw named at h)
]
  where
    no_entry : false ≡ true → ⊥
    no_entry e = ground arith

    from_entry :
        granted_on rtype rid op
            (collect [] (select_rows (λ g. str_eq g.principal_id pid) db.grants))
          ≡ true
        → IsGranted pid rtype rid op db
    from_entry h' =
        let (e, i, target, covered) = granted_on-entry rtype rid op _ h' in
        elim (collect-IsIn e [] (select_rows (λ g. str_eq g.principal_id pid) db.grants) i) [
          | inl nothing ↦ absurd nothing
          | inr (g, j, same) ↦
              let (table, owner) = IsIn-select (λ g. str_eq g.principal_id pid) g db.grants j in
              let (type_, id_) =
                both_true (str_eq (entry_of g).resource_type rtype)
                  (str_eq (entry_of g).resource_id rid) (rw same at target) in
              record {
                grant = g;
                is_in = table;
                to_principal = eq_of_str_eq g.principal_id pid owner;
                of_type = eq_of_str_eq g.resource_type rtype type_;
                on_resource = eq_of_str_eq g.resource_id rid id_;
                covers = rw same at covered;
              }
        ]

-- What lets a caller with a principal operate on a key: a grant on the key, or one on the key's
-- namespace.
pub KeyGrant : String → String → Text → Db → Type 0
KeyGrant pid key_id op db =
    IsGranted pid "key" key_id op db
    ⊎ ((ns : String) × (get_key_namespace key_id db ≡ some ns) × IsGranted pid "namespace" ns op db)

allows-grant :
    (pid : Option String) (key_id : String) (ns : Option String) (op : Text) (db : Db)
    → allows pid op (some key_id) ns db ≡ true
    → (q : String) × (pid ≡ some q)
      × (IsGranted q "key" key_id op db
          ⊎ ((n : String) × (ns ≡ some n) × IsGranted q "namespace" n op db))
unfolding allows principal_ops
allows-grant none key_id none op db h = absurd (ground arith)
allows-grant none key_id (some n) op db h = absurd (ground arith)
allows-grant (some q) key_id none op db h =
    (q, refl, inl (granted_on-IsGranted q "key" key_id op db (or_false h)))
  where
    or_false : {a : Bool} → (a || false) ≡ true → a ≡ true
    or_false e = ground arith
allows-grant (some q) key_id (some n) op db h = (
  q,
  refl,
  elim (one_true _ _ h) [
    | inl a ↦ inl (granted_on-IsGranted q "key" key_id op db a)
    | inr b ↦ inr (n, refl, granted_on-IsGranted q "namespace" n op db b)
  ],
)

-- In strict mode a caller without the admin scope passes for an operation on a key only if its
-- principal holds a grant in the table that covers the operation, on that key or on the key's
-- namespace.
pub authorize_key_op-KeyGrant :
    (caller : Caller) (op : Text) (key_id : String) (db : Db)
    → is_admin caller ≡ false
    → authorize_key_op strict caller op key_id db ≡ ok tt
    → (pid : String) × (caller.principal_id ≡ some pid) × KeyGrant pid key_id op db
unfolding authorize_key_op KeyGrant
authorize_key_op-KeyGrant caller op key_id db plain h =
    allows-grant caller.principal_id key_id (get_key_namespace key_id db) op db
      (allowed (rw plain at h))
  where
    allowed :
        {b : Bool}
        → ◌≡◌ {A = Result (Unit {0})} (if not b then err (http 403) else ok tt) (ok tt)
        → b ≡ true
    allowed e = ground arith
