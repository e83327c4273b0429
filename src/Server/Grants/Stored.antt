-- ===== src/Server/Grants/Stored.antt =====
-- The grants of the table are canonical paths.
use cuttlefish.Common.{
  String, List, [], ◌∷◌, Option, none, some, All, All-filter, not, Bool-cases, inl, inr, any,
  str_eq, ◌&&◌, ◌||◌,
}
use cuttlefish.Common.Int.{ℤ}
use cuttlefish.Common.Text.{starts_with}
use cuttlefish.Types.{Grant, GroupType}
use cuttlefish.Server.Paths.Canonical.{IsCanonical, clean-IsCanonical}
use cuttlefish.Server.Grants.{
  Grants, GrantRequest, add_grant, add_checked, store, delete_grant, is_idp, grant_everyone,
  type_of, same_grant, has_id,
}

abbrev pub AreStored : List Grant → Type 0
AreStored rows = All (λ (g : Grant). IsCanonical g.path_prefix) rows

-- What an admin does to the table.
pub data Edit : Type 0 where
  add : String → String → GrantRequest → Edit
  delete : Option ℤ → Edit

abbrev pub edit : (String → String) → Edit → Grants → Grants
edit trim (add by now r) t = (add_grant trim by now r t).0
edit trim (delete id) t = (delete_grant id t).0

abbrev pub edits : (String → String) → List Edit → Grants → Grants
edits trim [] t = t
edits trim (e ∷ es) t = edits trim es (edit trim e t)

store-AreStored :
    (g : Grant) (t : Grants)
    → IsCanonical g.path_prefix
    → AreStored t.rows
    → AreStored (store g t).0.rows
store-AreStored g t c h = elim (Bool-cases (any (same_grant g) t.rows)) [
  | inl e ↦ rw e h
  | inr e ↦ rw e (c, h)
]

add_checked-AreStored :
    (kind : Option GroupType) (group prefix by now : String) (t : Grants)
    → AreStored t.rows
    → AreStored (add_checked kind group prefix by now t).0.rows
add_checked-AreStored none group prefix by now t h = h
add_checked-AreStored (some kind) group prefix by now t h =
    elim (Bool-cases (str_eq group "" || not (starts_with prefix "/"))) [
      | inl e ↦ rw e h
      | inr e ↦ rw e (elim (Bool-cases (not (is_idp kind) && str_eq group grant_everyone)) [
        | inl f ↦ rw f h
        | inr f ↦ rw f (store-AreStored _ t (clean-IsCanonical prefix) h)
      ])
    ]

edit-AreStored :
    (trim : String → String) (e : Edit) (t : Grants)
    → AreStored t.rows
    → AreStored (edit trim e t).rows
unfolding add_grant delete_grant
edit-AreStored trim (add by now r) t h = add_checked-AreStored (type_of r.group_type) _ _ by now t h
edit-AreStored trim (delete none) t h = h
edit-AreStored trim (delete (some id)) t h =
    All-filter _ (λ (g : Grant). not (has_id id g)) t.rows h

pub edits-AreStored :
    (trim : String → String) (es : List Edit) (t : Grants)
    → AreStored t.rows
    → AreStored (edits trim es t).rows
edits-AreStored trim [] t h = h
edits-AreStored trim (e ∷ es) t h =
    edits-AreStored trim es (edit trim e t) (edit-AreStored trim e t h)
