-- ===== src/Search/Columns/Shown.antt =====
-- Which columns are shown after each choice, and what a later visit loads.
use mathlib.Core.Path.{subst}
use cuttlefish.Common.{
  Bool, true, false, ◌&&◌, ◌||◌, String, List, [], ◌∷◌, ◌++◌, ◌≡◌, refl, ◌≢◌, sym, ap, ◌∙◌, none,
  some, filter, map, not, str_eq, if◌then◌else◌, eq_iff, eq_refl, arith, All, filter-eq_self,
  and-eq-true, All-filter, Bool-cases, inl, inr, ◌⊎◌,
}
use cuttlefish.Format.{Print}
use cuttlefish.Search.Json.{Js, Json, str, items, items_of, texts}
use cuttlefish.Search.Columns.{
  columns, column_keys, contains, order_columns, Stored, denied, missing, stored, Selection, store,
  texts_json, show_columns, apply_column_keys, toggle_column, load_columns, or_default,
  columns_of_json,
}

-- The table of keys is the table of columns.
map-key-columns : (p : Print) → map (λ c. c.key) (columns p) ≡ column_keys
unfolding column_keys
map-key-columns p = refl

contains-filter :
    (p : String → Bool) (keys : List String) (k : String)
    → contains (filter p keys) k ≡ (contains keys k && p k)
unfolding contains
contains-filter p [] k = refl
contains-filter p (j ∷ keys) k = elim (Bool-cases (str_eq j k)) [
  | inl e ↦ ground (arith, ap p ((eq_iff j k).0 e), contains-filter p keys k)
  | inr e ↦ ground (arith, contains-filter p keys k)
]

contains-nil : (k : String) → contains [] k ≡ false
unfolding contains
contains-nil k = refl

contains-append :
    (xs ys : List String) (k : String) → contains (xs ++ ys) k ≡ (contains xs k || contains ys k)
unfolding contains
contains-append [] ys k = refl
contains-append (x ∷ xs) ys k = ground (arith, contains-append xs ys k)

filter_ext :
    (p q : String → Bool) (xs : List String) → All (λ x. p x ≡ q x) xs → filter p xs ≡ filter q xs
filter_ext p q [] h = refl
filter_ext p q (x ∷ xs) h = ground (arith, filter_ext p q xs h.1)

-- A predicate of every member holds of the whole list.
All_of_contains :
    (P : String → Type 0) (xs : List String)
    → ((k : String) → contains xs k ≡ true → P k)
    → All P xs
unfolding contains
All_of_contains P [] f = tt
All_of_contains P (x ∷ xs) f =
    (f x (ground (arith, eq_refl x)), All_of_contains P xs (λ k h. f k (ground arith)))

contains_of_All :
    (P : String → Type 0) (xs : List String) (k : String) → All P xs → contains xs k ≡ true → P k
unfolding contains
contains_of_All P [] k h c = cc
contains_of_All P (x ∷ xs) k h c = elim (Bool-cases (str_eq x k)) [
  | inl e ↦ subst P ((eq_iff x k).0 e) h.0
  | inr e ↦ contains_of_All P xs k h.1 (ground arith)
]

pub contains-order_columns :
    (keys : List String) (k : String)
    → contains (order_columns keys) k ≡ (contains column_keys k && contains keys k)
unfolding order_columns
contains-order_columns keys k = contains-filter (contains keys) column_keys k

filter-contains :
    (p : String → Bool) (xs : List String) → filter (contains (filter p xs)) xs ≡ filter p xs
filter-contains p xs = filter_ext (contains (filter p xs)) p xs (
    All_of_contains (λ k. contains (filter p xs) k ≡ p k) xs (λ k h. contains-filter p xs k ∙ cc h))

-- Putting the columns in order a second time changes nothing.
pub order_columns_idem :
    (keys : List String) → order_columns (order_columns keys) ≡ order_columns keys
unfolding order_columns
order_columns_idem keys = filter-contains (contains keys) column_keys

-- What is shown is in the table's order, names columns only, and is not empty.
pub record IsShown (shown : List String) : Type 0 where
  pub ordered : order_columns shown ≡ shown
  pub some_shown : shown ≢ []

-- What the choice asks for: the column flipped, the others as they were.
abbrev pub toggled : List String → String → List String
toggled shown key =
    if contains shown key then filter (λ k. not (str_eq k key)) shown else shown ++ key ∷ []

contains-toggled :
    (shown : List String) (key k : String)
    → contains (toggled shown key) k
      ≡ (if str_eq key k then not (contains shown key) else contains shown k)
contains-toggled shown key k = elim (Bool-cases (contains shown key)) [
  | inl on ↦ rw on (
      contains-filter (λ j. not (str_eq j key)) shown k
      ∙ ground (arith, eq_iff k key, eq_iff key k, on))
  | inr off ↦ rw off (
      contains-append shown (key ∷ []) k
      ∙ unfold contains in ground (arith, ap (contains shown) ((eq_iff key k).0 _)))
]

-- What a click on a column's box leaves.
abbrev pub Toggles : String → Selection → Selection → Type 0
Toggles key s s' =
    IsShown s'.shown
    × (((k : String)
          → contains s'.shown k ≡ (
              contains column_keys k
              && (if str_eq key k then not (contains s.shown key) else contains s.shown k)))
        ⊎ ((s' ≡ s) × All (λ k. k ≡ key) s.shown))

module _ (js : Js) (s : Selection) (key : String) (h : IsShown s.shown) where
  is_column : (k : String) → contains s.shown k ≡ true → contains column_keys k ≡ true
  is_column k c =
      (and-eq-true _ _
        (sym (contains-order_columns s.shown k) ∙ ap (λ l. contains l k) h.ordered ∙ c)).0

  -- A column other than the one that was clicked is still among those asked for.
  only_key :
      order_columns (toggled s.shown key) ≡ [] → (k : String) → contains s.shown k ≡ true → k ≡ key
  only_key e k c = elim (Bool-cases (str_eq key k)) [
    | inl same ↦ sym ((eq_iff key k).0 same)
    | inr other ↦ cc (
      contains-order_columns (toggled s.shown key) k,
      is_column k c,
      contains-toggled s.shown key k,
      other,
      c,
      ap (λ l. contains l k) e,
      contains-nil k,
    )
  ]

  Toggles-of_order :
      (o : List String)
      → order_columns (toggled s.shown key) ≡ o
      → Toggles key s (show_columns js s o)
  Toggles-of_order [] e = (h, inr (refl, All_of_contains (λ k. k ≡ key) s.shown (only_key e)))
  Toggles-of_order (k ∷ ks) e = (
    record {
      ordered = ap order_columns (sym e) ∙ order_columns_idem (toggled s.shown key) ∙ e;
      some_shown = λ n. cc;
    },
    inl (λ j.
        ap (λ l. contains l j) (sym e)
        ∙ contains-order_columns (toggled s.shown key) j
        ∙ ap (λ b. contains column_keys j && b) (contains-toggled s.shown key j)),
  )

-- Ticking a column's box shows exactly that column more or less, in the table's order and never no
-- column; but if it is the only column shown, nothing changes. The columns shown before are in the
-- table's order and not none.
pub toggle_column-Toggles :
    (js : Js) (s : Selection) (key : String)
    → IsShown s.shown
    → Toggles key s (toggle_column js s key)
unfolding toggle_column
toggle_column-Toggles js s key h =
    Toggles-of_order js s key h (order_columns (toggled s.shown key)) refl

pub texts-items : (keys : List String) → texts (items (items_of (map str keys))) ≡ keys
texts-items [] = refl
texts-items (k ∷ keys) = ap (λ t. k ∷ t) (texts-items keys)

-- The columns in a text that was written for a list of columns in order.
columns_of_json-texts :
    (k : String) (ks : List String)
    → filter (contains column_keys) (k ∷ ks) ≡ k ∷ ks
    → columns_of_json (texts_json (k ∷ ks)) ≡ k ∷ ks
unfolding columns_of_json
columns_of_json-texts k ks h =
    ap (λ l. or_default (filter (contains column_keys) l)) (texts-items (k ∷ ks)) ∙ ap or_default h

order_columns-known :
    (keys : List String) → filter (contains column_keys) (order_columns keys) ≡ order_columns keys
unfolding order_columns
order_columns-known keys =
    filter-eq_self (contains column_keys) (filter (contains keys) column_keys) (
      All-filter (λ k. contains column_keys k ≡ true) (contains keys) column_keys
        (All_of_contains (λ k. contains column_keys k ≡ true) column_keys (λ k h. h)))

load_columns-stored :
    (js : Js) (v : Json)
    → js.parse "" ≡ none
    → js.parse (js.stringify v) ≡ some v
    → load_columns js (stored (js.stringify v)) ≡ columns_of_json v
unfolding load_columns
load_columns-stored js v empty back = elim (Bool-cases (str_eq (js.stringify v) "")) [
  | inl e ↦ cc (ap js.parse ((eq_iff (js.stringify v) "").0 e), empty, back)
  | inr e ↦ rw (e, back) refl
]

-- A later visit loads the columns that were chosen, where storage is not denied and at least one of
-- the keys names a column; `JSON.parse` refuses the empty text and undoes `JSON.stringify` on the
-- list that is stored.
pub load-apply_column_keys :
    (js : Js) (s : Selection) (keys : List String)
    → s.storage ≢ denied
    → order_columns keys ≢ []
    → js.parse "" ≡ none
    → js.parse (js.stringify (texts_json (order_columns keys)))
      ≡ some (texts_json (order_columns keys))
    → load_columns js (apply_column_keys js s keys).storage ≡ (apply_column_keys js s keys).shown
unfolding apply_column_keys
load-apply_column_keys js s keys kept named empty back =
    loads (order_columns keys) named (order_columns-known keys) back
  where
    store-stored : (t : String) → store s.storage t ≡ stored t
    store-stored t = storage s.storage kept
      where
        storage : (o : Stored) → o ≢ denied → store o t ≡ stored t
        storage denied n = absurd (n refl)
        storage missing n = refl
        storage (stored old) n = refl

    loads :
        (o : List String)
        → o ≢ []
        → filter (contains column_keys) o ≡ o
        → js.parse (js.stringify (texts_json o)) ≡ some (texts_json o)
        → load_columns js (show_columns js s o).storage ≡ (show_columns js s o).shown
    loads [] n known b = absurd (n refl)
    loads (k ∷ ks) n known b =
        ap (load_columns js) (store-stored _)
        ∙ load_columns-stored js (texts_json (k ∷ ks)) empty b
        ∙ columns_of_json-texts k ks known
