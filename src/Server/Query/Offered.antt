-- ===== src/Server/Query/Offered.antt =====
-- What the page of searches offers is what the server accepts: fs_ui/src/pages/SearchPage.tsx against
-- fs_api/search.go.
use mathlib.Core.Path.{subst}
use cuttlefish.Common.{
  Bool, true, false, String, List, [], ◌∷◌, some, map, any, all-All, ◌&&◌, All, ◌≡◌, refl, arith,
  str_eq, eq_iff, Bool-cases, inl, inr, ◌⊎◌,
}
use cuttlefish.Common.Int.{ℤ, pos}
use cuttlefish.Types.{
  SearchRule, SearchRequest, SearchField, path_field, uid_field, gid_field, user_field, group_field,
  file_type_field, size_field, mtime_field, atime_field, ctime_field, dir_total_size_field,
  dir_file_count_field, dir_mtime_first_field, dir_mtime_last_field, dir_atime_first_field,
  dir_atime_last_field, dir_ctime_first_field, dir_ctime_last_field,
}
use cuttlefish.Search.Fields.{
  field_name, offers, operators_for, sort_options, Choice, choice, number_operators,
  timestamp_operators, file_type_operators, text_operators,
}
use cuttlefish.Search.Saved.{show_connector, show_order, is_negated}
use cuttlefish.Search.Saved.RoundTrip.{IsValidRule}
use cuttlefish.Server.Query.{
  Go, Column, column_of, parse_number, build_condition, numeric_op, text_op, Rule, SearchBody,
  build_search_where, Built, built, bad_request, Sorting, sort_column, search_sort_columns, Clause,
  Condition, Value, build_rule, extend, Connector, connector_of, bind_number, TextTest,
}

-- The rule as it is sent.
abbrev pub sent_rule : SearchRule → Rule
sent_rule r = record {
  field = field_name r.field;
  operator = r.operator;
  value = r.value;
  connector = show_connector r.connector;
  negate = is_negated r.negate;
}

abbrev pub sent_body : SearchRequest → SearchBody
sent_body r = record {
  rules = map sent_rule r.rules;
  sort_by = r.sort_by;
  order = show_order r.order;
  limit = pos r.limit;
  offset = pos r.offset;
}

offers-cons :
    (value label : String) (rest : List Choice) (op : String)
    → offers (choice value label ∷ rest) op ≡ true
    → (value ≡ op) ⊎ (offers rest op ≡ true)
unfolding offers
offers-cons value label rest op h = elim (Bool-cases (str_eq value op)) [
  | inl e ↦ inl ((eq_iff value op).0 e)
  | inr e ↦ inr (ground arith)
]

offers-nil : (op : String) → offers [] op ≡ true → ⊥
unfolding offers
offers-nil op h = cc

abbrev IsNumeric : String → Type 0
IsNumeric op = (o : String) × (numeric_op op ≡ some o)

abbrev IsTextual : String → Type 0
IsTextual op = (value : String) → (t : TextTest) × (text_op op value ≡ some t)

-- A table of operators all of which have a property.
abbrev AllChoices : (String → Type 0) → List Choice → Type 0
AllChoices P l = All (λ (c : Choice). P c.value) l

choices-accept :
    (P : String → Type 0) (l : List Choice) (op : String)
    → AllChoices P l
    → offers l op ≡ true
    → P op
choices-accept P [] op all h = absurd (offers-nil op h)
choices-accept P (c ∷ l) op (p, all) h = elim (offers-cons c.value c.label l op h) [
  | inl e ↦ subst P e p
  | inr m ↦ choices-accept P l op all m
]

number-accepts : (op : String) → offers number_operators op ≡ true → IsNumeric op
number-accepts op h =
    choices-accept IsNumeric number_operators op ((_, refl), ((_, refl), ((_, refl), tt))) h

timestamp-accepts : (op : String) → offers timestamp_operators op ≡ true → IsNumeric op
timestamp-accepts op h =
    choices-accept IsNumeric timestamp_operators op ((_, refl), ((_, refl), ((_, refl), tt))) h

file_type-accepts : (op : String) → offers file_type_operators op ≡ true → IsNumeric op
file_type-accepts op h = choices-accept IsNumeric file_type_operators op ((_, refl), tt) h

text-accepts : (op : String) → offers text_operators op ≡ true → IsTextual op
unfolding text_op
text-accepts op h =
    choices-accept IsTextual text_operators op
      (
        (λ v. (_, refl)),
        (
          (λ v. (_, refl)),
          ((λ v. (_, refl)), ((λ v. (_, refl)), ((λ v. (_, refl)), ((λ v. (_, refl)), tt)))),
        ),
      )
      h

-- The server has the field's column, and the operator for it.
pub field_accepts :
    (f : SearchField) (op : String)
    → offers (operators_for f) op ≡ true
    → (c : Column) × (column_of (field_name f) ≡ some c)
      × (((c.numeric ≡ true) × IsNumeric op) ⊎ ((c.numeric ≡ false) × IsTextual op))
unfolding operators_for column_of
field_accepts path_field op h = (_, refl, inr (refl, text-accepts op h))
field_accepts uid_field op h = (_, refl, inl (refl, number-accepts op h))
field_accepts gid_field op h = (_, refl, inl (refl, number-accepts op h))
field_accepts user_field op h = (_, refl, inr (refl, text-accepts op h))
field_accepts group_field op h = (_, refl, inr (refl, text-accepts op h))
field_accepts file_type_field op h = (_, refl, inl (refl, file_type-accepts op h))
field_accepts size_field op h = (_, refl, inl (refl, number-accepts op h))
field_accepts mtime_field op h = (_, refl, inl (refl, timestamp-accepts op h))
field_accepts atime_field op h = (_, refl, inl (refl, timestamp-accepts op h))
field_accepts ctime_field op h = (_, refl, inl (refl, timestamp-accepts op h))
field_accepts dir_total_size_field op h = (_, refl, inl (refl, number-accepts op h))
field_accepts dir_file_count_field op h = (_, refl, inl (refl, number-accepts op h))
field_accepts dir_mtime_first_field op h = (_, refl, inl (refl, timestamp-accepts op h))
field_accepts dir_mtime_last_field op h = (_, refl, inl (refl, timestamp-accepts op h))
field_accepts dir_atime_first_field op h = (_, refl, inl (refl, timestamp-accepts op h))
field_accepts dir_atime_last_field op h = (_, refl, inl (refl, timestamp-accepts op h))
field_accepts dir_ctime_first_field op h = (_, refl, inl (refl, timestamp-accepts op h))
field_accepts dir_ctime_last_field op h = (_, refl, inl (refl, timestamp-accepts op h))

-- A numeric field's value can be read as a number.
abbrev pub Parses : Go → SearchRule → Type 0
Parses go r =
    (c : Column)
    → column_of (field_name r.field) ≡ some c
    → c.numeric ≡ true
    → (n : ℤ) × (parse_number go c r.value ≡ some n)

abbrev pub IsAccepted : Built (Condition × List Value) → Type 0
IsAccepted (bad_request m) = ⊥
IsAccepted (built b) = Unit

bind_number-IsAccepted :
    (args : List Value) (c : Column) (op o : String) (n : ℤ)
    → IsAccepted (bind_number args c op (some o) (some n))
bind_number-IsAccepted args c op o n = tt

rule-IsAccepted :
    (go : Go) (r : SearchRule) (args : List Value)
    → offers (operators_for r.field) r.operator ≡ true
    → Parses go r
    → IsAccepted (build_rule go (sent_rule r) (column_of (field_name r.field)) args)
unfolding build_condition
rule-IsAccepted go r args h parses =
    let (c, e, kind) = field_accepts r.field r.operator h in
    elim kind [
      | inl (numeric, (o, f)) ↦
          let (n, g) = parses c e numeric in rw e (rw numeric (rw f (rw g tt)))
      | inr (textual, t) ↦ rw e (rw textual (rw (t r.value).1 tt))
    ]

abbrev pub AreAccepted : Built (Clause × List Value) → Type 0
AreAccepted (bad_request m) = ⊥
AreAccepted (built b) = Unit

extend-AreAccepted :
    (connector : Connector) (negate : Bool) (c : Condition) (rest : Built (Clause × List Value))
    → AreAccepted rest
    → AreAccepted (extend connector negate rest c)
extend-AreAccepted connector negate c (bad_request m) h = h
extend-AreAccepted connector negate c (built (clause, args)) h = tt

rule-AreAccepted :
    (go : Go) (r : Rule) (later : List Value → Built (Clause × List Value))
    (b : Built (Condition × List Value))
    → IsAccepted b
    → ((args : List Value) → AreAccepted (later args))
    → AreAccepted (elim b [
      | bad_request m ↦ bad_request m
      | built (c, args') ↦ extend (connector_of go r.connector) r.negate (later args') c
    ])
rule-AreAccepted go r later (bad_request m) h ih = h
rule-AreAccepted go r later (built (c, args)) h ih =
    extend-AreAccepted (connector_of go r.connector) r.negate c (later args) (ih args)

pub rules-AreAccepted :
    (go : Go) (rules : List SearchRule) (args : List Value)
    → All IsValidRule rules
    → All (Parses go) rules
    → AreAccepted (build_search_where go (map sent_rule rules) args)
unfolding build_search_where
rules-AreAccepted go [] args h k = tt
rules-AreAccepted go (r ∷ rules) args (h, hs) (k, ks) =
    rule-AreAccepted go (sent_rule r) (build_search_where go (map sent_rule rules))
      (build_rule go (sent_rule r) (column_of (field_name r.field)) args)
      (rule-IsAccepted go r args h.offered k) (λ args'. rules-AreAccepted go rules args' hs ks)

-- The list of what the server sorts by has the key with the column.
abbrev pub sorts : String → String → Bool
sorts key column =
    any (λ (s : Sorting). str_eq s.key key && str_eq s.column column) search_sort_columns

-- The sort keys that the page offers are the server's.
pub sort_options-sorts :
    (key : String) → offers sort_options key ≡ true → sorts key (sort_column key) ≡ true
unfolding sort_column
sort_options-sorts key h =
    choices-accept (λ k. sorts k (sort_column k) ≡ true) sort_options key
      (all-All (λ (c : Choice). sorts c.value (sort_column c.value)) sort_options refl) h
