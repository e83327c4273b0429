-- ===== src/Search/Json.antt =====
-- JSON values, and JavaScript's own conversions of them as the parameter `Js`. A number is a decimal,
-- `num m e` for m / 10 ^ e.
use cuttlefish.Common.{ℕ, Bool, String, List, [], ◌∷◌, Option, none, some, str_eq, if◌then◌else◌}
use cuttlefish.Common.Int.{ℤ}

mutual
  pub data Json : Type 0 where
    null : Json
    bool : Bool → Json
    num : ℤ → ℕ → Json
    str : String → Json
    arr : Items → Json
    obj : Props → Json

  pub data Items : Type 0 where
    nil : Items
    cons : Json → Items → Items

  pub data Props : Type 0 where
    end : Props
    prop : String → Json → Props → Props

pub record Js : Type 0 where
  -- `JSON.parse`, `none` where it throws
  pub parse : String → Option Json
  -- `JSON.stringify`
  pub stringify : Json → String
  -- `String(v)` of a number, an array or an object
  pub spell : Json → String
  -- `Math.floor(Number(s))` of a text, `none` where it is not finite
  pub floor_number : String → Option ℤ

abbrev pub lookup : String → Props → Option Json
lookup k end = none
lookup k (prop j v r) = if str_eq j k then some v else lookup k r

-- `v?.key`: a value that is no object has no such property.
abbrev pub get : Json → String → Option Json
get null k = none
get (bool b) k = none
get (num m e) k = none
get (str s) k = none
get (arr xs) k = none
get (obj ps) k = lookup k ps

abbrev pub items : Items → List Json
items nil = []
items (cons x xs) = x ∷ items xs

abbrev pub items_of : List Json → Items
items_of [] = nil
items_of (x ∷ xs) = cons x (items_of xs)

-- The texts among the elements: no other value is `===` to one.
abbrev pub texts : List Json → List String
texts [] = []
texts (str s ∷ r) = s ∷ texts r
texts (null ∷ r) = texts r
texts (bool b ∷ r) = texts r
texts (num m e ∷ r) = texts r
texts (arr xs ∷ r) = texts r
texts (obj ps ∷ r) = texts r
