-- ===== src/Json.antt =====
-- JSON values as Python's `json` decodes them: a dict has each key once, and `None` is the null.
-- A number is kept as it is printed, with what a test for truth needs; no arithmetic is done on it.
pub mod Dumps
pub mod Loads
use odoo_cloudflare_email.Prelude.{Bool, true, false, not, List, [], ◌∷◌, if◌then◌else◌, is_empty}
use odoo_cloudflare_email.Text.{Text, text_eq}

pub record Number : Type 0 where
  pub printed : Text
  pub is_zero : Bool

mutual
  pub data Json : Type 0 where
    null : Json
    bool : Bool → Json
    num : Number → Json
    str : Text → Json
    arr : Items → Json
    obj : Fields → Json

  pub data Items : Type 0 where
    nil : Items
    cons : Json → Items → Items

  pub data Fields : Type 0 where
    end : Fields
    field : Text → Json → Fields → Fields

abbrev pub items : Items → List Json
items nil = []
items (cons v vs) = v ∷ items vs

abbrev pub of_items : List Json → Items
of_items [] = nil
of_items (v ∷ vs) = cons v (of_items vs)

abbrev pub keys : Fields → List Text
keys end = []
keys (field k v fs) = k ∷ keys fs

-- `d.get(key)` of a dict.
unfoldable pub get : Text → Fields → Json
get k end = null
get k (field j v fs) = if text_eq j k then v else get k fs

-- Python's truth value.
abbrev pub truthy : Json → Bool
truthy null = false
truthy (bool b) = b
truthy (num n) = not n.is_zero
truthy (str s) = not (is_empty s)
truthy (arr nil) = false
truthy (arr (cons v vs)) = true
truthy (obj end) = false
truthy (obj (field k v fs)) = true
