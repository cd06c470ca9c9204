-- ===== src/Custody/Json.antt =====
-- The values of Python's json module, and the module's two functions as a parameter.
use kmsqr.Base.{
  [], ◌∷◌, List, Bool, Bytes, Option, Result, String, attribute_error, bytes_eq, codes, err, false,
  if◌then◌else◌, key_error, none, not, ok, some, true, type_error, ℕ, ◌&&◌, ◌==◌, ◌≡◌,
}
use kmsqr.Api.Texts.{is_empty, Text, text_leb}

-- `strs` is a list of texts; `unread` stands for another list, or a number that is not a natural.
mutual
  pub data Json : Type 0 where
    null : Json
    boolean : Bool → Json
    number : ℕ → Json
    str : Text → Json
    strs : List Text → Json
    dict : Fields → Json
    unread : Json

  pub data Fields : Type 0 where
    end : Fields
    field : Text → Json → Fields → Fields

-- the value that a dictionary has for a key
abbrev pub lookup : String → Fields → Option Json
lookup k end = none
lookup k (field j v fs) = let rest = lookup k fs in if bytes_eq j (codes k) then some v else rest

-- `d.get(k, default)`, which only a dictionary has
abbrev pub get_or : String → Json → Json → Result Json
get_or k default (dict fs) = elim (lookup k fs) [ none ↦ ok default | some v ↦ ok v ]
get_or k default _ = err attribute_error

-- `d[k]`
abbrev pub item : String → Json → Result Json
item k (dict fs) = elim (lookup k fs) [ none ↦ err key_error | some v ↦ ok v ]
item k _ = err type_error

-- an argument of a function that takes an integer
abbrev pub as_int : Json → Result ℕ
as_int (number n) = ok n
as_int (boolean true) = ok 1
as_int (boolean false) = ok 0
as_int _ = err type_error

-- `v == 1`, where True is 1
abbrev pub is_one : Json → Bool
is_one (number n) = n == 1
is_one (boolean b) = b
is_one _ = false

-- `v == t` for a text t
abbrev pub is_str : Text → Json → Bool
is_str t (str s) = bytes_eq s t
is_str t _ = false

-- `bool(v)`
abbrev pub is_true : Json → Bool
is_true null = false
is_true (boolean b) = b
is_true (number n) = not (n == 0)
is_true (str s) = not (is_empty s)
is_true (strs []) = false
is_true (strs (t ∷ ts)) = true
is_true (dict end) = false
is_true (dict (field k v fs)) = true
is_true unread = true

-- `{**d, k: v}`, with the keys in order
abbrev pub put : String → Json → Fields → Fields
put k v end = field (codes k) v end
put k v (field j w fs) =
    let rest = put k v fs in
    if bytes_eq j (codes k)
    then field j v fs
    else if text_leb (codes k) j
    then field (codes k) v (field j w fs)
    else field j w rest

-- the key is smaller than every key of the dictionary's first entry
abbrev starts_after : Text → Fields → Bool
starts_after k end = true
starts_after k (field j v fs) = not (text_leb j k)

-- the keys of every dictionary ascend: what `sort_keys=True` makes of a value
unfoldable mutual
  pub is_sorted : Json → Bool
  is_sorted (dict fs) = is_sorted_dict fs
  is_sorted _ = true

  pub is_sorted_dict : Fields → Bool
  is_sorted_dict end = true
  is_sorted_dict (field k v fs) = starts_after k fs && is_sorted v && is_sorted_dict fs

pub record JsonModule : Type 0 where
  -- json.dumps(v, sort_keys=True).encode("utf-8")
  pub dumps : Json → Bytes
  -- json.loads(raw.decode("utf-8")); `none` is JSONDecodeError or UnicodeDecodeError
  pub loads : Bytes → Option Json

-- a value whose keys are in order comes back as it was
pub record JsonLaws (j : JsonModule) : Type 0 where
  pub loads-dumps : (v : Json) → is_sorted v ≡ true → j.loads (j.dumps v) ≡ some v
