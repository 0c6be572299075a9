-- ===== src/Receipts/Canonical.antt =====
-- src/core/receipt-store.js: `canonicalJson`, the text over which a receipt is hashed. How a string, a
-- number and a date are written, and the order of strings by `sort`, are the platform's.
use Prim.Native.String.{◌++◌ as str_append}
use etnpilot.Common.{
  ℕ, Bool, true, false, List, [], ◌∷◌, String, if◌then◌else◌, Json, null, bool, num, time, str, arr,
  obj, Items, nil, cons, Fields, end, field,
}

pub record JsonText : Type 0 where
  pub string_text : String → String
  pub number_text : ℕ → String
  pub date_text : ℕ → String
  pub before : String → String → Bool

-- `texts.join(",")`.
abbrev pub join_comma : List String → String
join_comma [] = ""
join_comma (t ∷ []) = t
join_comma (t ∷ u ∷ ts) = str_append t (str_append "," (join_comma (u ∷ ts)))

module _ (p : JsonText) where
  -- An entry of an object: its key, and its text.
  abbrev pub insert_entry : String × String → List (String × String) → List (String × String)
  insert_entry e [] = e ∷ []
  insert_entry e (f ∷ fs) =
      let rest = insert_entry e fs in if p.before f.0 e.0 then f ∷ rest else e ∷ f ∷ fs

  abbrev pub sort_entries : List (String × String) → List (String × String)
  sort_entries [] = []
  sort_entries (e ∷ es) = insert_entry e (sort_entries es)

  abbrev pub texts_of : List (String × String) → List String
  texts_of [] = []
  texts_of (e ∷ es) = e.1 ∷ texts_of es

  unfoldable mutual
    pub canonical_json : Json → String
    canonical_json null = "null"
    canonical_json (bool true) = "true"
    canonical_json (bool false) = "false"
    canonical_json (num n) = p.number_text n
    canonical_json (time t) = p.date_text t
    canonical_json (str s) = p.string_text s
    canonical_json (arr xs) = str_append "[" (str_append (join_comma (item_texts xs)) "]")
    canonical_json (obj fs) =
        str_append "{" (str_append (join_comma (texts_of (sort_entries (entries fs)))) "}")

    pub item_texts : Items → List String
    item_texts nil = []
    item_texts (cons x xs) = canonical_json x ∷ item_texts xs

    pub entries : Fields → List (String × String)
    entries end = []
    entries (field k v fs) =
        (k, str_append (p.string_text k) (str_append ":" (canonical_json v))) ∷ entries fs
