-- ===== src/Replica/Json.antt =====
-- JSON texts as encoding/json delivers them to internal/replica/parser.go, written without
-- optional spaces: the values, and how each is spelled.
use hyperliquid_exporter.Base.{
  ℕ, max, suc, ◌+◌, ◌≡◌, Bool, true, not, ◌||◌, [], ◌∷◌, ◌++◌, ◌==◌, if◌then◌else◌, Bytes, All,
}

-- A byte of a literal: a digit, a letter, or one of `+ - .`.
unfoldable pub is_plain : ℕ → Bool
is_plain b = not (
    b == b'"'
    || b == b'\\'
    || b == b'['
    || b == b']'
    || b == b','
    || b == b'{'
    || b == b'}'
    || b == b':')

mutual
  pub data Json : Type 0 where
    literal : Bytes → Json
    string : Bytes → Json
    array : Items → Json
    object : Fields → Json

  pub data Items : Type 0 where
    nil : Items
    cons : Json → Items → Items

  pub data Fields : Type 0 where
    end : Fields
    field : Bytes → Json → Fields → Fields

-- A string's bytes, with a backslash before each quote and each backslash.
unfoldable pub print_chars : Bytes → Bytes
print_chars [] = []
print_chars (b ∷ bs) =
    if b == b'"' || b == b'\\' then b'\\' ∷ b ∷ print_chars bs else b ∷ print_chars bs

unfoldable pub print_string : Bytes → Bytes
unfolding print_chars
print_string s = b'"' ∷ (print_chars s ++ b'"' ∷ [])

-- `print_more_items` and `print_more_fields` write what follows a first element.
unfoldable mutual
  pub print : Json → Bytes
  print (literal t) = t
  print (string s) = print_string s
  print (array xs) = b'[' ∷ (print_items xs ++ b']' ∷ [])
  print (object fs) = b'{' ∷ (print_fields fs ++ b'}' ∷ [])

  pub print_items : Items → Bytes
  print_items nil = []
  print_items (cons x xs) = print x ++ print_more_items xs

  pub print_more_items : Items → Bytes
  print_more_items nil = []
  print_more_items (cons x xs) = b',' ∷ (print x ++ print_more_items xs)

  pub print_fields : Fields → Bytes
  print_fields end = []
  print_fields (field k x fs) = print_string k ++ (b':' ∷ (print x ++ print_more_fields fs))

  pub print_more_fields : Fields → Bytes
  print_more_fields end = []
  print_more_fields (field k x fs) =
      b',' ∷ (print_string k ++ (b':' ∷ (print x ++ print_more_fields fs)))

-- The literals of a value hold plain bytes only.
unfoldable mutual
  pub IsSpelled : Json → Type 0
  IsSpelled (literal t) = All (λ b. is_plain b ≡ true) t
  IsSpelled (string s) = Unit
  IsSpelled (array xs) = AreSpelled xs
  IsSpelled (object fs) = FieldsAreSpelled fs

  pub AreSpelled : Items → Type 0
  AreSpelled nil = Unit
  AreSpelled (cons x xs) = IsSpelled x × AreSpelled xs

  pub FieldsAreSpelled : Fields → Type 0
  FieldsAreSpelled end = Unit
  FieldsAreSpelled (field k x fs) = IsSpelled x × FieldsAreSpelled fs

-- The number of an array's elements.
unfoldable pub items_length : Items → ℕ
items_length nil = 0
items_length (cons x xs) = suc (items_length xs)

-- What a scan that sees through braces, and not through brackets, takes for an element: a value
-- that is no object counts once, and an object as its fields' values do.
unfoldable mutual
  pub leaves : Json → ℕ
  leaves (literal t) = 1
  leaves (string s) = 1
  leaves (array xs) = 1
  leaves (object fs) = max 1 (field_leaves fs)

  pub item_leaves : Items → ℕ
  item_leaves nil = 0
  item_leaves (cons x xs) = leaves x + item_leaves xs

  pub field_leaves : Fields → ℕ
  field_leaves end = 0
  field_leaves (field k x fs) = leaves x + field_leaves fs
