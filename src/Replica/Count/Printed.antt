-- ===== src/Replica/Count/Printed.antt =====
-- `countJSONArrayElements` of internal/replica/parser.go on a printed JSON array.
use mathlib.Core.List.{append_assoc}
use hyperliquid_exporter.Base.Int.{pos}
use hyperliquid_exporter.Replica.Count.{Scan, scan_byte, scan_step, scan, count_json_array_elements}
use hyperliquid_exporter.Replica.Json.{
  is_plain, Json, literal, string, array, object, Items, nil, cons, Fields, end, field, print_chars,
  print_string, print, print_items, print_more_items, print_fields, print_more_fields, IsSpelled,
  AreSpelled, FieldsAreSpelled, leaves, item_leaves, field_leaves,
}
use hyperliquid_exporter.Base.{
  ℕ, max, zero, suc, ◌+◌, ◌≡◌, refl, ap, ◌∙◌, true, false, [], ◌∷◌, ◌++◌, arith, Bytes, All,
}

-- Outside a string, at bracket depth n + 1.
abbrev outside : ℕ → ℕ → Scan
outside c n = record { count = c; in_string = false; escaped = false; depth = pos (suc n) }

abbrev inside : ℕ → ℕ → Scan
inside c n = record { count = c; in_string = true; escaped = false; depth = pos (suc n) }

-- Commas count at depth one only.
abbrev extra : ℕ → ℕ → ℕ
extra zero k = k
extra (suc n) k = 0

scan-print_chars :
    (s rest : Bytes) (c n : ℕ)
    → scan (inside c n) (print_chars s ++ b'"' ∷ rest) ≡ scan (outside c n) rest
unfolding print_chars scan scan_step scan_byte
scan-print_chars [] rest c n = refl
scan-print_chars (b ∷ s) rest c n = ground (arith, scan-print_chars s rest c n)

scan-print_string :
    (s rest : Bytes) (c n : ℕ)
    → scan (outside c n) (print_string s ++ rest) ≡ scan (outside c n) rest
unfolding print_string scan scan_step scan_byte
scan-print_string s rest c n =
    ap (scan (inside c n)) (append_assoc (print_chars s) (b'"' ∷ []) rest)
    ∙ scan-print_chars s rest c n

scan_plain :
    (t rest : Bytes) (c n : ℕ)
    → All (λ b. is_plain b ≡ true) t
    → scan (outside c n) (t ++ rest) ≡ scan (outside c n) rest
unfolding is_plain scan scan_step scan_byte
scan_plain [] rest c n h = refl
scan_plain (b ∷ t) rest c n h = ground (arith, scan_plain t rest c n h.1)

-- The commas that a scan at depth one meets in a value.
mutual
  commas : Json → ℕ
  commas (object fs) = field_commas fs
  commas _ = 0

  field_commas : Fields → ℕ
  field_commas end = 0
  field_commas (field k x fs) = commas x + more_field_commas fs

  more_field_commas : Fields → ℕ
  more_field_commas end = 0
  more_field_commas (field k x fs) = 1 + commas x + more_field_commas fs

more_item_commas : Items → ℕ
more_item_commas nil = 0
more_item_commas (cons x xs) = 1 + commas x + more_item_commas xs

extra-zero : (n c : ℕ) → c ≡ c + extra n 0
extra-zero zero c = omega arith
extra-zero (suc n) c = omega arith

extra-add : (n c a b : ℕ) → c + extra n a + extra n b ≡ c + extra n (a + b)
extra-add zero c a b = omega arith
extra-add (suc n) c a b = omega arith

-- A comma before what follows.
extra_comma :
    (n c : ℕ) (rest : Bytes)
    → scan (outside c n) (b',' ∷ rest) ≡ scan (outside (c + extra n 1) n) rest
unfolding scan scan_step scan_byte
extra_comma zero c rest = refl
extra_comma (suc n) c rest = ap (λ k. scan (outside k (suc n)) rest) (omega arith)

-- A field's name and its colon.
scan_name :
    (k body rest : Bytes) (c n : ℕ)
    → scan (outside c n) ((print_string k ++ (b':' ∷ body)) ++ rest)
      ≡ scan (outside c n) (body ++ rest)
unfolding scan scan_step scan_byte
scan_name k body rest c n =
    ap (scan (outside c n)) (append_assoc (print_string k) (b':' ∷ body) rest)
    ∙ scan-print_string k (b':' ∷ (body ++ rest)) c n

mutual
  unfolding print commas IsSpelled scan scan_step scan_byte

  scan-print :
      (v : Json) (rest : Bytes) (c n : ℕ)
      → IsSpelled v
      → scan (outside c n) (print v ++ rest) ≡ scan (outside (c + extra n (commas v)) n) rest
  scan-print (literal t) rest c n h =
      scan_plain t rest c n h ∙ ap (λ k. scan (outside k n) rest) (extra-zero n c)
  scan-print (string s) rest c n h =
      scan-print_string s rest c n ∙ ap (λ k. scan (outside k n) rest) (extra-zero n c)
  scan-print (array xs) rest c n h =
      ap (scan (outside c (suc n))) (append_assoc (print_items xs) (b']' ∷ []) rest)
      ∙ scan-print_items xs (b']' ∷ rest) c n h
      ∙ ap (λ k. scan (outside k n) rest) (extra-zero n c)
  scan-print (object fs) rest c n h =
      ap (scan (outside c n)) (append_assoc (print_fields fs) (b'}' ∷ []) rest)
      ∙ scan-print_fields fs (b'}' ∷ rest) c n h

  scan-print_items :
      (xs : Items) (rest : Bytes) (c n : ℕ)
      → AreSpelled xs
      → scan (outside c (suc n)) (print_items xs ++ rest) ≡ scan (outside c (suc n)) rest
  scan-print_items nil rest c n h = refl
  scan-print_items (cons x xs) rest c n h =
      ap (scan (outside c (suc n))) (append_assoc (print x) (print_more_items xs) rest)
      ∙ scan-print x (print_more_items xs ++ rest) c (suc n) h.0
      ∙ scan-print_more_items xs rest (c + 0) n h.1
      ∙ ap (λ k. scan (outside k (suc n)) rest) (omega arith)

  scan-print_more_items :
      (xs : Items) (rest : Bytes) (c n : ℕ)
      → AreSpelled xs
      → scan (outside c (suc n)) (print_more_items xs ++ rest) ≡ scan (outside c (suc n)) rest
  scan-print_more_items nil rest c n h = refl
  scan-print_more_items (cons x xs) rest c n h =
      ap (scan (outside c (suc n))) (append_assoc (print x) (print_more_items xs) rest)
      ∙ scan-print x (print_more_items xs ++ rest) c (suc n) h.0
      ∙ scan-print_more_items xs rest (c + 0) n h.1
      ∙ ap (λ k. scan (outside k (suc n)) rest) (omega arith)

  scan-print_fields :
      (fs : Fields) (rest : Bytes) (c n : ℕ)
      → FieldsAreSpelled fs
      → scan (outside c n) (print_fields fs ++ rest)
        ≡ scan (outside (c + extra n (field_commas fs)) n) rest
  scan-print_fields end rest c n h = ap (λ k. scan (outside k n) rest) (extra-zero n c)
  scan-print_fields (field k x fs) rest c n h =
      scan_name k (print x ++ print_more_fields fs) rest c n
      ∙ ap (scan (outside c n)) (append_assoc (print x) (print_more_fields fs) rest)
      ∙ scan-print x (print_more_fields fs ++ rest) c n h.0
      ∙ scan-print_more_fields fs rest (c + extra n (commas x)) n h.1
      ∙ ap (λ k. scan (outside k n) rest) (extra-add n c (commas x) (more_field_commas fs))

  scan-print_more_fields :
      (fs : Fields) (rest : Bytes) (c n : ℕ)
      → FieldsAreSpelled fs
      → scan (outside c n) (print_more_fields fs ++ rest)
        ≡ scan (outside (c + extra n (more_field_commas fs)) n) rest
  scan-print_more_fields end rest c n h = ap (λ k. scan (outside k n) rest) (extra-zero n c)
  scan-print_more_fields (field k x fs) rest c n h =
      let c' = c + extra n 1 in
      extra_comma n c ((print_string k ++ (b':' ∷ (print x ++ print_more_fields fs))) ++ rest)
      ∙ scan_name k (print x ++ print_more_fields fs) rest c' n
      ∙ ap (scan (outside c' n)) (append_assoc (print x) (print_more_fields fs) rest)
      ∙ scan-print x (print_more_fields fs ++ rest) c' n h.0
      ∙ scan-print_more_fields fs rest (c' + extra n (commas x)) n h.1
      ∙ ap (λ k. scan (outside (k + extra n (more_field_commas fs)) n) rest)
          (extra-add n c 1 (commas x))
      ∙ ap (λ k. scan (outside k n) rest) (extra-add n c (1 + commas x) (more_field_commas fs))

-- The items of an array at depth one, where commas count.
scan_counted :
    (xs : Items) (rest : Bytes) (c : ℕ)
    → AreSpelled xs
    → scan (outside c 0) (print_more_items xs ++ rest)
      ≡ scan (outside (c + more_item_commas xs) 0) rest
unfolding print more_item_commas IsSpelled
scan_counted nil rest c h = ap (λ k. scan (outside k 0) rest) (omega arith)
scan_counted (cons x xs) rest c h =
    extra_comma 0 c ((print x ++ print_more_items xs) ++ rest)
    ∙ ap (scan (outside (c + 1) 0)) (append_assoc (print x) (print_more_items xs) rest)
    ∙ scan-print x (print_more_items xs ++ rest) (c + 1) 0 h.0
    ∙ scan_counted xs rest (c + 1 + commas x) h.1
    ∙ ap (λ k. scan (outside k 0) rest) (omega arith)

mutual
  unfolding commas leaves

  leaves-commas : (v : Json) → leaves v ≡ 1 + commas v
  leaves-commas (literal t) = refl
  leaves-commas (string s) = refl
  leaves-commas (array xs) = refl
  leaves-commas (object end) = refl
  leaves-commas (object (field k x fs)) = omega (arith, leaves-commas x, more_leaves fs)

  more_leaves : (fs : Fields) → field_leaves fs ≡ more_field_commas fs
  more_leaves end = refl
  more_leaves (field k x fs) = omega (arith, leaves-commas x, more_leaves fs)

item_leaves-commas : (xs : Items) → item_leaves xs ≡ more_item_commas xs
unfolding leaves more_item_commas
item_leaves-commas nil = refl
item_leaves-commas (cons x xs) = omega (arith, leaves-commas x, item_leaves-commas xs)

-- On a printed array the scan counts the leaves of its elements, and one for an empty array:
-- braces do not stop it, so the commas of an object's fields count like those between elements.
pub count_json_array_elements-print :
    (xs : Items)
    → AreSpelled xs
    → count_json_array_elements (print (array xs)) ≡ max 1 (item_leaves xs)
unfolding count_json_array_elements print scan scan_step scan_byte leaves IsSpelled
count_json_array_elements-print nil h = refl
count_json_array_elements-print (cons x xs) h =
    ap Scan.count (
      ap (scan (outside 1 0)) (append_assoc (print x) (print_more_items xs) (b']' ∷ []))
      ∙ scan-print x (print_more_items xs ++ b']' ∷ []) 1 0 h.0
      ∙ scan_counted xs (b']' ∷ []) (1 + commas x) h.1)
    ∙ omega (arith, leaves-commas x, item_leaves-commas xs)
