-- ===== src/Replica/Count.antt =====
-- internal/replica/parser.go, `countJSONArrayElements`: the scan of a raw JSON text that counts
-- commas at bracket depth one.
pub mod Printed
pub mod Exact
use hyperliquid_exporter.Base.Int.{ℤ, pos, inc, dec, is_one}
use hyperliquid_exporter.Base.{
  ℕ, zero, suc, ◌+◌, ◌-◌, ◌≤◌, ◌<◌, ◌≡◌, refl, sym, ap, ◌∙◌, fun_ext, ◌≢◌, ◌↔◌, ◌⊎◌, inl, inr, Bool,
  true, false, not, ◌&&◌, ◌||◌, Option, none, some, List, [], ◌∷◌, ◌++◌, map, arith, ltb, leb, ◌==◌,
  if◌then◌else◌, ==_iff, Bool-cases, Option-cases, Bytes, codes, bytes_discrete, length, All, keep,
  ite, dec_lt, dec_le, ℕ_discrete, if_pos, if_neg,
}

-- The loop's variables.
pub record Scan : Type 0 where
  pub count : ℕ
  pub in_string : Bool
  pub escaped : Bool
  pub depth : ℤ

-- The `switch` on a byte that is not escaped. A quote is always an unescaped one here, so the
-- test of `escaped` inside its case passes.
unfoldable pub scan_byte : Scan → ℕ → Scan
scan_byte s b =
    if b == b'"'
    then record s { in_string = not s.in_string }
    else if b == b'\\'
    then record s { escaped = if s.in_string then true else s.escaped }
    else if b == b'['
    then record s { depth = if s.in_string then s.depth else inc s.depth }
    else if b == b']'
    then record s { depth = if s.in_string then s.depth else dec s.depth }
    else if b == b','
    then record s { count = if not s.in_string && is_one s.depth then s.count + 1 else s.count }
    else s

-- One round of the loop.
unfoldable pub scan_step : Scan → ℕ → Scan
scan_step s b = if s.escaped then record s { escaped = false } else scan_byte s b

unfoldable pub scan : Scan → Bytes → Scan
scan s [] = s
scan s (b ∷ bs) = scan (scan_step s b) bs

unfoldable pub count_json_array_elements : Bytes → ℕ
count_json_array_elements bs =
    (scan (record { count = 1; in_string = false; escaped = false; depth = pos 0 }) bs).count
