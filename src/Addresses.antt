-- ===== src/Addresses.antt =====
-- internal/metrics/address_cache.go: full addresses under their truncated form. Strings are ASCII,
-- so `strings.ToLower` is `to_lower`.
mod Tests
use mathlib.Core.List.{lookup}
use hyperliquid_exporter.Base.Dict.{insert, lookup-insert}
use hyperliquid_exporter.Consensus.{to_lower, shorten}
use hyperliquid_exporter.Consensus.Address.{to_lower_idem, to_lower-shorten, length-to_lower}
use hyperliquid_exporter.Base.{
  ℕ, zero, suc, ◌+◌, ◌-◌, ◌%◌, ◌≤◌, ◌<◌, ◌≡◌, refl, sym, ap, ◌∙◌, fun_ext, ◌≢◌, ◌↔◌, ◌⊎◌, inl, inr,
  Bool, true, false, not, ◌&&◌, ◌||◌, Option, none, some, List, [], ◌∷◌, ◌++◌, map, take, drop,
  arith, ltb, leb, ◌==◌, if◌then◌else◌, ==_iff, Bool-cases, Option-cases, Bytes, codes,
  bytes_discrete, length, All, keep, ite, dec_lt, dec_le, ℕ_discrete, if_pos, if_neg,
}

-- `[a-fA-F0-9]`
unfoldable pub is_hex : ℕ → Bool
is_hex b = (leb b'a' b && leb b b'f') || (leb b'A' b && leb b b'F') || (leb b'0' b && leb b b'9')

unfoldable pub hex_tail : ℕ → Bytes → Bool
hex_tail zero [] = true
hex_tail zero (b ∷ bs) = false
hex_tail (suc n) [] = false
hex_tail (suc n) (b ∷ bs) = let rest = hex_tail n bs in is_hex b && rest

-- `\.\.[a-fA-F0-9]{4}$`
unfoldable pub dots_tail : Bytes → Bool
dots_tail (a ∷ b ∷ bs) = (a == b'.' && b == b'.') && hex_tail 4 bs
dots_tail (a ∷ []) = false
dots_tail [] = false

-- Between `n` and `n + extra` digits, then the rest of the pattern.
unfoldable pub digits : ℕ → ℕ → Bytes → Bool
digits zero extra [] = false
digits zero zero (b ∷ bs) = dots_tail (b ∷ bs)
digits zero (suc extra) (b ∷ bs) =
    let rest = digits zero extra bs in dots_tail (b ∷ bs) || (is_hex b && rest)
digits (suc n) extra [] = false
digits (suc n) extra (b ∷ bs) = let rest = digits n extra bs in is_hex b && rest

-- The match of `^0x[a-fA-F0-9]{4,6}\.\.[a-fA-F0-9]{4}$`.
unfoldable pub is_address_truncated : Bytes → Bool
is_address_truncated (a ∷ b ∷ bs) = (a == b'0' && b == b'x') && digits 4 2 bs
is_address_truncated (a ∷ []) = false
is_address_truncated [] = false

unfoldable pub truncate_address : Bytes → Bytes
truncate_address full =
    if ltb (length full) 10 then full else take 6 full ++ b'.' ∷ b'.' ∷ drop (length full - 4) full

abbrev pub AddressCache : Type 0
AddressCache = List (Bytes × Bytes)

unfoldable pub register_full_address : Bytes → AddressCache → AddressCache
register_full_address full cache =
    if ltb (length full) 42
    then cache
    else insert bytes_discrete (truncate_address (to_lower full)) (to_lower full) cache

-- The empty string is not truncated either, so the first early return is the second.
unfoldable pub expand_address : Bytes → AddressCache → Bytes
expand_address address cache =
    let lower = to_lower address in
    if is_address_truncated lower
    then elim (lookup bytes_discrete lower cache) [ some full ↦ full | none ↦ lower ]
    else lower

unfoldable pub get_address_cache_size : AddressCache → ℕ
get_address_cache_size cache = length cache

unfoldable pub clear_address_cache : AddressCache → AddressCache
clear_address_cache cache = []

truncate-shorten : (full : Bytes) → 10 < length full → truncate_address full ≡ shorten full
unfolding truncate_address shorten
truncate-shorten full h = ground arith

-- If the truncated form of a registered address has the truncated pattern, expanding it gives the
-- address in lower case, whatever was registered before.
pub expand_address-register :
    (full : Bytes) (cache : AddressCache)
    → 42 ≤ length full
    → is_address_truncated (truncate_address (to_lower full)) ≡ true
    → expand_address (truncate_address (to_lower full)) (register_full_address full cache)
      ≡ to_lower full
unfolding expand_address register_full_address
expand_address-register full cache long pattern =
    let lower = to_lower full in
    let wide : 10 < length lower = omega (arith, long, length-to_lower full) in
    let short = truncate-shorten lower wide in
    let same : to_lower (truncate_address lower) ≡ truncate_address lower =
      ap to_lower short ∙ to_lower-shorten lower (to_lower_idem full) ∙ sym short in
    ground (
      arith,
      same,
      pattern,
      long,
      ap is_address_truncated same,
      ap (λ k. lookup bytes_discrete k (insert bytes_discrete (truncate_address lower) lower cache))
          same,
      lookup-insert bytes_discrete (truncate_address lower) (truncate_address lower) lower cache,
    )
