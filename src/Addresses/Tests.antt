-- ===== src/Addresses/Tests.antt =====
-- Runs of internal/metrics/address_cache.go, and the theorem at such an input.
use mathlib.Core.List.{lookup}
use hyperliquid_exporter.Base.Dict.{insert}
use hyperliquid_exporter.Consensus.{lower_byte, to_lower}
use hyperliquid_exporter.Addresses.{
  is_hex, hex_tail, dots_tail, digits, is_address_truncated, truncate_address, AddressCache,
  register_full_address, expand_address, expand_address-register, get_address_cache_size,
  clear_address_cache,
}
use hyperliquid_exporter.Base.{
  ◌≡◌, refl, true, false, [], take, drop, arith, Bytes, codes, bytes_discrete, ℕ_discrete,
}

program : Unit {0}
unfolding is_hex hex_tail dots_tail digits is_address_truncated truncate_address
    register_full_address expand_address get_address_cache_size clear_address_cache lower_byte
    to_lower insert lookup bytes_discrete ℕ_discrete take drop
program = tt

abbrev full : Bytes
full = codes "0xABCDef0123456789abcdef0123456789abcdef01"

abbrev cache : AddressCache
cache = register_full_address full []

patterns :
    (is_address_truncated (codes "0xabcd..ef01") ≡ true)
    × (is_address_truncated (codes "0xabcd12..ef01") ≡ true)
    × (is_address_truncated (codes "0xabc..ef01") ≡ false)
    × (is_address_truncated full ≡ false)
unfolding program
patterns = (refl, refl, refl, refl)

sizes : (get_address_cache_size cache ≡ 1) × (clear_address_cache cache ≡ [])
unfolding program
sizes = (refl, refl)

expand_address-register_example :
    expand_address (truncate_address (to_lower full)) (register_full_address full [])
    ≡ to_lower full
unfolding program
expand_address-register_example = expand_address-register full [] (omega arith) refl
