-- ===== src/Consensus/Address.antt =====
-- `formatValidatorAddress` of internal/monitors/consensus_monitor.go.
use hyperliquid_exporter.Consensus.{
  lower_byte, to_lower, has_prefix_0x, with_prefix_0x, shorten, format_validator_address,
}
use hyperliquid_exporter.Base.{
  ℕ, zero, suc, ◌-◌, ◌≤◌, ◌<◌, ◌≡◌, refl, ap, ◌∙◌, inl, inr, true, [], ◌∷◌, ◌++◌, take, drop, arith,
  ltb, leb, if◌then◌else◌, Bool-cases, Bytes, length,
}

lower_byte_idem : (b : ℕ) → lower_byte (lower_byte b) ≡ lower_byte b
unfolding lower_byte
lower_byte_idem b = ground arith

to_lower-append : (xs ys : Bytes) → to_lower (xs ++ ys) ≡ to_lower xs ++ to_lower ys
unfolding to_lower
to_lower-append [] ys = refl
to_lower-append (x ∷ xs) ys = ap (◌∷◌ (lower_byte x)) (to_lower-append xs ys)

pub to_lower_idem : (bs : Bytes) → to_lower (to_lower bs) ≡ to_lower bs
unfolding to_lower
to_lower_idem [] = refl
to_lower_idem (b ∷ bs) = rw (lower_byte_idem b, to_lower_idem bs) refl

to_lower-take : (n : ℕ) (bs : Bytes) → to_lower (take n bs) ≡ take n (to_lower bs)
unfolding to_lower take
to_lower-take zero bs = refl
to_lower-take (suc n) [] = refl
to_lower-take (suc n) (b ∷ bs) = ap (◌∷◌ (lower_byte b)) (to_lower-take n bs)

to_lower-drop : (n : ℕ) (bs : Bytes) → to_lower (drop n bs) ≡ drop n (to_lower bs)
unfolding to_lower drop
to_lower-drop zero bs = refl
to_lower-drop (suc n) [] = refl
to_lower-drop (suc n) (b ∷ bs) = to_lower-drop n bs

pub length-to_lower : (bs : Bytes) → length (to_lower bs) ≡ length bs
unfolding to_lower
length-to_lower [] = refl
length-to_lower (b ∷ bs) = ap suc (length-to_lower bs)

length-drop : (n : ℕ) (bs : Bytes) → length (drop n bs) ≡ length bs - n
unfolding drop
length-drop zero bs = omega arith
length-drop (suc n) [] = omega arith
length-drop (suc n) (b ∷ bs) = ground (arith, length-drop n bs)

length-four :
    (bs : Bytes) → length bs ≡ 4 → (w : ℕ) × (x : ℕ) × (y : ℕ) × (z : ℕ) × (bs ≡ w ∷ x ∷ y ∷ z ∷ [])
length-four [] h = absurd (omega (arith, h))
length-four (w ∷ []) h = absurd (omega (arith, h))
length-four (w ∷ x ∷ []) h = absurd (omega (arith, h))
length-four (w ∷ x ∷ y ∷ []) h = absurd (omega (arith, h))
length-four (w ∷ x ∷ y ∷ z ∷ []) h = (w, x, y, z, refl)
length-four (w ∷ x ∷ y ∷ z ∷ v ∷ bs) h = absurd (omega (arith, h))

-- What the shortening of a long address is.
record Shortened (addr : Bytes) : Type 0 where
  a : ℕ
  b : ℕ
  c : ℕ
  d : ℕ
  e : ℕ
  f : ℕ
  w : ℕ
  x : ℕ
  y : ℕ
  z : ℕ
  prefix : has_prefix_0x addr ≡ has_prefix_0x (a ∷ b ∷ [])
  shape : shorten addr ≡ a ∷ b ∷ c ∷ d ∷ e ∷ f ∷ b'.' ∷ b'.' ∷ w ∷ x ∷ y ∷ z ∷ []

if_long :
    (addr short : Bytes) → 10 < length addr → (if ltb 10 (length addr) then short else addr) ≡ short
if_long addr short h = ground arith

shorten-Shortened : (addr : Bytes) → 10 < length addr → Shortened addr
unfolding shorten take has_prefix_0x
shorten-Shortened [] h = absurd (omega (arith, h))
shorten-Shortened (a ∷ []) h = absurd (omega (arith, h))
shorten-Shortened (a ∷ b ∷ []) h = absurd (omega (arith, h))
shorten-Shortened (a ∷ b ∷ c ∷ []) h = absurd (omega (arith, h))
shorten-Shortened (a ∷ b ∷ c ∷ d ∷ []) h = absurd (omega (arith, h))
shorten-Shortened (a ∷ b ∷ c ∷ d ∷ e ∷ []) h = absurd (omega (arith, h))
shorten-Shortened (a ∷ b ∷ c ∷ d ∷ e ∷ f ∷ rest) h =
    let addr : Bytes = a ∷ b ∷ c ∷ d ∷ e ∷ f ∷ rest in
    let (w, x, y, z, tail) =
      length-four (drop (length addr - 4) addr)
        (omega (arith, h, length-drop (length addr - 4) addr)) in
    record {
      a = a;
      b = b;
      c = c;
      d = d;
      e = e;
      f = f;
      w = w;
      x = x;
      y = y;
      z = z;
      prefix = refl;
      shape =
          if_long addr (take 6 addr ++ b'.' ∷ b'.' ∷ drop (length addr - 4) addr) h
          ∙ ap (λ t. a ∷ b ∷ c ∷ d ∷ e ∷ f ∷ b'.' ∷ b'.' ∷ t) tail;
    }

-- A shortened address is twelve bytes long, and shortening it again changes nothing.
shorten_idem : (addr : Bytes) → 10 < length addr → shorten (shorten addr) ≡ shorten addr
unfolding shorten take drop
shorten_idem addr h = let r = shorten-Shortened addr h in rw r.shape refl

length-shorten : (addr : Bytes) → 10 < length addr → length (shorten addr) ≡ 12
length-shorten addr h = let r = shorten-Shortened addr h in rw r.shape refl

has_prefix_0x-shorten :
    (addr : Bytes) → 10 < length addr → has_prefix_0x (shorten addr) ≡ has_prefix_0x addr
unfolding has_prefix_0x
has_prefix_0x-shorten addr h = let r = shorten-Shortened addr h in rw (r.shape, r.prefix) refl

to_lower-dots : (l : Bytes) → to_lower (b'.' ∷ b'.' ∷ l) ≡ b'.' ∷ b'.' ∷ to_lower l
unfolding to_lower lower_byte
to_lower-dots l = refl

pub to_lower-shorten :
    (addr : Bytes) → to_lower addr ≡ addr → to_lower (shorten addr) ≡ shorten addr
unfolding shorten
to_lower-shorten addr low = elim (Bool-cases (ltb 10 (length addr))) [
  | inl long ↦
      rw
        (
          long,
          to_lower-append (take 6 addr) (b'.' ∷ b'.' ∷ drop (length addr - 4) addr),
          to_lower-take 6 addr,
          to_lower-dots (drop (length addr - 4) addr),
          low,
        )
        (ap (λ l. take 6 addr ++ b'.' ∷ b'.' ∷ l)
          (to_lower-drop (length addr - 4) addr ∙ ap (drop (length addr - 4)) low))
  | inr short ↦ rw short low
]

to_lower-with_prefix_0x :
    (addr : Bytes) → to_lower addr ≡ addr → to_lower (with_prefix_0x addr) ≡ with_prefix_0x addr
unfolding with_prefix_0x to_lower lower_byte
to_lower-with_prefix_0x addr low = elim (Bool-cases (has_prefix_0x addr)) [
  | inl h ↦ rw h low
  | inr h ↦ rw h (ap (λ l. b'0' ∷ b'x' ∷ l) low)
]

has_prefix_0x-with_prefix_0x : (addr : Bytes) → has_prefix_0x (with_prefix_0x addr) ≡ true
unfolding with_prefix_0x has_prefix_0x
has_prefix_0x-with_prefix_0x addr = elim (Bool-cases (has_prefix_0x addr)) [
  | inl h ↦ rw h h
  | inr h ↦ rw h refl
]

length-with_prefix_0x : (addr : Bytes) → length addr ≤ length (with_prefix_0x addr)
unfolding with_prefix_0x
length-with_prefix_0x addr = ground arith

with_prefix_present : (addr : Bytes) → has_prefix_0x addr ≡ true → with_prefix_0x addr ≡ addr
unfolding with_prefix_0x
with_prefix_present addr h = rw h refl

-- Formatting a formatted address changes nothing, so an address of the logs that is shortened
-- already keeps its label.
pub format_validator_address_idem :
    (address : Bytes)
    → format_validator_address (format_validator_address address) ≡ format_validator_address address
unfolding format_validator_address
format_validator_address_idem address = elim (Bool-cases (leb (length address) 10)) [
  | inl short ↦ rw (short, short) refl
  | inr long ↦
      let p = with_prefix_0x (to_lower address) in
      let wide : 10 < length p =
        ground (arith, length-to_lower address, length-with_prefix_0x (to_lower address)) in
      let low =
        to_lower-shorten p (to_lower-with_prefix_0x (to_lower address) (to_lower_idem address)) in
      let prefix = has_prefix_0x-shorten p wide ∙ has_prefix_0x-with_prefix_0x (to_lower address) in
      rw (long, length-shorten p wide, low, with_prefix_present (shorten p) prefix)
        (shorten_idem p wide)
]
