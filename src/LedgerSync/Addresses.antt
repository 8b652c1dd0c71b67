-- ===== src/LedgerSync/Addresses.antt =====
-- getProtoName of ledger_sync/subscriber/deltas.js, and the page number that getObjectifier reads
-- from an address. An address is the list of its character char_codes; the validator guarantees that
-- they are lower-case hexadecimal digits, so `parseInt` finds no sign, blank or `0x`.
use Prim.Native.Char.{code}
use dgc_database_tp.Prelude.{
  ℕ, zero, ◌+◌, ◌-◌, ◌*◌, ◌≤◌, ◌<◌, String, Bool, true, ◌&&◌, ◌||◌, List, [], ◌∷◌, Option, none,
  some, ◌≡◌, ◌≢◌, refl, list_same_iff, length, take, drop, leb, if◌then◌else◌, ◌==◌, ℕ_test,
  list_test, arith,
}

abbrev pub char_codes : String → List ℕ
char_codes String.[] = []
char_codes (String.◌∷◌ c s) = code c ∷ char_codes s

pub data ProtoName : Type 0 where
  property property_page participant proposal exchange_name record_name table : ProtoName

-- `address.slice(6, 8)` and `address.slice(-4)`
abbrev pub type_prefix : List ℕ → List ℕ
type_prefix address = take 2 (drop 6 address)

abbrev pub last_four : List ℕ → List ℕ
last_four address = drop (length address - 4) address

-- `none` is the error "No Protobuf for prefix"
unfoldable pub get_proto_name : List ℕ → Option ProtoName
get_proto_name address =
    let prefix = type_prefix address in
    if prefix == char_codes "ea"
    then some (if last_four address == char_codes "0000" then property else property_page)
    else if prefix == char_codes "ae"
    then some participant
    else if prefix == char_codes "aa"
    then some proposal
    else if prefix == char_codes "ce"
    then some exchange_name
    else if prefix == char_codes "ec"
    then some record_name
    else if prefix == char_codes "ee"
    then some table
    else none

abbrev pub is_hex : ℕ → Bool
is_hex c = (leb 48 c && leb c 57) || (leb 97 c && leb c 102)

abbrev pub hex_digit : ℕ → ℕ
hex_digit c = if leb c 57 then c - 48 else c - 87

-- `parseInt(digits, 16)`, with the value of the digits read so far
unfoldable pub parse_hex : ℕ → List ℕ → ℕ
parse_hex n [] = n
parse_hex n (c ∷ cs) = if is_hex c then parse_hex (n * 16 + hex_digit c) cs else n

unfoldable pub page_num : List ℕ → ℕ
unfolding parse_hex
page_num address = parse_hex 0 (last_four address)

parse_hex_four :
    (a b c d : ℕ)
    → (is_hex a && (is_hex b && (is_hex c && is_hex d))) ≡ true
    → parse_hex 0 (a ∷ b ∷ c ∷ d ∷ [])
      ≡ ((hex_digit a * 16 + hex_digit b) * 16 + hex_digit c) * 16 + hex_digit d
unfolding parse_hex
parse_hex_four a b c d h = ground arith

hex_digit-range : (c : ℕ) → is_hex c ≡ true → (hex_digit c < 16) × (hex_digit c ≡ 0 → c ≡ 48)
hex_digit-range c h = ground arith

page-ne-zeros :
    (address : List ℕ)
    → get_proto_name address ≡ some property_page
    → last_four address ≢ char_codes "0000"
unfolding get_proto_name
page-ne-zeros address p z = ground (arith, list_same_iff (last_four address) (char_codes "0000"))

four_zeros :
    (a b c d : ℕ) → a ≡ 48 → b ≡ 48 → c ≡ 48 → d ≡ 48 → a ∷ b ∷ c ∷ d ∷ [] ≡ char_codes "0000"
four_zeros a b c d p q r s = cc

hex_number-range :
    (x y z w : ℕ)
    → x < 16
    → y < 16
    → z < 16
    → w < 16
    → ¬ ((x ≡ 0) × (y ≡ 0) × (z ≡ 0) × (w ≡ 0))
    → (1 ≤ ((x * 16 + y) * 16 + z) * 16 + w) × (((x * 16 + y) * 16 + z) * 16 + w < 65536)
hex_number-range zero zero zero zero p q r s h = absurd (h (refl, refl, refl, refl))
hex_number-range x y z w p q r s h = omega arith

-- The page number that is read from the address of a property's page, an address that ends in four
-- hexadecimal digits and names a page, is at least 1 and below 16 ^ 4.
pub page_num-range :
    (address : List ℕ) (a b c d : ℕ)
    → last_four address ≡ a ∷ b ∷ c ∷ d ∷ []
    → (is_hex a && (is_hex b && (is_hex c && is_hex d))) ≡ true
    → get_proto_name address ≡ some property_page
    → (1 ≤ page_num address) × (page_num address < 65536)
unfolding page_num
page_num-range address a b c d e h p =
    let (la, za) = hex_digit-range a (ground arith) in
    let (lb, zb) = hex_digit-range b (ground arith) in
    let (lc, zc) = hex_digit-range c (ground arith) in
    let (ld, zd) = hex_digit-range d (ground arith) in
    let value = parse_hex_four a b c d h in
    let zeros = four_zeros a b c d in
    let other : a ∷ b ∷ c ∷ d ∷ [] ≢ char_codes "0000" = rw e at (page-ne-zeros address p) in
    rw e (
      rw value (
        hex_number-range _ _ _ _ la lb lc ld
          (λ o. other (zeros (za o.0) (zb o.1) (zc o.2) (zd o.3)))))
