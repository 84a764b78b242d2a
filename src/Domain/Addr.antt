-- ===== src/Domain/Addr.antt =====
-- The part of net/netip that the program uses: an address is invalid, 32 bits or 128 bits, and a
-- prefix is the zero prefix or an address with a length. Zones do not occur.
use huawei_api.Base.{
  ℕ, ◌+◌, ◌*◌, ◌/◌, ◌%◌, Bool, true, false, ◌&&◌, ◌==◌, if◌then◌else◌, ◌≡◌, arith,
}

pub data Addr : Type 0 where
  invalid : Addr
  v4 v6 : ℕ → Addr

-- Addr.IsValid
abbrev pub is_valid : Addr → Bool
is_valid Addr.invalid = false
is_valid _ = true

-- `==` on addresses.
abbrev pub addr_eq : Addr → Addr → Bool
addr_eq Addr.invalid Addr.invalid = true
addr_eq (Addr.v4 a) (Addr.v4 b) = a == b
addr_eq (Addr.v6 a) (Addr.v6 b) = a == b
addr_eq _ _ = false

-- Addr.Unmap: ::ffff:a.b.c.d becomes a.b.c.d.
abbrev pub unmap : Addr → Addr
unmap (Addr.v6 n) = if n / 4294967296 == 65535 then Addr.v4 (n % 4294967296) else Addr.v6 n
unmap a = a

-- netip.AddrFrom4.
abbrev pub addr_from4 : ℕ → ℕ → ℕ → ℕ → Addr
addr_from4 a b c d = Addr.v4 (((a * 256 + b) * 256 + c) * 256 + d)

pub data Prefix : Type 0 where
  zero_prefix : Prefix
  prefix : Addr → ℕ → Prefix

-- `==` on prefixes.
abbrev pub prefix_eq : Prefix → Prefix → Bool
prefix_eq Prefix.zero_prefix Prefix.zero_prefix = true
prefix_eq (Prefix.prefix a m) (Prefix.prefix b n) = addr_eq a b && m == n
prefix_eq _ _ = false

pub addr_eq→≡ : (a b : Addr) → addr_eq a b ≡ true → a ≡ b
addr_eq→≡ a b h = ground arith

pub addr_eq_self : (a : Addr) → addr_eq a a ≡ true
addr_eq_self a = ground arith
